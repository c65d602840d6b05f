-- ===== src/JobRunners/Research.antt =====
-- What the runner of deep research jobs comes to.
use ai_researcher_agent_loca.Prelude.{
  ◌<◌, Bool, true, false, Option, none, String, [], ◌∷◌, ◌≡◌, refl, ◌⊎◌, inl, inr, if◌then◌else◌,
  ap, ◌∙◌,
}
use ai_researcher_agent_loca.StateMachine.{
  created, clarifying, planned, converged, completed, paused, failed, same_state,
}
use ai_researcher_agent_loca.Orchestrator.{
  Orchestrator, worker_failed, Outcome, bind, done, raised, request_pause, persist_checkpoint,
}
use ai_researcher_agent_loca.Orchestrator.Loop.{
  World, at_rest, setup_clarify, setup_plan, setup_begin, run_loop, finish_run, limited,
  run_orchestrated,
}
use ai_researcher_agent_loca.Orchestrator.Control.{run}
use ai_researcher_agent_loca.Orchestrator.Running.{is_active, RunEnds, run-finishes}
use ai_researcher_agent_loca.JobRunners.{
  paused_at, final, throws, Ran, is_flag, conclude_research, deep_research, research_started,
  research_completed,
}

run_loop-paused :
    (w : World) (o : Orchestrator) → o.project.state ≡ paused → run_loop w 200 o ≡ done true o
unfolding run_loop at_rest
run_loop-paused w o here = let e : at_rest o.project.state ≡ true = rw here refl in rw e refl

-- A run leaves a paused project as it is, but for the time of the last change.
run-paused :
    (w : World) (o : Orchestrator)
    → o.project.state ≡ paused
    → run w none o ≡ done tt (persist_checkpoint w.start o)
unfolding run run_orchestrated setup_clarify setup_plan setup_begin finish_run limited bind
run-paused w o here =
    let e1 : same_state o.project.state created ≡ false = rw here refl in
    let e2 : same_state o.project.state clarifying ≡ false = rw here refl in
    let e3 : same_state o.project.state planned ≡ false = rw here refl in
    let e4 : same_state o.project.state converged ≡ false = rw here refl in
    let looped = run_loop-paused w o here in
    let ran : run_orchestrated w none o ≡ done tt o =
      rw (run_orchestrated, e1, e2, e3, looped, e4) refl in
    rw (run, ran) refl

asked-same :
    (asks : Bool) (o : Orchestrator)
    → (let asked = if asks then request_pause o else o in
        (asked.project ≡ o.project) × (asked.current_iteration ≡ o.current_iteration))
unfolding request_pause
asked-same true o = (refl, refl)
asked-same false o = (refl, refl)

-- The runner never leaves a pause: asked to run a paused project, and not cancelled, it answers
-- that the project is paused, and the project is still paused in the same iteration.
pub deep_research-paused :
    (w : World) (flag : Option String) (o : Orchestrator)
    → o.project.state ≡ paused
    → is_flag "CANCEL" flag ≡ false
    → ((deep_research w flag o).answer ≡ paused_at o.current_iteration)
      × ((deep_research w flag o).project.project.state ≡ paused)
unfolding deep_research request_pause persist_checkpoint
deep_research-paused w flag o here going =
    let asked = if is_flag "PAUSE" flag then request_pause o else o in
    let same : (asked.project ≡ o.project) × (asked.current_iteration ≡ o.current_iteration) =
      asked-same (is_flag "PAUSE" flag) o in
    let there : asked.project.state ≡ paused = ap (λ p. p.state) same.0 ∙ here in
    let e = run-paused w asked there in
    let e' : same_state asked.project.state paused ≡ true = rw there refl in
    rw (going, e, e', deep_research) (ap paused_at same.1, there)

abbrev pub IsAnswered : Ran → Type 0
IsAnswered r =
    ((r.answer ≡ paused_at r.project.current_iteration) × (r.project.project.state ≡ paused))
    ⊎ (((r.answer ≡ final false completed r.project.stop_reason r.project.current_iteration)
          × (r.events ≡ research_started ∷ research_completed ∷ []))
        ⊎ ((r.answer ≡ throws worker_failed) × (r.project.project.state ≡ failed)))

-- The answer to the outcome of a run.
answered :
    (m : Outcome Unit)
    → RunEnds m
    → IsAnswered (elim m [
      | raised f o1 ↦ record { answer = throws f; events = research_started ∷ []; project = o1 }
      | done u o1 ↦
          if same_state o1.project.state paused
          then record {
            answer = paused_at o1.current_iteration;
            events = research_started ∷ [];
            project = o1;
          }
          else conclude_research false o1
    ])
unfolding conclude_research
answered (raised f o) (e, (there, reason)) = inr (inr (ap throws e, there))
answered (done u o) (inl completed_now) =
    let e : same_state o.project.state paused ≡ false = rw completed_now refl in
    let e' : same_state o.project.state failed ≡ false = rw completed_now refl in
    rw (e, e', conclude_research) (inr (inl (rw completed_now refl, refl)))
answered (done u o) (inr paused_now) =
    let e : same_state o.project.state paused ≡ true = rw paused_now refl in
    rw e (inl (refl, paused_now))

asked-ends :
    (w : World) (asks : Bool) (o : Orchestrator)
    → is_active o.project.state ≡ true
    → o.budget.cfg.max_iterations < 100
    → RunEnds (run w none (if asks then request_pause o else o))
unfolding request_pause limited
asked-ends w true o active small = run-finishes w none (request_pause o) active small
asked-ends w false o active small = run-finishes w none o active small

-- A job on a project that is CREATED, CLARIFYING, PLANNED, SEARCHING, ANALYZING_GAPS or CONVERGED,
-- without a cancellation and with at most 99 iterations configured: the runner answers PAUSED with the project paused, or it
-- answers COMPLETED with the project completed and publishes the start and the completion, or a
-- worker's exception leaves the project failed.
pub deep_research-answers :
    (w : World) (flag : Option String) (o : Orchestrator)
    → is_active o.project.state ≡ true
    → is_flag "CANCEL" flag ≡ false
    → o.budget.cfg.max_iterations < 100
    → IsAnswered (deep_research w flag o)
unfolding deep_research
deep_research-answers w flag o active going small =
    let asked = if is_flag "PAUSE" flag then request_pause o else o in
    let ends : RunEnds (run w none asked) = asked-ends w (is_flag "PAUSE" flag) o active small in
    rw (going, deep_research) (answered (run w none asked) ends)
