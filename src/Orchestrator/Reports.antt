-- ===== src/Orchestrator/Reports.antt =====
-- Without the approval of the last review gate a run reports nothing.
use ai_researcher_agent_loca.Prelude.{
  ℕ, zero, suc, String, Bool, true, false, not, Option, none, some, List, ◌∙◌, ◌≡◌, ◌≢◌, refl,
  arith, inl, inr, any_of, str_eq, if◌then◌else◌, Bool-cases,
}
use ai_researcher_agent_loca.Job.{Time}
use ai_researcher_agent_loca.StateMachine.{
  created, clarifying, planned, searching, analyzing_gaps, converged, completed, paused, failed,
  same_state, can_transition, transition,
}
use ai_researcher_agent_loca.Convergence.{StopReason}
use ai_researcher_agent_loca.Orchestrator.{
  before_final_synthesis, after_problem_definition, after_initial_research_plan, gate_value,
  LoopStepSpec, Orchestrator, Outcome, done, raised, move, persist_checkpoint, request_stop,
  request_pause, review_gate, save_cursor, step_has_pause,
}
use ai_researcher_agent_loca.Orchestrator.Phases.{
  ClarifyWork, ask_user, phase_clarify, phase_plan, begin_iteration,
}
use ai_researcher_agent_loca.Orchestrator.Loop.{
  Round, World, at_rest, setup_clarify, setup_plan, setup_begin, Next, again, leave, return,
  analysis_round, work_round, one_round, run_loop, finish_run, limited, run_orchestrated,
}
use ai_researcher_agent_loca.Orchestrator.Control.{fail_run, run}
use ai_researcher_agent_loca.Orchestrator.Running.{fail_run-failed}
use ai_researcher_agent_loca.Orchestrator.Gates.{
  Keeps, Keeps-done, Keeps-bind, Keeps-choose, Has, HasIt, then_Has, done_Has, either_Has, move-Has,
  call-Has, review_gate-Has, pause_at_step-Has, check_pause-Has, phase_analyze-Has,
  phase_search-Has,
}

module _ (gates : List String) (enabled : Bool) where
  ask_user-Has :
      (now : Time) (asks : Bool) (o : Orchestrator)
      → Has gates enabled o
      → Has gates enabled (ask_user now asks o)
  unfolding ask_user move transition
  ask_user-Has now false o h = h
  ask_user-Has now true o h = elim (Bool-cases (same_state o.project.state paused)) [
    | inl e ↦ rw e h
    | inr e ↦ elim (Bool-cases (can_transition o.project.state paused)) [
      | inl ok ↦ rw (e, ok) (h.0, (h.1.0, refl))
      | inr refused ↦ rw (e, refused) h
    ]
  ]

  phase_clarify-Has :
      (now : Time) (work : ClarifyWork) (o : Orchestrator)
      → Has gates enabled o
      → Keeps gates (HasIt gates enabled) (phase_clarify now work o)
  unfolding phase_clarify persist_checkpoint
  phase_clarify-Has now work o h =
      then_Has gates enabled _ _ (move-Has gates enabled now clarifying refl o h) (λ u o1 h1.
        then_Has gates enabled _ _ (call-Has gates enabled work.clarified o1 h1) (λ u o2 h2.
          let asked = ask_user now work.asks_user o2 in
          let h3 = ask_user-Has now work.asks_user o2 h2 in
          either_Has gates enabled (same_state asked.project.state paused) _ _
            (done_Has gates enabled tt _ h3)
            (then_Has gates enabled _ _
              (review_gate-Has gates enabled now after_problem_definition asked h3)
              (λ passed o4 h4. done_Has gates enabled tt o4 h4))))

  phase_plan-Has :
      (now : Time) (works : Bool) (o : Orchestrator)
      → Has gates enabled o
      → Keeps gates (HasIt gates enabled) (phase_plan now works o)
  unfolding phase_plan
  phase_plan-Has now works o h =
      then_Has gates enabled _ _ (call-Has gates enabled works o h) (λ u o1 h1.
        then_Has gates enabled _ _
          (review_gate-Has gates enabled now after_initial_research_plan o1 h1)
          (λ passed o2 h2.
            either_Has gates enabled passed _ _ (move-Has gates enabled now planned refl o2 h2)
              (done_Has gates enabled tt o2 h2)))

  -- The optional pause after a step.
  pause-Has :
      {A : Type 0} (found : Option LoopStepSpec) (x : Outcome A) (y : LoopStepSpec → Outcome A)
      → Keeps gates (HasIt gates enabled) x
      → ((spec : LoopStepSpec) → Keeps gates (HasIt gates enabled) (y spec))
      → Keeps gates (HasIt gates enabled) (elim found [ none ↦ x | some spec ↦ y spec ])
  pause-Has none x y hx hy = hx
  pause-Has (some spec) x y hx hy = hy spec

  setup_clarify-Has :
      (w : World) (o : Orchestrator)
      → Has gates enabled o
      → Keeps gates (HasIt gates enabled) (setup_clarify w o)
  unfolding setup_clarify save_cursor persist_checkpoint
  setup_clarify-Has w o h =
      either_Has gates enabled (same_state o.project.state created) _ _
        (then_Has gates enabled _ _ (phase_clarify-Has w.start w.clarify _ h) (λ u o1 h1.
          either_Has gates enabled (same_state o1.project.state paused) _ _
            (done_Has gates enabled false _ h1)
            (pause-Has (step_has_pause w.upper w.loop.setup "clarify" o1.approved_gates) _ _
              (done_Has gates enabled true o1 h1)
              (λ spec.
                then_Has gates enabled _ _
                  (pause_at_step-Has gates enabled w.upper w.start "setup" 0 0 spec o1 h1)
                  (λ u o2 h2. done_Has gates enabled false o2 h2)))))
        (done_Has gates enabled true o h)

  setup_plan-Has :
      (w : World) (o : Orchestrator)
      → Has gates enabled o
      → Keeps gates (HasIt gates enabled) (setup_plan w o)
  unfolding setup_plan save_cursor persist_checkpoint
  setup_plan-Has w o h =
      either_Has gates enabled (same_state o.project.state clarifying) _ _
        (then_Has gates enabled _ _ (phase_plan-Has w.start w.planned_all _ h) (λ u o1 h1.
          either_Has gates enabled (same_state o1.project.state paused) _ _
            (done_Has gates enabled false _ h1)
            (pause-Has (step_has_pause w.upper w.loop.setup "plan" o1.approved_gates) _ _
              (done_Has gates enabled true o1 h1)
              (λ spec.
                then_Has gates enabled _ _
                  (pause_at_step-Has gates enabled w.upper w.start "setup" 2 0 spec o1 h1)
                  (λ u o2 h2. done_Has gates enabled false o2 h2)))))
        (done_Has gates enabled true o h)

  setup_begin-Has :
      (w : World) (o : Orchestrator)
      → Has gates enabled o
      → Keeps gates (HasIt gates enabled) (setup_begin w o)
  unfolding setup_begin begin_iteration save_cursor persist_checkpoint
  setup_begin-Has w o h =
      either_Has gates enabled (same_state o.project.state planned) _ _
        (move-Has gates enabled w.start searching refl _ h) (done_Has gates enabled tt o h)

  analysis_round-Has :
      (w : World) (r : Round) (o : Orchestrator)
      → Has gates enabled o
      → Keeps gates (HasIt gates enabled) (analysis_round w r o)
  unfolding analysis_round save_cursor persist_checkpoint
  analysis_round-Has w r o h =
      then_Has gates enabled _ _ (phase_analyze-Has gates enabled r.now w.judge r.analysis _ h)
        (λ cont o1 h1.
          either_Has gates enabled (same_state o1.project.state paused) _ _
            (done_Has gates enabled return _ h1)
            (pause-Has
              (step_has_pause w.upper w.loop.per_iteration "evaluate_convergence" o1.approved_gates)
              _ _ (done_Has gates enabled (if cont then again else leave) o1 h1)
              (λ spec.
                either_Has gates enabled (same_state o1.project.state converged) _ _
                  (done_Has gates enabled (if cont then again else leave) o1 h1)
                  (then_Has gates enabled _ _
                    (pause_at_step-Has gates enabled w.upper r.now "per_iteration" 6
                      o1.current_iteration spec o1 h1)
                    (λ u o2 h2. done_Has gates enabled return o2 h2)))))

  work_round-Has :
      (w : World) (r : Round) (o : Orchestrator)
      → Has gates enabled o
      → Keeps gates (HasIt gates enabled) (work_round w r o)
  unfolding work_round save_cursor persist_checkpoint
  work_round-Has w r o h =
      either_Has gates enabled (same_state o.project.state searching) _ _
        (then_Has gates enabled _ _ (phase_search-Has gates enabled r.now r.search _ h)
          (λ u o1 h1. done_Has gates enabled again o1 h1))
        (either_Has gates enabled (same_state o.project.state analyzing_gaps) _ _
          (analysis_round-Has w r o h) (done_Has gates enabled leave o h))

  asked_Has :
      (stops pauses : Bool) (o : Orchestrator)
      → Has gates enabled o
      → Has gates enabled
          (let o1 = if stops then request_stop o else o in if pauses then request_pause o1 else o1)
  unfolding request_stop request_pause
  asked_Has true true o h = h
  asked_Has true false o h = h
  asked_Has false true o h = h
  asked_Has false false o h = h

  one_round-Has :
      (w : World) (r : Round) (o : Orchestrator)
      → Has gates enabled o
      → Keeps gates (HasIt gates enabled) (one_round w r o)
  unfolding one_round save_cursor persist_checkpoint
  one_round-Has w r o h =
      let o1 = if r.stop_asked then request_stop o else o in
      let o2 = if r.pause_asked then request_pause o1 else o1 in
      let h2 : Has gates enabled o2 = asked_Has r.stop_asked r.pause_asked o h in
      either_Has gates enabled o2.stop_requested _ _
        (then_Has gates enabled _ _
          (move-Has gates enabled r.now converged refl
            (record o2 { stop_reason = some StopReason.user_stopped }) h2)
          (λ u o3 h3. done_Has gates enabled leave o3 h3))
        (then_Has gates enabled _ _ (check_pause-Has gates enabled r.now o2 h2) (λ is_paused o3 h3.
          either_Has gates enabled is_paused _ _ (done_Has gates enabled return _ h3)
            (work_round-Has w r o3 h3)))

  next-Has :
      (next : Next) (o : Orchestrator) (rest : Outcome Bool)
      → Has gates enabled o
      → Keeps gates (HasIt gates enabled) rest
      → Keeps gates
          (HasIt gates enabled)
          (elim next [ again ↦ rest | leave ↦ done true o | return ↦ done false o ])
  next-Has again o rest h more = more
  next-Has leave o rest h more = done_Has gates enabled true o h
  next-Has return o rest h more = done_Has gates enabled false o h

  run_loop-Has :
      (w : World) (k : ℕ) (o : Orchestrator)
      → Has gates enabled o
      → Keeps gates (HasIt gates enabled) (run_loop w k o)
  unfolding run_loop
  run_loop-Has w zero o h =
      either_Has gates enabled (at_rest o.project.state) _ _ (done_Has gates enabled true o h)
        (done_Has gates enabled true _ h)
  run_loop-Has w (suc k) o h =
      let ih : (o1 : Orchestrator)
          → Has gates enabled o1
          → Keeps gates (HasIt gates enabled) (run_loop w k o1) =
        run_loop-Has w k in
      either_Has gates enabled (at_rest o.project.state) _ _ (done_Has gates enabled true o h) (
        then_Has gates enabled _ _ (one_round-Has w (w.round k) o h)
          (λ next o1 h1. next-Has next o1 (run_loop w k o1) h1 (ih o1 h1)))

module _ (gates : List String)
    (unapproved : any_of (str_eq (gate_value before_final_synthesis)) gates ≡ false) where
  IsBarred : Bool → Orchestrator → Type 0
  IsBarred passed o = (passed ≡ false) × Has gates true o

  last_gate-IsBarred :
      (now : Time) (o : Orchestrator)
      → Has gates true o
      → Keeps gates IsBarred (review_gate now before_final_synthesis o)
  unfolding review_gate persist_checkpoint IsBarred
  last_gate-IsBarred now o (same_gates, (on, open_ended)) =
      Keeps-choose gates IsBarred (not o.review_gates_enabled) _ _
        (λ e. let wrong : false ≡ true = rw on at e in absurd cc)
        (λ e.
          Keeps-choose gates IsBarred
            (any_of (str_eq (gate_value before_final_synthesis)) o.approved_gates) _ _
            (λ e'. let wrong : false ≡ true = rw (same_gates, unapproved) at e' in absurd cc)
            (λ e'.
              Keeps-bind gates (HasIt gates true) IsBarred _ _
                (move-Has gates true now paused refl _ (same_gates, (on, open_ended)))
                (λ u o1 h1. Keeps-done gates IsBarred false _ (refl, h1))))

  finish_run-Has :
      (w : World) (o : Orchestrator)
      → Has gates true o
      → Keeps gates (HasIt gates true) (finish_run w o)
  unfolding finish_run save_cursor persist_checkpoint IsBarred
  finish_run-Has w o h =
      either_Has gates true (same_state o.project.state converged) _ _
        (Keeps-bind gates IsBarred (HasIt gates true) _ _ (last_gate-IsBarred w.start _ h)
          (λ passed o1 h1.
            Keeps-choose gates (HasIt gates true) passed _ _
              (λ e. let wrong : true ≡ false = rw e at h1.0 in absurd cc)
              (λ e. done_Has gates true tt _ h1.1)))
        (done_Has gates true tt o h)

  limited-Has :
      (max_iterations : Option ℕ) (o : Orchestrator)
      → Has gates true o
      → Has gates true (limited max_iterations o)
  unfolding limited
  limited-Has none o h = h
  limited-Has (some n) o h = h

  run_orchestrated-Has :
      (w : World) (max_iterations : Option ℕ) (o : Orchestrator)
      → Has gates true o
      → Keeps gates (HasIt gates true) (run_orchestrated w max_iterations o)
  unfolding run_orchestrated
  run_orchestrated-Has w max_iterations o h =
      let h0 = limited-Has max_iterations o h in
      then_Has gates true _ _ (setup_clarify-Has gates true w (limited max_iterations o) h0)
        (λ on1 o1 h1.
          either_Has gates true on1 _ _
            (then_Has gates true _ _ (setup_plan-Has gates true w o1 h1) (λ on2 o2 h2.
              either_Has gates true on2 _ _
                (then_Has gates true _ _ (setup_begin-Has gates true w o2 h2) (λ u o3 h3.
                  then_Has gates true _ _ (run_loop-Has gates true w 200 o3 h3) (λ on4 o4 h4.
                    either_Has gates true on4 _ _ (finish_run-Has w o4 h4)
                      (done_Has gates true tt o4 h4))))
                (done_Has gates true tt o2 h2)))
            (done_Has gates true tt o1 h1))

-- The end of a failed run changes nothing of the gates.
fail_run-gates :
    (now : Time) (o : Orchestrator) → (fail_run now o).approved_gates ≡ o.approved_gates
unfolding fail_run persist_checkpoint move transition
fail_run-gates now o = elim (Bool-cases (same_state o.project.state failed)) [
  | inl e ↦ rw e refl
  | inr e ↦ elim (Bool-cases (can_transition o.project.state failed)) [
    | inl ok ↦ rw (e, ok) refl
    | inr refused ↦ rw (e, refused) refl
  ]
]

-- The project is not completed, or failed after an exception, and no gate has been approved.
abbrev pub IsWithheld : (gates : List String) → Outcome Unit → Type 0
IsWithheld gates (done u o) = (o.project.state ≢ completed) × (o.approved_gates ≡ gates)
IsWithheld gates (raised f o) = (o.project.state ≡ failed) × (o.approved_gates ≡ gates)

withheld :
    (gates : List String) (w : World) (m : Outcome Unit)
    → Keeps gates (HasIt gates true) m
    → IsWithheld gates (elim m [
      | done u o1 ↦ done tt (persist_checkpoint w.start o1)
      | raised f o1 ↦ raised f (fail_run w.start o1)
    ])
unfolding Keeps persist_checkpoint
withheld gates w (done u o) (same_gates, (on, open_ended)) =
    (λ e. let wrong : true ≡ false = rw e at open_ended in absurd cc, same_gates)
withheld gates w (raised f o) same_gates =
    ((fail_run-failed w.start o).0, fail_run-gates w.start o ∙ same_gates)

-- With review gates enabled and the gate BEFORE_FINAL_SYNTHESIS not approved, a run, with or without
-- a limit of iterations of its own, completes no project that was not completed before, whatever
-- its state, the workers' answers and the requests to stop or pause; and whether it returns or
-- raises, it has approved no gate.
pub run-IsWithheld :
    (w : World) (max_iterations : Option ℕ) (o : Orchestrator)
    → o.review_gates_enabled ≡ true
    → any_of (str_eq (gate_value before_final_synthesis)) o.approved_gates ≡ false
    → o.project.state ≢ completed
    → IsWithheld o.approved_gates (run w max_iterations o)
unfolding run
run-IsWithheld w max_iterations o on unapproved unfinished =
    let open_ended : same_state o.project.state completed ≡ false = ground arith in
    withheld o.approved_gates w (run_orchestrated w max_iterations o)
      (run_orchestrated-Has o.approved_gates unapproved w max_iterations o (refl, (on, open_ended)))
