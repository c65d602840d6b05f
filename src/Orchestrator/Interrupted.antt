-- ===== src/Orchestrator/Interrupted.antt =====
-- What `run` and `resume` make of a project that was interrupted inside a phase.
use ai_researcher_agent_loca.Prelude.{
  ℕ, suc, ap, Bool, true, false, Option, none, some, [], ◌∷◌, ◌≡◌, refl, arith, any_of, subst, sym,
  ◌∙◌,
}
use ai_researcher_agent_loca.Job.{Time}
use ai_researcher_agent_loca.StateMachine.{
  ProjectState, clarifying, planned, searching, fetching, extracting, verifying,
  generating_followups, iterating, converged, synthesizing, paused, same_state, allowed,
  can_transition, created, analyzing_gaps,
}
use ai_researcher_agent_loca.Orchestrator.{
  after_first_research_cycle, gate_value, Orchestrator, bind, done, raised, worker_failed,
  persist_checkpoint, check_pause,
}
use ai_researcher_agent_loca.Orchestrator.Phases.{call}
use ai_researcher_agent_loca.Orchestrator.Loop.{
  Round, World, at_rest, setup_clarify, setup_plan, setup_begin, work_round, one_round, run_loop,
  finish_run, limited, run_orchestrated, leave,
}
use ai_researcher_agent_loca.Orchestrator.Control.{
  run, Stored, is_gate, approve_pending, resume_cycle, leave_pause, reopen, resume,
}
use ai_researcher_agent_loca.Orchestrator.Hoare.{move-done}
use ai_researcher_agent_loca.Orchestrator.Resuming.{approve_pending-same}

-- A state inside a phase, in which the process may end.
unfoldable pub is_interrupted : ProjectState → Bool
is_interrupted s =
    any_of (same_state s)
      (fetching ∷ extracting ∷ verifying ∷ generating_followups ∷ iterating ∷ synthesizing ∷ [])

module _ (w : World) (o : Orchestrator) where
  setup_clarify_skips : is_interrupted o.project.state ≡ true → setup_clarify w o ≡ done true o
  unfolding setup_clarify is_interrupted
  setup_clarify_skips h =
      let e : same_state o.project.state created ≡ false = ground arith in rw e refl

  setup_plan_skips : is_interrupted o.project.state ≡ true → setup_plan w o ≡ done true o
  unfolding setup_plan is_interrupted
  setup_plan_skips h =
      let e : same_state o.project.state clarifying ≡ false = ground arith in rw e refl

  setup_begin_skips : is_interrupted o.project.state ≡ true → setup_begin w o ≡ done tt o
  unfolding setup_begin is_interrupted
  setup_begin_skips h =
      let e : same_state o.project.state planned ≡ false = ground arith in rw e refl

  work_round_skips :
      (r : Round) → is_interrupted o.project.state ≡ true → work_round w r o ≡ done leave o
  unfolding work_round is_interrupted
  work_round_skips r h =
      let e : same_state o.project.state searching ≡ false = ground arith in
      let e' : same_state o.project.state analyzing_gaps ≡ false = ground arith in rw (e, e') refl

  finish_run_skips : is_interrupted o.project.state ≡ true → finish_run w o ≡ done tt o
  unfolding finish_run is_interrupted
  finish_run_skips h =
      let e : same_state o.project.state converged ≡ false = ground arith in rw e refl

  one_round_skips :
      (r : Round)
      → is_interrupted o.project.state ≡ true
      → o.stop_requested ≡ false
      → o.pause_requested ≡ false
      → r.stop_asked ≡ false
      → r.pause_asked ≡ false
      → one_round w r o ≡ done leave o
  unfolding one_round check_pause bind
  one_round_skips r h no_stop no_pause no_stop' no_pause' =
      simp (no_stop', no_pause', no_stop, no_pause, work_round_skips r h)

  run_loop_skips :
      (k : ℕ)
      → is_interrupted o.project.state ≡ true
      → one_round w (w.round k) o ≡ done leave o
      → run_loop w (suc k) o ≡ done true o
  unfolding run_loop at_rest is_interrupted bind
  run_loop_skips k h round =
      let e : at_rest o.project.state ≡ false = ground arith in rw (e, round) refl

limited-same :
    (n : Option ℕ) (o : Orchestrator)
    → is_interrupted o.project.state ≡ true
    → o.stop_requested ≡ false
    → o.pause_requested ≡ false
    → (is_interrupted (limited n o).project.state ≡ true)
      × (((limited n o).stop_requested ≡ false) × ((limited n o).pause_requested ≡ false))
unfolding limited
limited-same none o h no_stop no_pause = (h, (no_stop, no_pause))
limited-same (some n) o h no_stop no_pause = (h, (no_stop, no_pause))

-- A project that stands in a state inside a phase stays in it: without a request to stop or pause,
-- `run` returns without an error and has changed nothing but the time of the last change and, if
-- one is given, the limit of iterations.
pub run-interrupted :
    (w : World) (n : Option ℕ) (o : Orchestrator)
    → is_interrupted o.project.state ≡ true
    → o.stop_requested ≡ false
    → o.pause_requested ≡ false
    → (w.round 199).stop_asked ≡ false
    → (w.round 199).pause_asked ≡ false
    → run w n o ≡ done tt (persist_checkpoint w.start (limited n o))
unfolding run run_orchestrated bind
run-interrupted w n o h no_stop no_pause no_stop' no_pause' =
    let o0 = limited n o in
    let (h0, (stop0, pause0)) = limited-same n o h no_stop no_pause in
    let round = one_round_skips w o0 (w.round 199) h0 stop0 pause0 no_stop' no_pause' in
    let looped : run_loop w 200 o0 ≡ done true o0 = run_loop_skips w o0 199 h0 round in
    let ran : run_orchestrated w n o ≡ done tt o0 =
      rw
        (
          run_orchestrated,
          setup_clarify_skips w o0 h0,
          setup_plan_skips w o0 h0,
          setup_begin_skips w o0 h0,
          looped,
          finish_run_skips w o0 h0,
        )
        refl in
    rw (run, ran) refl

resume_cycle-broken :
    (now : Time) (o : Orchestrator)
    → o.project.state ≡ paused
    → (o' : Orchestrator) × ((resume_cycle now false o ≡ raised worker_failed o')
        × (o'.project.state ≡ generating_followups))
unfolding resume_cycle call bind can_transition allowed
resume_cycle-broken now o here =
    let (o', (e, (there, rest))) =
      move-done paused o.current_iteration o.budget.cfg.max_iterations now generating_followups o
        refl (here, (refl, refl)) in
    (o', (rw e refl, there))

-- If the follow-up queries cannot be generated when a project paused after its first research
-- cycle is resumed, `resume` raises with the project in a state inside a phase.
pub resume-followups :
    (w : World) (found : Stored) (o : Orchestrator)
    → o.project.state ≡ paused
    → o.review_gate_pending ≡ some (gate_value after_first_research_cycle)
    → found.followed_up ≡ false
    → (o' : Orchestrator) × ((resume w found o ≡ raised worker_failed o')
        × (o'.project.state ≡ generating_followups))
unfolding resume reopen leave_pause bind is_gate gate_value
resume-followups w found o here pending broken =
    let ready = approve_pending (record o { pause_requested = false }) in
    let (same_project, same_budget) = approve_pending-same (record o { pause_requested = false }) in
    let at_state : ready.project.state ≡ paused = ap (λ p. p.state) same_project ∙ here in
    let (o', (e, there)) = resume_cycle-broken w.start ready at_state in
    let cycle : resume_cycle w.start found.followed_up ready ≡ raised worker_failed o' =
      subst (λ b. resume_cycle w.start b ready ≡ raised worker_failed o') (sym broken) e in
    let left : leave_pause w.start found o.review_gate_pending ready ≡ raised worker_failed o' =
      subst (λ g. leave_pause w.start found g ready ≡ raised worker_failed o') (sym pending)
        cycle in
    let e1 : same_state ready.project.state paused ≡ true = ground arith in
    let opened : reopen w.start found o ≡ raised worker_failed o' = simp (e1, left) in
    (o', (rw (resume, opened) refl, there))
