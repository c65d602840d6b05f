-- ===== src/Orchestrator/Gates.antt =====
-- The review gates over the phases: none approves a gate, and only the last one completes a project.
use ai_researcher_agent_loca.Prelude.{
  ℕ, String, Bool, true, false, not, ◌||◌, Option, none, some, List, [], ◌∷◌, ◌≡◌, refl, inl, inr,
  any_of, str_eq, leb, ◌==◌, if◌then◌else◌, Bool-cases,
}
use ai_researcher_agent_loca.Job.{Time}
use ai_researcher_agent_loca.StateMachine.{
  ProjectState, searching, fetching, extracting, verifying, analyzing_gaps, generating_followups,
  converged, completed, paused, failed, same_state, can_transition, transition,
}
use ai_researcher_agent_loca.Convergence.{StopReason, evaluate}
use ai_researcher_agent_loca.Orchestrator.{
  ReviewGate, after_first_research_cycle, gate_value, LoopStepSpec, Orchestrator, Outcome, bind,
  done, raised, move, persist_checkpoint, check_pause, review_gate, save_cursor, pause_at_step,
}
use ai_researcher_agent_loca.Orchestrator.Phases.{
  call, call_for, SearchWork, run_queries, phase_search_fetch_extract, AnalysisWork, Judge,
  is_satisfied, go_on_iterating, stop_iterating, phase_analyze,
}

-- The predicate at the return of a call; an exception leaves the approved gates as they were.
unfoldable pub Keeps :
    (gates : List String) {A : Type 0} → (Q : A → Orchestrator → Type 0) → Outcome A → Type 0
Keeps gates Q (done a o) = Q a o
Keeps gates Q (raised f o) = o.approved_gates ≡ gates

module _ (gates : List String) where
  pub Keeps-bind :
      {A B : Type 0} (P : A → Orchestrator → Type 0) (Q : B → Orchestrator → Type 0) (m : Outcome A)
      (rest : A → Orchestrator → Outcome B)
      → Keeps gates P m
      → ((a : A) (o : Orchestrator) → P a o → Keeps gates Q (rest a o))
      → Keeps gates Q (bind m rest)
  unfolding Keeps bind
  Keeps-bind P Q (done a o) rest h next = next a o h
  Keeps-bind P Q (raised f o) rest h next = h

  pub Keeps-done :
      {A : Type 0} (Q : A → Orchestrator → Type 0) (a : A) (o : Orchestrator)
      → Q a o
      → Keeps gates Q (done a o)
  unfolding Keeps
  Keeps-done Q a o h = h

  pub Keeps-choose :
      {A : Type 0} (Q : A → Orchestrator → Type 0) (b : Bool) (x y : Outcome A)
      → (b ≡ true → Keeps gates Q x)
      → (b ≡ false → Keeps gates Q y)
      → Keeps gates Q (if b then x else y)
  Keeps-choose Q true x y then_x else_y = then_x refl
  Keeps-choose Q false x y then_x else_y = else_y refl

module _ (gates : List String) (enabled : Bool) where
  -- The approved gates, whether gates are enabled, and a project that is not completed.
  abbrev pub Has : Orchestrator → Type 0
  Has o =
      (o.approved_gates ≡ gates)
      × ((o.review_gates_enabled ≡ enabled) × (same_state o.project.state completed ≡ false))

  abbrev pub HasIt : {A : Type 0} → A → Orchestrator → Type 0
  HasIt a o = Has o

  pub then_Has :
      {A B : Type 0} (m : Outcome A) (rest : A → Orchestrator → Outcome B)
      → Keeps gates HasIt m
      → ((a : A) (o : Orchestrator) → Has o → Keeps gates HasIt (rest a o))
      → Keeps gates HasIt (bind m rest)
  then_Has m rest h next = Keeps-bind gates HasIt HasIt m rest h next

  pub done_Has : {A : Type 0} (a : A) (o : Orchestrator) → Has o → Keeps gates HasIt (done a o)
  done_Has a o h = Keeps-done gates HasIt a o h

  pub either_Has :
      {A : Type 0} (b : Bool) (x y : Outcome A)
      → Keeps gates HasIt x
      → Keeps gates HasIt y
      → Keeps gates HasIt (if b then x else y)
  either_Has b x y hx hy = Keeps-choose gates HasIt b x y (λ e. hx) (λ e. hy)

  pub move-Has :
      (now : Time) (t : ProjectState) (open_ended : same_state t completed ≡ false)
      (o : Orchestrator)
      → Has o
      → Keeps gates HasIt (move now t o)
  unfolding move transition Keeps
  move-Has now t open_ended o h = elim (Bool-cases (same_state o.project.state t)) [
    | inl e ↦ rw e h
    | inr e ↦ elim (Bool-cases (can_transition o.project.state t)) [
      | inl ok ↦ rw (e, ok) (h.0, (h.1.0, open_ended))
      | inr refused ↦ rw (e, refused) h.0
    ]
  ]

  pub call-Has : (works : Bool) (o : Orchestrator) → Has o → Keeps gates HasIt (call works o)
  unfolding call Keeps
  call-Has true o h = h
  call-Has false o h = h.0

  call_for-Has :
      {A : Type 0} (answer : Option A) (o : Orchestrator)
      → Has o
      → Keeps gates HasIt (call_for answer o)
  unfolding call_for Keeps
  call_for-Has none o h = h.0
  call_for-Has (some a) o h = h

  pub review_gate-Has :
      (now : Time) (gate : ReviewGate) (o : Orchestrator)
      → Has o
      → Keeps gates HasIt (review_gate now gate o)
  unfolding review_gate persist_checkpoint
  review_gate-Has now gate o h = either_Has (not o.review_gates_enabled) _ _ (done_Has true o h) (
      either_Has (any_of (str_eq (gate_value gate)) o.approved_gates) _ _ (done_Has true o h)
        (then_Has _ _ (move-Has now paused refl _ h) (λ u o1 h1. done_Has false _ h1)))

  pub pause_at_step-Has :
      (upper : String → String) (now : Time) (phase : String) (i k : ℕ) (spec : LoopStepSpec)
      (o : Orchestrator)
      → Has o
      → Keeps gates HasIt (pause_at_step upper now phase i k spec o)
  unfolding pause_at_step save_cursor persist_checkpoint
  pause_at_step-Has upper now phase i k spec o h =
      then_Has _ _ (move-Has now paused refl _ h) (λ u o1 h1. done_Has tt _ h1)

  pub check_pause-Has :
      (now : Time) (o : Orchestrator) → Has o → Keeps gates HasIt (check_pause now o)
  unfolding check_pause persist_checkpoint
  check_pause-Has now o h =
      either_Has
        (not o.pause_requested
          || any_of (same_state o.project.state) (paused ∷ converged ∷ completed ∷ failed ∷ []))
        _ _ (done_Has false o h)
        (then_Has _ _ (move-Has now paused refl o h) (λ u o1 h1. done_Has true _ h1))

  go_on_iterating-Has :
      (now : Time) (work : AnalysisWork) (o : Orchestrator)
      → Has o
      → Keeps gates HasIt (go_on_iterating now work o)
  unfolding go_on_iterating
  go_on_iterating-Has now work o h =
      then_Has _ _ (move-Has now generating_followups refl o h) (λ u o1 h1.
        then_Has _ _ (call-Has work.followed_up o1 h1) (λ u o2 h2.
          then_Has _ _ (move-Has now searching refl _ h2) (λ u o3 h3. done_Has true o3 h3)))

  stop_iterating-Has :
      (now : Time) (reason : Option StopReason) (o : Orchestrator)
      → Has o
      → Keeps gates HasIt (stop_iterating now reason o)
  unfolding stop_iterating persist_checkpoint
  stop_iterating-Has now reason o h =
      either_Has (is_satisfied reason) _ _
        (then_Has _ _ (move-Has now converged refl _ h) (λ u o1 h1. done_Has false o1 h1))
        (then_Has _ _ (move-Has now generating_followups refl _ h) (λ u o1 h1.
          then_Has _ _ (move-Has now converged refl o1 h1) (λ u o2 h2. done_Has false o2 h2)))

  pub phase_analyze-Has :
      (now : Time) (judge : Judge) (work : AnalysisWork) (o : Orchestrator)
      → Has o
      → Keeps gates HasIt (phase_analyze now judge work o)
  unfolding phase_analyze
  phase_analyze-Has now judge work o h = then_Has _ _ (call-Has work.analysed o h) (λ u o1 h1.
      let decision =
        evaluate judge.thresholds judge.has_provider work.answer now o1.budget work.stats in
      either_Has decision.should_stop _ _ (stop_iterating-Has now decision.stop_reason _ h1) (
        either_Has (leb o1.budget.cfg.max_iterations o1.current_iteration) _ _
          (then_Has _ _ (move-Has now converged refl _ h1) (λ u o2 h2. done_Has false o2 h2))
          (either_Has (o1.current_iteration == 1) _ _
            (then_Has _ _ (review_gate-Has now after_first_research_cycle _ h1) (λ passed o2 h2.
              either_Has passed _ _ (go_on_iterating-Has now work o2 h2) (done_Has false o2 h2)))
            (go_on_iterating-Has now work _ h1))))

  run_queries-Has :
      (now : Time) (work : SearchWork) (o : Orchestrator)
      → Has o
      → Keeps gates HasIt (run_queries now work o)
  unfolding run_queries
  run_queries-Has now work o h = then_Has _ _ (call_for-Has work.retrieved o h) (λ found o0 h0.
      then_Has _ _ (move-Has now fetching refl _ h0) (λ u o1 h1.
        then_Has _ _ (call_for-Has work.fetched o1 h1) (λ documents o2 h2.
          then_Has _ _ (move-Has now extracting refl _ h2) (λ u o3 h3.
            then_Has _ _ (call-Has work.extracted o3 h3) (λ u o4 h4.
              then_Has _ _ (move-Has now verifying refl o4 h4) (λ u o5 h5.
                then_Has _ _ (call-Has work.consolidated o5 h5)
                  (λ u o6 h6. move-Has now analyzing_gaps refl o6 h6)))))))

  pub phase_search-Has :
      (now : Time) (work : SearchWork) (o : Orchestrator)
      → Has o
      → Keeps gates HasIt (phase_search_fetch_extract now work o)
  unfolding phase_search_fetch_extract
  phase_search-Has now work o h =
      either_Has (work.queued == 0) _ _
        (then_Has _ _ (call_for-Has work.followups o h) (λ n o1 h1.
          either_Has (n == 0) _ _ (move-Has now converged refl _ h1)
            (run_queries-Has now work o1 h1)))
        (run_queries-Has now work o h)
