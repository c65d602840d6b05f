-- ===== src/Orchestrator/Running.antt =====
-- A whole run of the orchestrator.
use ai_researcher_agent_loca.Prelude.{
  ℕ, ◌+◌, ◌<◌, Bool, true, false, Option, none, some, ◌≡◌, refl, arith, ◌⊎◌, inl, inr, any_of, List,
  [], ◌∷◌, subst, String, if◌then◌else◌, Bool-cases,
}
use ai_researcher_agent_loca.Job.{Time}
use ai_researcher_agent_loca.StateMachine.{
  ProjectState, created, clarifying, planned, searching, analyzing_gaps, converged, paused, failed,
  completed, same_state, allowed, can_transition, transition,
}
use ai_researcher_agent_loca.Convergence.{StopReason}
use ai_researcher_agent_loca.Orchestrator.{
  before_final_synthesis, Orchestrator, worker_failed, Outcome, bind, done, raised, move,
  save_cursor, persist_checkpoint, step_has_pause, pause_at_step,
}
use ai_researcher_agent_loca.Orchestrator.Loop.{
  World, setup_clarify, setup_plan, setup_begin, run_loop, finish_run, limited, run_orchestrated,
}
use ai_researcher_agent_loca.Orchestrator.Control.{fail_run, run}
use ai_researcher_agent_loca.Orchestrator.Hoare.{
  Ends, Ends-done, Ends-bind, Ends-if, Ends-weaken, Is, IsGated, IsEither, pause_at_step-Is,
  review_gate-Is,
}
use ai_researcher_agent_loca.Orchestrator.Steps.{
  phase_clarify-Is, phase_plan-Is, begin_iteration-Is, phase_synthesize-Is,
}
use ai_researcher_agent_loca.Orchestrator.Looping.{IsLooped, run_loop-Is}
use ai_researcher_agent_loca.Orchestrator.Rounds.{IsGoing, Ends-pause}

-- After a part of the setup: the run goes on in a state `t` or a later one, or the project pauses.
abbrev IsSetUp : (P : Orchestrator → Type 0) → Bool → Orchestrator → Type 0
IsSetUp P true o = P o
IsSetUp P false o = o.project.state ≡ paused

-- The states before the report from which a run goes on.
unfoldable pub is_active : ProjectState → Bool
is_active s =
    any_of (same_state s)
      (created ∷ clarifying ∷ planned ∷ searching ∷ analyzing_gaps ∷ converged ∷ [])

abbrev to_plan : List ProjectState
to_plan = clarifying ∷ planned ∷ searching ∷ analyzing_gaps ∷ converged ∷ []

abbrev to_iterate : List ProjectState
to_iterate = planned ∷ searching ∷ analyzing_gaps ∷ converged ∷ []

module _ (w : World) (limit : ℕ) where
  -- From the plan on, and from the first iteration on.
  abbrev IsFrom : (states : List ProjectState) → Orchestrator → Type 0
  IsFrom states o =
      (any_of (same_state o.project.state) states ≡ true) × (o.budget.cfg.max_iterations ≡ limit)

  setup_end :
      (P : Orchestrator → Type 0) (s : ProjectState) (it : ℕ) (name : String) (i : ℕ)
      (o : Orchestrator)
      → can_transition s paused ≡ true
      → IsEither s paused it limit o
      → (Is s it limit o → P o)
      → Ends (IsSetUp P) (
          if same_state o.project.state paused
          then done false (save_cursor w.start "setup" i 0 true o.review_gate_pending o)
          else elim (step_has_pause w.upper w.loop.setup name o.approved_gates) [
            | none ↦ done true o
            | some spec ↦
                bind (pause_at_step w.upper w.start "setup" i 0 spec o) (λ _ o2. done false o2)
          ])
  unfolding save_cursor persist_checkpoint
  setup_end P s it name i o ok (inl h) goes =
      let Q = IsSetUp P in
      Ends-if Q (same_state o.project.state paused) _ _ (λ e. Ends-done Q false _ (ground arith))
        (λ e.
          Ends-pause Q (step_has_pause w.upper w.loop.setup name o.approved_gates) _ _
            (Ends-done Q true o (goes h))
            (λ spec.
              Ends-bind (λ u. Is paused it limit) Q _ _
                (pause_at_step-Is s it limit w.start w.upper "setup" i 0 spec o ok h)
                (λ u o2 h2. let (here, rest) = h2 in Ends-done Q false o2 here)))
  setup_end P s it name i o ok (inr (here, rest)) goes =
      let Q = IsSetUp P in
      Ends-if Q (same_state o.project.state paused) _ _ (λ e. Ends-done Q false _ here)
        (λ e. let wrong : true ≡ false = rw here at e in absurd cc)

  setup_clarify-Is :
      (o : Orchestrator)
      → IsFrom (created ∷ to_plan) o
      → Ends (IsSetUp (IsFrom to_plan)) (setup_clarify w o)
  unfolding setup_clarify can_transition allowed save_cursor persist_checkpoint
  setup_clarify-Is o (from, at_limit) =
      let Q = IsSetUp (IsFrom to_plan) in
      Ends-if Q (same_state o.project.state created) _ _
        (λ e.
          Ends-bind (λ u. IsEither clarifying paused o.current_iteration limit) Q _ _
            (phase_clarify-Is o.current_iteration limit w.start w.clarify _
              (ground arith, (refl, at_limit)))
            (λ u o1 h1.
              setup_end (IsFrom to_plan) clarifying o.current_iteration "clarify" 0 o1 refl h1
                (λ h2. let (here, (at_it, at_limit')) = h2 in (rw here refl, at_limit'))))
        (λ e. Ends-done Q true o (ground arith, at_limit))

  setup_plan-Is :
      (o : Orchestrator) → IsFrom to_plan o → Ends (IsSetUp (IsFrom to_iterate)) (setup_plan w o)
  unfolding setup_plan can_transition allowed save_cursor persist_checkpoint
  setup_plan-Is o (from, at_limit) =
      let Q = IsSetUp (IsFrom to_iterate) in
      Ends-if Q (same_state o.project.state clarifying) _ _
        (λ e.
          Ends-bind (λ u. IsEither planned paused o.current_iteration limit) Q _ _
            (phase_plan-Is o.current_iteration limit w.start w.planned_all _
              (ground arith, (refl, at_limit)))
            (λ u o1 h1.
              setup_end (IsFrom to_iterate) planned o.current_iteration "plan" 2 o1 refl h1
                (λ h2. let (here, (at_it, at_limit')) = h2 in (rw here refl, at_limit'))))
        (λ e. Ends-done Q true o (ground arith, at_limit))

  setup_begin-Is :
      (o : Orchestrator)
      → limit < 100
      → IsFrom to_iterate o
      → Ends (λ u o'. IsGoing 200 limit o' ⊎ (o'.project.state ≡ converged)) (setup_begin w o)
  unfolding setup_begin can_transition allowed save_cursor persist_checkpoint
  setup_begin-Is o small (from, at_limit) =
      let Q =
        λ (u : Unit) (o' : Orchestrator). IsGoing 200 limit o' ⊎ (o'.project.state ≡ converged) in
      Ends-if Q (same_state o.project.state planned) _ _
        (λ e.
          Ends-weaken (λ u. Is searching (o.current_iteration + 1) limit) Q _
            (begin_iteration-Is o.current_iteration limit w.start _
              (ground arith, (refl, at_limit)))
            (λ u o1 h1.
              let (here, (at_it, at_limit')) = h1 in
              inl (inl ((here, (refl, at_limit')), omega arith))))
        (λ e. Ends-done Q tt o (elim (Bool-cases (same_state o.project.state searching)) [
          | inl is_searching ↦ inl (inl ((ground arith, (refl, at_limit)), omega arith))
          | inr not_searching ↦ elim (Bool-cases (same_state o.project.state analyzing_gaps)) [
            | inl is_analyzing ↦ inl (inr ((ground arith, (refl, at_limit)), omega arith))
            | inr not_analyzing ↦ inr (ground arith)
          ]
        ]))

-- The research is reported, or waits at a pause.
abbrev pub IsFinished : Orchestrator → Type 0
IsFinished o = (o.project.state ≡ completed) ⊎ (o.project.state ≡ paused)

finish_run-Is :
    (w : World) (o : Orchestrator)
    → o.project.state ≡ converged
    → Ends (λ u. IsFinished) (finish_run w o)
unfolding finish_run can_transition allowed save_cursor persist_checkpoint
finish_run-Is w o here =
    let it = o.current_iteration in
    let limit = o.budget.cfg.max_iterations in
    let Q = λ (u : Unit). IsFinished in
    Ends-if Q (same_state o.project.state converged) _ _
      (λ e.
        Ends-bind (IsGated converged it limit) Q _ _
          (review_gate-Is converged it limit w.start before_final_synthesis _ refl
            (here, (refl, refl)))
          (λ passed o1 h1.
            Ends-if Q passed _ _
              (λ e'.
                Ends-bind (λ u. Is completed it limit) Q _ _
                  (phase_synthesize-Is it limit w.start w.reported o1
                    (subst (λ b. IsGated converged it limit b o1) e' h1))
                  (λ u o2 h2. let (there, rest) = h2 in Ends-done Q tt _ (inl there)))
              (λ e'.
                let (there, rest) = subst (λ b. IsGated converged it limit b o1) e' h1 in
                Ends-done Q tt _ (inr there))))
      (λ e. let wrong : true ≡ false = rw here at e in absurd cc)

from_begin :
    (w : World) (limit : ℕ) (o : Orchestrator)
    → limit < 100
    → IsFrom w limit to_iterate o
    → Ends
        (λ u. IsFinished)
        (bind
          (setup_begin w o)
          (λ _ o3. bind (run_loop w 200 o3) (λ on o4. if on then finish_run w o4 else done tt o4)))
from_begin w limit o small h =
    let Q = λ (u : Unit). IsFinished in
    Ends-bind
      (λ (u : Unit) (o' : Orchestrator). IsGoing 200 limit o' ⊎ (o'.project.state ≡ converged)) Q _
      _ (setup_begin-Is w limit o small h)
      (λ u o3 h3. Ends-bind IsLooped Q _ _ (run_loop-Is w limit 200 o3 h3) (λ on o4 h4.
        Ends-if Q on _ _ (λ e. finish_run-Is w o4 (subst (λ b. IsLooped b o4) e h4))
          (λ e. Ends-done Q tt o4 (inr (subst (λ b. IsLooped b o4) e h4)))))

limited-state :
    (n : Option ℕ) (o : Orchestrator)
    → is_active o.project.state ≡ true
    → is_active (limited n o).project.state ≡ true
unfolding limited
limited-state none o h = h
limited-state (some n) o h = h

-- With at most 99 iterations, a run of a project that is CREATED, CLARIFYING, PLANNED, SEARCHING,
-- ANALYZING_GAPS or CONVERGED, whatever the requests to stop or pause and the answers of the
-- workers, has no transition refused: either it returns with the project completed or paused, or
-- it ends with a worker's exception.
pub run_orchestrated-finishes :
    (w : World) (max_iterations : Option ℕ) (o : Orchestrator)
    → is_active o.project.state ≡ true
    → (limited max_iterations o).budget.cfg.max_iterations < 100
    → Ends (λ u. IsFinished) (run_orchestrated w max_iterations o)
unfolding run_orchestrated is_active
run_orchestrated-finishes w max_iterations o active small =
    let Q = λ (u : Unit). IsFinished in
    let o0 = limited max_iterations o in
    let limit = o0.budget.cfg.max_iterations in
    let from : any_of (same_state o0.project.state) (created ∷ to_plan) ≡ true =
      limited-state max_iterations o active in
    Ends-bind (IsSetUp (IsFrom w limit to_plan)) Q _ _ (setup_clarify-Is w limit o0 (from, refl))
      (λ on1 o1 h1.
        Ends-if Q on1 _ _
          (λ e1.
            Ends-bind (IsSetUp (IsFrom w limit to_iterate)) Q _ _
              (setup_plan-Is w limit o1 (subst (λ b. IsSetUp (IsFrom w limit to_plan) b o1) e1 h1))
              (λ on2 o2 h2.
                Ends-if Q on2 _ _
                  (λ e2.
                    from_begin w limit o2 small
                      (subst (λ b. IsSetUp (IsFrom w limit to_iterate) b o2) e2 h2))
                  (λ e2.
                    Ends-done Q tt o2
                      (inr (subst (λ b. IsSetUp (IsFrom w limit to_iterate) b o2) e2 h2)))))
          (λ e1.
            Ends-done Q tt o1 (inr (subst (λ b. IsSetUp (IsFrom w limit to_plan) b o1) e1 h1))))

pub fail_run-failed :
    (now : Time) (o : Orchestrator)
    → ((fail_run now o).project.state ≡ failed)
      × ((fail_run now o).stop_reason ≡ some StopReason.failed)
unfolding fail_run persist_checkpoint move transition
fail_run-failed now o = elim (Bool-cases (same_state o.project.state failed)) [
  | inl e ↦ rw e (ground arith, refl)
  | inr e ↦ elim (Bool-cases (can_transition o.project.state failed)) [
    | inl ok ↦ rw (e, ok) (refl, refl)
    | inr refused ↦ rw (e, refused) (refl, refl)
  ]
]

-- What a caller of `run` sees.
abbrev pub RunEnds : Outcome Unit → Type 0
RunEnds (done u o) = IsFinished o
RunEnds (raised f o) =
    (f ≡ worker_failed) × ((o.project.state ≡ failed) × (o.stop_reason ≡ some StopReason.failed))

run_end :
    (w : World) (m : Outcome Unit)
    → Ends (λ u. IsFinished) m
    → RunEnds (elim m [
      | done u o1 ↦ done tt (persist_checkpoint w.start o1)
      | raised f o1 ↦ raised f (fail_run w.start o1)
    ])
unfolding Ends persist_checkpoint
run_end w (done u o) h = h
run_end w (raised f o) h = (h, fail_run-failed w.start o)

-- With at most 99 iterations, `run` of a project that is CREATED, CLARIFYING, PLANNED, SEARCHING,
-- ANALYZING_GAPS or CONVERGED returns with the project completed or paused, or raises the exception
-- of a worker with the project failed and its stop reason set to failed.
pub run-finishes :
    (w : World) (max_iterations : Option ℕ) (o : Orchestrator)
    → is_active o.project.state ≡ true
    → (limited max_iterations o).budget.cfg.max_iterations < 100
    → RunEnds (run w max_iterations o)
unfolding run persist_checkpoint Ends
run-finishes w max_iterations o active small =
    run_end w (run_orchestrated w max_iterations o)
      (run_orchestrated-finishes w max_iterations o active small)
