-- ===== src/Orchestrator/Resuming.antt =====
-- What `resume` makes of a paused project.
use ai_researcher_agent_loca.Prelude.{
  ℕ, ◌+◌, ◌<◌, ap, String, Option-cases, Bool, true, false, not, ◌||◌, Option, none, ◌≡◌, refl,
  arith, ◌⊎◌, inl, inr, any_of, str_eq, is_none, Bool-cases, ◌==◌,
}
use ai_researcher_agent_loca.Job.{Time}
use ai_researcher_agent_loca.StateMachine.{
  ProjectState, clarifying, planned, searching, generating_followups, converged, paused, same_state,
  allowed, can_transition,
}
use ai_researcher_agent_loca.Orchestrator.{
  after_problem_definition, after_initial_research_plan, after_first_research_cycle,
  before_final_synthesis, gate_value, Orchestrator, Outcome, done, raised, move,
}
use ai_researcher_agent_loca.Orchestrator.Loop.{World, limited}
use ai_researcher_agent_loca.Orchestrator.Control.{
  Stored, is_gate, approve_pending, resume_cycle, leave_pause, reopen, resume,
}
use ai_researcher_agent_loca.Orchestrator.Hoare.{
  Ends, Ends-done, Ends-bind, Ends-if, Ends-weaken, Is, move-Is, call-Is,
}
use ai_researcher_agent_loca.Orchestrator.Running.{is_active, IsFinished, RunEnds, run-finishes}

abbrev IsReady : (limit : ℕ) → Orchestrator → Type 0
IsReady limit o = (is_active o.project.state ≡ true) × (o.budget.cfg.max_iterations ≡ limit)

module _ (it limit : ℕ) (now : Time) where
  leave_to :
      (target : ProjectState) (o : Orchestrator)
      → can_transition paused target ≡ true
      → is_active target ≡ true
      → Is paused it limit o
      → Ends (λ u. IsReady limit) (move now target o)
  leave_to target o ok active h =
      Ends-weaken (λ u. Is target it limit) (λ u. IsReady limit) _
        (move-Is paused it limit now target o ok h)
        (λ u o' h'. let (here, (at_it, at_limit)) = h' in (rw here active, at_limit))

  resume_cycle-Ends :
      (followed_up : Bool) (o : Orchestrator)
      → Is paused it limit o
      → Ends (λ u. IsReady limit) (resume_cycle now followed_up o)
  unfolding resume_cycle can_transition allowed is_active
  resume_cycle-Ends followed_up o h =
      let Q = λ (u : Unit). IsReady limit in
      Ends-bind (λ u. Is generating_followups it limit) Q _ _
        (move-Is paused it limit now generating_followups o refl h)
        (λ u o1 h1.
          Ends-bind (λ u. Is generating_followups it limit) Q _ _
            (call-Is generating_followups it limit now followed_up o1 h1)
            (λ u o2 h2.
              let (here, (at_it, at_limit)) = h2 in
              Ends-weaken (λ u. Is searching (it + 1) limit) Q _
                (move-Is generating_followups (it + 1) limit now searching
                  (record o2 { current_iteration = o2.current_iteration + 1 }) refl
                  (here, (ground arith, at_limit)))
                (λ u o3 h3. let (there, (at_it', at_limit')) = h3 in (rw there refl, at_limit'))))

  leave_pause-Ends :
      (found : Stored) (gate : Option String) (o : Orchestrator)
      → Is paused it limit o
      → Ends (λ u. IsReady limit) (leave_pause now found gate o)
  unfolding leave_pause can_transition allowed is_active
  leave_pause-Ends found gate o h =
      let Q = λ (u : Unit). IsReady limit in
      Ends-if Q
        (is_gate gate (gate_value after_problem_definition) || is_gate gate "WAITING_FOR_USER") _ _
        (λ e. leave_to clarifying o refl refl h)
        (λ e.
          Ends-if Q (is_gate gate (gate_value after_initial_research_plan)) _ _
            (λ e. leave_to planned o refl refl h)
            (λ e.
              Ends-if Q (is_gate gate (gate_value after_first_research_cycle)) _ _
                (λ e. resume_cycle-Ends found.followed_up o h)
                (λ e.
                  Ends-if Q (is_gate gate (gate_value before_final_synthesis)) _ _
                    (λ e. leave_to converged o refl refl h)
                    (λ e.
                      Ends-if Q (o.current_iteration == 0) _ _
                        (λ e.
                          Ends-if Q (not found.has_problem || not found.has_plan) _ _
                            (λ e'. leave_to clarifying o refl refl h)
                            (λ e'. leave_to planned o refl refl h))
                        (λ e.
                          Ends-if Q (not (is_none o.stop_reason)) _ _
                            (λ e'. leave_to converged o refl refl h)
                            (λ e'. leave_to searching o refl refl h))))))

pub approve_pending-same :
    (o : Orchestrator)
    → ((approve_pending o).project ≡ o.project) × ((approve_pending o).budget ≡ o.budget)
unfolding approve_pending
approve_pending-same o = elim (Option-cases o.review_gate_pending) [
  | inl e ↦ rw e (refl, refl)
  | inr (gate, e) ↦ elim (Bool-cases (str_eq gate "" || any_of (str_eq gate) o.approved_gates)) [
    | inl old ↦ rw (e, old) (refl, refl)
    | inr new ↦ rw (e, new) (refl, refl)
  ]
]

still_active :
    (o ready : Orchestrator)
    → ready.project.state ≡ o.project.state
    → same_state ready.project.state paused ≡ false
    → (o.project.state ≡ paused) ⊎ (is_active o.project.state ≡ true)
    → is_active ready.project.state ≡ true
still_active o ready same e (inl here) =
    let wrong : true ≡ false = rw (same, here) at e in absurd cc
still_active o ready same e (inr active) = rw same active

reopen-Ends :
    (now : Time) (found : Stored) (o : Orchestrator)
    → (o.project.state ≡ paused) ⊎ (is_active o.project.state ≡ true)
    → Ends (λ u. IsReady o.budget.cfg.max_iterations) (reopen now found o)
unfolding reopen
reopen-Ends now found o h =
    let limit = o.budget.cfg.max_iterations in
    let Q = λ (u : Unit). IsReady limit in
    let ready = approve_pending (record o { pause_requested = false }) in
    let (same_project, same_budget) = approve_pending-same (record o { pause_requested = false }) in
    let at_limit : ready.budget.cfg.max_iterations ≡ limit =
      ap (λ b. b.cfg.max_iterations) same_budget in
    let at_state : ready.project.state ≡ o.project.state = ap (λ p. p.state) same_project in
    Ends-bind Q Q _ _
      (Ends-if Q (same_state ready.project.state paused) _ _
        (λ e.
          leave_pause-Ends ready.current_iteration limit now found o.review_gate_pending ready
            (ground arith, (refl, at_limit)))
        (λ e. Ends-done Q tt ready (still_active o ready at_state e h, at_limit)))
      (λ u o1 h1. Ends-done Q tt _ h1)

run_Ends : (m : Outcome Unit) → RunEnds m → Ends (λ u. IsFinished) m
unfolding Ends
run_Ends (done u o) h = h
run_Ends (raised f o) (h, rest) = h

-- Resuming a project that is PAUSED, at whatever gate, or that is CREATED, CLARIFYING, PLANNED,
-- SEARCHING, ANALYZING_GAPS or CONVERGED, with at most 99 iterations configured: no transition is
-- refused, and unless a worker raises, the project ends completed or paused again.
pub resume-finishes :
    (w : World) (found : Stored) (o : Orchestrator)
    → (o.project.state ≡ paused) ⊎ (is_active o.project.state ≡ true)
    → o.budget.cfg.max_iterations < 100
    → Ends (λ u. IsFinished) (resume w found o)
unfolding resume limited
resume-finishes w found o h small =
    let Q = λ (u : Unit). IsFinished in
    Ends-bind (λ u. IsReady o.budget.cfg.max_iterations) Q _ _ (reopen-Ends w.start found o h)
      (λ u o1 h1.
        let (active, at_limit) = h1 in
        run_Ends _ (run-finishes w none o1 active (rw at_limit small)))
