-- ===== src/Orchestrator/Control.antt =====
-- `run` and `resume` of core/orchestrator.py.
use ai_researcher_agent_loca.Prelude.{
  ℕ, ◌+◌, String, Bool, false, not, ◌||◌, Option, none, some, [], ◌∷◌, ◌++◌, any_of, is_none,
  str_eq, ◌==◌, if◌then◌else◌,
}
use ai_researcher_agent_loca.Job.{Time}
use ai_researcher_agent_loca.StateMachine.{
  clarifying, planned, searching, generating_followups, converged, paused, failed, same_state,
}
use ai_researcher_agent_loca.Convergence.{StopReason}
use ai_researcher_agent_loca.Orchestrator.{
  after_problem_definition, after_initial_research_plan, after_first_research_cycle,
  before_final_synthesis, gate_value, Orchestrator, Outcome, done, raised, bind, move,
  persist_checkpoint,
}
use ai_researcher_agent_loca.Orchestrator.Phases.{call}
use ai_researcher_agent_loca.Orchestrator.Loop.{World, run_orchestrated}

-- The end of a run that raised: the project fails, by a transition or by force.
unfoldable pub fail_run : Time → Orchestrator → Orchestrator
fail_run now o =
    let ended = record o { stop_reason = some StopReason.failed } in
    persist_checkpoint now (elim (move now failed ended) [
      | done u o1 ↦ o1
      | raised f o1 ↦ record o1 { project = record o1.project { state = failed } }
    ])

unfoldable pub run : World → (max_iterations : Option ℕ) → Orchestrator → Outcome Unit
run w max_iterations o = elim (run_orchestrated w max_iterations o) [
  | done u o1 ↦ done tt (persist_checkpoint w.start o1)
  | raised f o1 ↦ raised f (fail_run w.start o1)
]

-- What `resume` finds: stored problems and plans, and whether the follow-ups can be generated.
pub record Stored : Type 0 where
  pub has_problem : Bool
  pub has_plan : Bool
  pub followed_up : Bool

unfoldable pub is_gate : Option String → String → Bool
is_gate none name = false
is_gate (some gate) name = str_eq gate name

-- A pending gate is approved; an empty name is none.
unfoldable pub approve_pending : Orchestrator → Orchestrator
approve_pending o = elim o.review_gate_pending [
  | none ↦ o
  | some gate ↦
      if str_eq gate "" || any_of (str_eq gate) o.approved_gates
      then o
      else record o { approved_gates = o.approved_gates ++ (gate ∷ []) }
]

unfoldable pub resume_cycle : Time → (followed_up : Bool) → Orchestrator → Outcome Unit
resume_cycle now followed_up o = bind (move now generating_followups o) (λ _ o1.
    bind (call followed_up o1)
      (λ _ o2. move now searching (record o2 { current_iteration = o2.current_iteration + 1 })))

unfoldable pub leave_pause : Time → Stored → (gate : Option String) → Orchestrator → Outcome Unit
leave_pause now found gate o =
    if is_gate gate (gate_value after_problem_definition) || is_gate gate "WAITING_FOR_USER"
    then move now clarifying o
    else if is_gate gate (gate_value after_initial_research_plan)
    then move now planned o
    else if is_gate gate (gate_value after_first_research_cycle)
    then resume_cycle now found.followed_up o
    else if is_gate gate (gate_value before_final_synthesis)
    then move now converged o
    else if o.current_iteration == 0
    then if not found.has_problem || not found.has_plan
      then move now clarifying o
      else move now planned o
    else if not (is_none o.stop_reason)
    then move now converged o
    else move now searching o

-- The part of `resume` before it calls `run`.
unfoldable pub reopen : Time → Stored → Orchestrator → Outcome Unit
reopen now found o =
    let ready = approve_pending (record o { pause_requested = false }) in
    let left =
      if same_state ready.project.state paused
      then leave_pause now found o.review_gate_pending ready
      else done tt ready in
    bind left (λ _ o1. done tt (record o1 { review_gate_pending = none }))

unfoldable pub resume : World → Stored → Orchestrator → Outcome Unit
resume w found o = bind (reopen w.start found o) (λ _ o1. run w none o1)
