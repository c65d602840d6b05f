-- ===== src/Orchestrator.antt =====
-- src/research_engine/core/orchestrator.py and engines/runner.py: the state of a research project
-- while it runs, its review gates and pauses, and the cursor that `LoopRunner` keeps. An exception
-- ends a phase with the state as it was when it was raised, since the project is one shared object.
-- What is written to the repositories, the workspace and the event log is left out, and so are the
-- texts of the reasons.
pub mod Phases
pub mod Loop
pub mod Control
pub mod Hoare
pub mod Steps
pub mod Rounds
pub mod Looping
pub mod Running
pub mod Resuming
pub mod Interrupted
pub mod StopWhen
pub mod Runner
pub mod CursorResume
pub mod Cursors
pub mod CursorMoves
pub mod Gates
pub mod Reports
use Prim.Native.String.{◌++◌}
use ai_researcher_agent_loca.Prelude.{
  ℕ, String, Bool, true, false, not, ◌&&◌, ◌||◌, Option, none, some, List, [], ◌∷◌, any_of, str_eq,
  or_else, is_none, if◌then◌else◌,
}
use ai_researcher_agent_loca.Job.{Time}
use ai_researcher_agent_loca.Budget.{Budget}
use ai_researcher_agent_loca.StateMachine.{
  ProjectState, converged, completed, paused, failed, same_state, Project, Transition, unchanged,
  saved, illegal, transition,
}
use ai_researcher_agent_loca.Convergence.{StopReason}

pub data ReviewGate : Type 0 where
  after_problem_definition after_initial_research_plan after_first_research_cycle : ReviewGate
  before_final_synthesis : ReviewGate

unfoldable pub gate_value : ReviewGate → String
gate_value after_problem_definition = "AFTER_PROBLEM_DEFINITION"
gate_value after_initial_research_plan = "AFTER_INITIAL_RESEARCH_PLAN"
gate_value after_first_research_cycle = "AFTER_FIRST_RESEARCH_CYCLE"
gate_value before_final_synthesis = "BEFORE_FINAL_SYNTHESIS"

-- `project.loop_cursor`
pub record Cursor : Type 0 where
  pub phase : String
  pub step_index : ℕ
  pub iteration : ℕ
  pub pending_pause : Bool
  pub gate : Option String

-- A step of the loop that an engine's manifest declares.
pub record LoopStepSpec : Type 0 where
  pub step : String
  pub pause_after : Bool
  pub gate : Option String

pub record LoopSpec : Type 0 where
  pub setup : List LoopStepSpec
  pub per_iteration : List LoopStepSpec
  pub synthesis : List LoopStepSpec

-- The orchestrator with its project. The budget's usage is the project's, and the configuration's
-- `research.max_iterations` is one of the budget's limits.
pub record Orchestrator : Type 0 where
  pub project : Project
  pub current_iteration : ℕ
  pub stop_reason : Option StopReason
  pub review_gate_pending : Option String
  pub approved_gates : List String
  pub loop_cursor : Option Cursor
  pub budget : Budget
  pub review_gates_enabled : Bool
  pub stop_requested : Bool
  pub pause_requested : Bool

pub data Failure : Type 0 where
  illegal_transition worker_failed : Failure

pub data Outcome (A : Type 0) : Type 0 where
  done : A → Orchestrator → Outcome A
  raised : Failure → Orchestrator → Outcome A

-- One statement after another: an exception skips the rest.
unfoldable pub bind : {A B : Type 0} → Outcome A → (A → Orchestrator → Outcome B) → Outcome B
bind (done a o) rest = rest a o
bind (raised f o) rest = raised f o

-- `self.sm.transition`
abbrev after_transition : Orchestrator → Transition → Outcome Unit
after_transition o unchanged = done tt o
after_transition o (saved project) = done tt (record o { project = project })
after_transition o (illegal current target) = raised illegal_transition o

unfoldable pub move : Time → ProjectState → Orchestrator → Outcome Unit
move now target o = after_transition o (transition now o.project target)

unfoldable pub persist_checkpoint : Time → Orchestrator → Orchestrator
persist_checkpoint now o = record o { project = record o.project { updated_at = now } }

unfoldable pub request_stop : Orchestrator → Orchestrator
request_stop o = record o { stop_requested = true }

unfoldable pub request_pause : Orchestrator → Orchestrator
request_pause o = record o { pause_requested = true }

-- `_check_pause`
unfoldable pub check_pause : Time → Orchestrator → Outcome Bool
check_pause now o =
    if not o.pause_requested
      || any_of (same_state o.project.state) (paused ∷ converged ∷ completed ∷ failed ∷ [])
    then done false o
    else bind (move now paused o) (λ _ o'. done true (persist_checkpoint now o'))

-- `_review_gate`: whether to go on
unfoldable pub review_gate : Time → ReviewGate → Orchestrator → Outcome Bool
review_gate now gate o =
    if not o.review_gates_enabled
    then done true o
    else if any_of (str_eq (gate_value gate)) o.approved_gates
    then done true o
    else bind (move now paused (record o { review_gate_pending = some (gate_value gate) }))
        (λ _ o'. done false (persist_checkpoint now o'))

-- `_save_cursor`, with the checkpoint it calls
unfoldable pub save_cursor :
    Time
    → (phase : String) (step_index iteration : ℕ) (pending_pause : Bool) (gate : Option String)
    → Orchestrator
    → Orchestrator
save_cursor now phase step_index iteration pending_pause gate o = persist_checkpoint now (record o {
  loop_cursor = some (record {
    phase = phase;
    step_index = step_index;
    iteration = iteration;
    pending_pause = pending_pause;
    gate = gate;
  });
})

-- `step_spec.gate or f"AFTER_{…}"`, where an empty name counts as none; `upper` is Python's.
unfoldable pub gate_name : (upper : String → String) → LoopStepSpec → String
gate_name upper spec =
    let default = "AFTER_" ++ upper spec.step in
    elim spec.gate [ none ↦ default | some gate ↦ if str_eq gate "" then default else gate ]

-- `_pause_at_step`
unfoldable pub pause_at_step :
    (upper : String → String)
    → Time
    → (phase : String) (step_index iteration : ℕ) → LoopStepSpec
    → Orchestrator
    → Outcome Unit
pause_at_step upper now phase step_index iteration spec o =
    let gate = gate_name upper spec in
    bind (move now paused (record o { review_gate_pending = some gate }))
      (λ _ o'. done tt (save_cursor now phase step_index iteration true (some gate) o'))

-- `_step_has_pause`: the first step of that name with a pause whose gate is not approved yet
unfoldable pub step_has_pause :
    (upper : String → String)
    → List LoopStepSpec
    → (step_name : String) → (approved : List String) → Option LoopStepSpec
step_has_pause upper [] step_name approved = none
step_has_pause upper (s ∷ steps) step_name approved =
    let rest = step_has_pause upper steps step_name approved in
    if str_eq s.step step_name
      && (s.pause_after && not (any_of (str_eq (gate_name upper s)) approved))
    then some s
    else rest
