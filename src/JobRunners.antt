-- ===== src/JobRunners.antt =====
-- src/research_engine/platform/job_runners.py: the runner of deep research jobs over the orchestrator
-- and the events that it publishes. Loading the project, the metrics and the counts of the answer
-- are left out; `flag` is what the control function answers, if there is one.
pub mod Research
use ai_researcher_agent_loca.Prelude.{
  ℕ, String, Bool, true, false, Option, none, some, List, [], ◌∷◌, str_eq, if◌then◌else◌,
}
use ai_researcher_agent_loca.StateMachine.{ProjectState, paused, failed, same_state}
use ai_researcher_agent_loca.Convergence.{StopReason}
use ai_researcher_agent_loca.Orchestrator.{
  Orchestrator, Failure, done, raised, request_stop, request_pause,
}
use ai_researcher_agent_loca.Orchestrator.Loop.{World}
use ai_researcher_agent_loca.Orchestrator.Control.{run}

pub data ResearchEvent : Type 0 where
  research_started research_completed research_failed : ResearchEvent

-- The answer: `PAUSED`, or the final one with its stop reason, or an exception of the run.
pub data Answer : Type 0 where
  paused_at : (iteration : ℕ) → Answer
  final :
      (is_stopped : Bool) (state : ProjectState) (stop_reason : Option StopReason) (iteration : ℕ)
      → Answer
  throws : Failure → Answer

pub record Ran : Type 0 where
  pub answer : Answer
  pub events : List ResearchEvent
  pub project : Orchestrator

abbrev pub is_flag : String → Option String → Bool
is_flag name none = false
is_flag name (some flag) = str_eq flag name

-- After the loop: the final answer, and the second event.
unfoldable pub conclude_research : (is_stopped : Bool) → Orchestrator → Ran
conclude_research is_stopped o =
    let reason = if is_stopped then some StopReason.user_stopped else o.stop_reason in
    let event = if same_state o.project.state failed then research_failed else research_completed in
    record {
      answer = final is_stopped o.project.state reason o.current_iteration;
      events = research_started ∷ event ∷ [];
      project = o;
    }

unfoldable pub deep_research : World → (flag : Option String) → Orchestrator → Ran
deep_research w flag o =
    if is_flag "CANCEL" flag
    then conclude_research true (request_stop o)
    else let asked = if is_flag "PAUSE" flag then request_pause o else o in
      elim (run w none asked) [
        | raised f o1 ↦ record { answer = throws f; events = research_started ∷ []; project = o1 }
        | done u o1 ↦
            if same_state o1.project.state paused
            then record {
              answer = paused_at o1.current_iteration;
              events = research_started ∷ [];
              project = o1;
            }
            else conclude_research false o1
      ]
