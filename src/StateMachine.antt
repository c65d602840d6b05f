-- ===== src/StateMachine.antt =====
-- src/research_engine/core/state_machine.py, with `ProjectState` of models/enums.py. Of a project
-- its state and the time of its last change are modelled; saving it is part of the outcome.
pub mod Paths
use ai_researcher_agent_loca.Prelude.{
  ℕ, Bool, true, false, List, [], ◌∷◌, any_of, ◌==◌, if◌then◌else◌,
}
use ai_researcher_agent_loca.Job.{Time}

pub data ProjectState : Type 0 where
  created clarifying planned searching fetching extracting verifying analyzing_gaps : ProjectState
  generating_followups iterating converged synthesizing completed paused failed : ProjectState
  cancelled : ProjectState

-- The position of a state in the enumeration, to compare states.
abbrev rank : ProjectState → ℕ
rank created = 0
rank clarifying = 1
rank planned = 2
rank searching = 3
rank fetching = 4
rank extracting = 5
rank verifying = 6
rank analyzing_gaps = 7
rank generating_followups = 8
rank iterating = 9
rank converged = 10
rank synthesizing = 11
rank completed = 12
rank paused = 13
rank failed = 14
rank cancelled = 15

abbrev pub same_state : ProjectState → ProjectState → Bool
same_state a b = rank a == rank b

-- `ALLOWED`
unfoldable pub allowed : ProjectState → List ProjectState
allowed created = clarifying ∷ failed ∷ cancelled ∷ []
allowed clarifying = planned ∷ paused ∷ failed ∷ cancelled ∷ []
allowed planned = searching ∷ paused ∷ failed ∷ cancelled ∷ []
allowed searching =
    fetching ∷ analyzing_gaps ∷ generating_followups ∷ converged ∷ paused ∷ failed ∷ cancelled ∷ []
allowed fetching = extracting ∷ searching ∷ analyzing_gaps ∷ paused ∷ failed ∷ cancelled ∷ []
allowed extracting = verifying ∷ fetching ∷ paused ∷ failed ∷ cancelled ∷ []
allowed verifying = analyzing_gaps ∷ extracting ∷ paused ∷ failed ∷ cancelled ∷ []
allowed analyzing_gaps =
    generating_followups ∷ synthesizing ∷ converged ∷ paused ∷ failed ∷ cancelled ∷ []
allowed generating_followups =
    searching ∷ converged ∷ synthesizing ∷ paused ∷ failed ∷ cancelled ∷ []
allowed iterating = searching ∷ analyzing_gaps ∷ paused ∷ failed ∷ cancelled ∷ []
allowed converged = synthesizing ∷ paused ∷ failed ∷ cancelled ∷ []
allowed synthesizing = completed ∷ failed ∷ cancelled ∷ []
allowed completed = searching ∷ clarifying ∷ []
allowed paused =
    clarifying ∷ planned ∷ searching ∷ fetching ∷ extracting ∷ verifying ∷ analyzing_gaps
    ∷ generating_followups ∷ iterating ∷ converged ∷ synthesizing ∷ failed ∷ cancelled ∷ []
allowed failed = searching ∷ synthesizing ∷ []
allowed cancelled = []

pub record Project : Type 0 where
  pub state : ProjectState
  pub updated_at : Time

unfoldable pub can_transition : (current target : ProjectState) → Bool
unfolding allowed
can_transition current target = any_of (same_state target) (allowed current)

-- `transition` returns without a change, saves the changed project, or raises a ValueError.
pub data Transition : Type 0 where
  unchanged : Transition
  saved : Project → Transition
  illegal : (current target : ProjectState) → Transition

unfoldable pub transition : Time → Project → (target : ProjectState) → Transition
unfolding can_transition
transition now project target =
    if same_state project.state target
    then unchanged
    else if can_transition project.state target
    then saved (record project { state = target; updated_at = now })
    else illegal project.state target
