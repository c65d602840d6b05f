-- ===== src/Orchestrator/Loop.antt =====
-- `LoopRunner.run_orchestrated` of engines/runner.py. The guard of 200 rounds is the fuel of the loop.
use ai_researcher_agent_loca.Prelude.{
  ℕ, zero, suc, ◌+◌, max, String, Bool, true, false, Option, none, some, [], ◌∷◌, any_of,
  if◌then◌else◌,
}
use ai_researcher_agent_loca.Job.{Time}
use ai_researcher_agent_loca.StateMachine.{
  ProjectState, created, clarifying, planned, searching, analyzing_gaps, converged, completed,
  paused, failed, cancelled, same_state,
}
use ai_researcher_agent_loca.Convergence.{StopReason}
use ai_researcher_agent_loca.Orchestrator.{
  before_final_synthesis, LoopSpec, Orchestrator, Outcome, done, bind, move, request_stop,
  request_pause, check_pause, review_gate, save_cursor, pause_at_step, step_has_pause,
}
use ai_researcher_agent_loca.Orchestrator.Phases.{
  ClarifyWork, SearchWork, AnalysisWork, Judge, phase_clarify, phase_plan, begin_iteration,
  phase_search_fetch_extract, phase_analyze, phase_synthesize,
}

-- What a round of the loop meets: the requests that came in before it, and the workers' answers.
pub record Round : Type 0 where
  pub now : Time
  pub stop_asked : Bool
  pub pause_asked : Bool
  pub search : SearchWork
  pub analysis : AnalysisWork

-- The engine's loop, `str.upper`, and everything that the run meets. Rounds are counted down.
pub record World : Type 0 where
  pub loop : LoopSpec
  pub upper : String → String
  pub judge : Judge
  pub start : Time
  pub clarify : ClarifyWork
  pub planned_all : Bool
  pub round : ℕ → Round
  pub reported : Bool

-- The states in which the loop has nothing left to do.
unfoldable pub at_rest : ProjectState → Bool
at_rest s = any_of (same_state s) (converged ∷ paused ∷ failed ∷ cancelled ∷ completed ∷ [])

unfoldable pub setup_clarify : World → Orchestrator → Outcome Bool
setup_clarify w o =
    if same_state o.project.state created
    then bind (phase_clarify w.start w.clarify (save_cursor w.start "setup" 0 0 false none o))
        (λ _ o1.
          if same_state o1.project.state paused
          then done false (save_cursor w.start "setup" 0 0 true o1.review_gate_pending o1)
          else elim (step_has_pause w.upper w.loop.setup "clarify" o1.approved_gates) [
            | none ↦ done true o1
            | some spec ↦
                bind (pause_at_step w.upper w.start "setup" 0 0 spec o1) (λ _ o2. done false o2)
          ])
    else done true o

unfoldable pub setup_plan : World → Orchestrator → Outcome Bool
setup_plan w o =
    if same_state o.project.state clarifying
    then bind (phase_plan w.start w.planned_all (save_cursor w.start "setup" 2 0 false none o))
        (λ _ o1.
          if same_state o1.project.state paused
          then done false (save_cursor w.start "setup" 2 0 true o1.review_gate_pending o1)
          else elim (step_has_pause w.upper w.loop.setup "plan" o1.approved_gates) [
            | none ↦ done true o1
            | some spec ↦
                bind (pause_at_step w.upper w.start "setup" 2 0 spec o1) (λ _ o2. done false o2)
          ])
    else done true o

unfoldable pub setup_begin : World → Orchestrator → Outcome Unit
setup_begin w o =
    if same_state o.project.state planned
    then begin_iteration w.start
        (save_cursor w.start "per_iteration" 0 (max 1 (o.current_iteration + 1)) false none o)
    else done tt o

-- How a round goes on: another one, out of the loop, or out of the run.
pub data Next : Type 0 where
  again leave return : Next

unfoldable pub analysis_round : World → Round → Orchestrator → Outcome Next
analysis_round w r o =
    let cursor = save_cursor r.now "per_iteration" in
    bind (phase_analyze r.now w.judge r.analysis (cursor 5 o.current_iteration false none o))
      (λ cont o1.
        if same_state o1.project.state paused
        then done return (cursor 6 o1.current_iteration true o1.review_gate_pending o1)
        else let onward = if cont then again else leave in
          elim (step_has_pause w.upper w.loop.per_iteration "evaluate_convergence"
            o1.approved_gates) [
              | none ↦ done onward o1
              | some spec ↦
                  if same_state o1.project.state converged
                  then done onward o1
                  else bind
                      (pause_at_step w.upper r.now "per_iteration" 6 o1.current_iteration spec o1)
                      (λ _ o2. done return o2)
            ])

-- The work of a round, by the state of the project.
unfoldable pub work_round : World → Round → Orchestrator → Outcome Next
work_round w r o =
    if same_state o.project.state searching
    then bind
        (phase_search_fetch_extract r.now r.search
          (save_cursor r.now "per_iteration" 0 o.current_iteration false none o))
        (λ _ o1. done again o1)
    else if same_state o.project.state analyzing_gaps
    then analysis_round w r o
    else done leave o

-- The requests that came in are set first.
unfoldable pub one_round : World → Round → Orchestrator → Outcome Next
one_round w r o =
    let o1 = if r.stop_asked then request_stop o else o in
    let o2 = if r.pause_asked then request_pause o1 else o1 in
    if o2.stop_requested
    then bind (move r.now converged (record o2 { stop_reason = some StopReason.user_stopped }))
        (λ _ o3. done leave o3)
    else bind (check_pause r.now o2) (λ is_paused o3.
      if is_paused
      then done return
          (save_cursor r.now "per_iteration" 0 o3.current_iteration true o3.review_gate_pending o3)
      else work_round w r o3)

-- The loop: whether the run goes on after it.
unfoldable pub run_loop : World → (guard : ℕ) → Orchestrator → Outcome Bool
run_loop w zero o =
    if at_rest o.project.state
    then done true o
    else done true (record o { stop_reason = some StopReason.failed })
run_loop w (suc guard) o =
    if at_rest o.project.state
    then done true o
    else bind (one_round w (w.round guard) o) (λ next o1.
      let rest = run_loop w guard o1 in
      elim next [ again ↦ rest | leave ↦ done true o1 | return ↦ done false o1 ])

unfoldable pub finish_run : World → Orchestrator → Outcome Unit
finish_run w o =
    let cursor = save_cursor w.start in
    if same_state o.project.state converged
    then bind
        (review_gate w.start before_final_synthesis
          (cursor "synthesis" 0 o.current_iteration false none o))
        (λ passed o1.
          if passed
          then bind (phase_synthesize w.start w.reported o1)
              (λ _ o2. done tt (cursor "completed" 0 o2.current_iteration false none o2))
          else done tt (cursor "synthesis" 0 o1.current_iteration true o1.review_gate_pending o1))
    else done tt o

-- The iteration limit that a run can be given replaces the configured one.
unfoldable pub limited : Option ℕ → Orchestrator → Orchestrator
limited none o = o
limited (some n) o =
    let limits = o.budget.cfg in
    record o { budget = record o.budget { cfg = record limits { max_iterations = n } } }

unfoldable pub run_orchestrated : World → (max_iterations : Option ℕ) → Orchestrator → Outcome Unit
run_orchestrated w max_iterations o = bind (setup_clarify w (limited max_iterations o)) (λ on1 o1.
    if on1
    then bind (setup_plan w o1) (λ on2 o2.
      if on2
      then bind (setup_begin w o2)
          (λ _ o3. bind (run_loop w 200 o3) (λ on4 o4. if on4 then finish_run w o4 else done tt o4))
      else done tt o2)
    else done tt o1)
