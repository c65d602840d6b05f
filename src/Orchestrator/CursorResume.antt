-- ===== src/Orchestrator/CursorResume.antt =====
-- `resume_cursor` of engines/runner.py, and the table STEP_TARGET_STATE of engines/registry.py.
use ai_researcher_agent_loca.Prelude.{
  ◌+◌, String, false, not, ◌||◌, Option, none, some, List, [], ◌∷◌, ◌++◌, any_of, or_else, str_eq,
  if◌then◌else◌,
}
use ai_researcher_agent_loca.Prelude.Assoc.{get_entry}
use ai_researcher_agent_loca.StateMachine.{
  ProjectState, clarifying, planned, searching, fetching, extracting, verifying, analyzing_gaps,
  generating_followups, converged, synthesizing, paused, same_state,
}
use ai_researcher_agent_loca.Orchestrator.{
  Cursor, LoopStepSpec, LoopSpec, Orchestrator, Outcome, done, bind, move, save_cursor,
}
use ai_researcher_agent_loca.Orchestrator.Runner.{LoopRunner, from_index}

-- `STEP_TARGET_STATE.get(step, SEARCHING)`
unfoldable pub step_target_state : (step : String) → ProjectState
step_target_state step =
    or_else
      (get_entry step (
        ("clarify", clarifying)
        ∷ ("ask_user", clarifying)
        ∷ ("plan", clarifying)
        ∷ ("generate_queries", planned)
        ∷ ("search", searching)
        ∷ ("fetch_and_parse", fetching)
        ∷ ("extract_evidence", extracting)
        ∷ ("verify_and_dedup", verifying)
        ∷ ("detect_contradictions", analyzing_gaps)
        ∷ ("detect_gaps", analyzing_gaps)
        ∷ ("specialist_pipeline", analyzing_gaps)
        ∷ ("evaluate_convergence", analyzing_gaps)
        ∷ ("generate_followups", generating_followups)
        ∷ ("write_reports", synthesizing)
        ∷ []))
      searching

-- `getattr(self.manifest.loop, phase, [])`
unfoldable pub steps_of : LoopSpec → (phase : String) → List LoopStepSpec
steps_of loop phase =
    if str_eq phase "setup"
    then loop.setup
    else if str_eq phase "per_iteration"
    then loop.per_iteration
    else if str_eq phase "synthesis"
    then loop.synthesis
    else []

unfoldable pub resume_target : LoopRunner → Cursor → ProjectState
resume_target r cur = elim (from_index cur.step_index (steps_of r.loop cur.phase)) [
  | [] ↦ if str_eq cur.phase "synthesis" then converged else searching
  | spec ∷ steps ↦ step_target_state spec.step
]

-- `cur.get("gate") or self.project.review_gate_pending`, an empty name being none
unfoldable pub cursor_gate : Cursor → Orchestrator → Option String
cursor_gate cur o = elim cur.gate [
  | none ↦ o.review_gate_pending
  | some gate ↦ if str_eq gate "" then o.review_gate_pending else some gate
]

unfoldable pub approve_gate : Option String → Orchestrator → Orchestrator
approve_gate none o = o
approve_gate (some gate) o =
    if str_eq gate "" || any_of (str_eq gate) o.approved_gates
    then o
    else record o { approved_gates = o.approved_gates ++ (gate ∷ []) }

-- A cursor without a pause pending is left as it is.
unfoldable pub resume_at : LoopRunner → Cursor → Orchestrator → Outcome Unit
resume_at r cur o =
    let approved = record (approve_gate (cursor_gate cur o) o) { review_gate_pending = none } in
    let moved =
      if same_state approved.project.state paused
      then move r.now (resume_target r cur) approved
      else done tt approved in
    if not cur.pending_pause
    then done tt o
    else bind moved (λ _ o1.
      done tt (save_cursor r.now cur.phase (cur.step_index + 1) cur.iteration false none o1))

unfoldable pub resume_cursor : LoopRunner → Orchestrator → Outcome Unit
resume_cursor r o = elim o.loop_cursor [ none ↦ done tt o | some cur ↦ resume_at r cur o ]
