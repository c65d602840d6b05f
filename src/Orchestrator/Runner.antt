-- ===== src/Orchestrator/Runner.antt =====
-- `LoopRunner.run` of engines/runner.py. The handlers of the steps and the metrics are parameters.
use ai_researcher_agent_loca.Prelude.{
  ℕ, zero, suc, ◌+◌, ◌-◌, max, String, Bool, true, false, not, ◌&&◌, ◌||◌, Option, none, some, List,
  [], ◌∷◌, is_none, or_else, str_eq, leb, ◌==◌, if◌then◌else◌,
}
use ai_researcher_agent_loca.Orchestrator.StopWhen.{StopConditionSpec, evaluate_stop_conditions}
use ai_researcher_agent_loca.Job.{Time}
use ai_researcher_agent_loca.StateMachine.{converged, paused, same_state}
use ai_researcher_agent_loca.Convergence.{StopReason}
use ai_researcher_agent_loca.Orchestrator.{
  Cursor, LoopStepSpec, LoopSpec, Orchestrator, Outcome, done, bind, move, save_cursor,
  pause_at_step,
}

-- The handler of a step answers whether to go on, or nothing.
abbrev pub Handler : Type 0
Handler = LoopStepSpec → Orchestrator → Outcome (Option Bool)

-- The runner: its manifest's loop, the handlers, and `str.upper`. A handler or a metrics provider may
-- be missing, and the provider may have no metrics for an iteration.
pub record LoopRunner : Type 0 where
  pub loop : LoopSpec
  pub stop_when : List StopConditionSpec
  pub handlers : String → Option Handler
  pub metrics_provider : ℕ → Option (String → Option ℕ)
  pub upper : String → String
  pub max_iterations : ℕ
  pub now : Time

-- The steps from an index on.
unfoldable pub from_index : ℕ → List LoopStepSpec → List LoopStepSpec
from_index zero steps = steps
from_index (suc n) [] = []
from_index (suc n) (s ∷ steps) = from_index n steps

-- `handler(step_spec)`, if there is one
unfoldable pub handle : LoopRunner → LoopStepSpec → Orchestrator → Outcome (Option Bool)
handle r spec o = elim (r.handlers spec.step) [ none ↦ done none o | some handler ↦ handler spec o ]

-- `cont is False`
unfoldable pub is_refusal : Option Bool → Bool
is_refusal (some false) = true
is_refusal cont = false

-- What a list of steps comes to: all are done, the loop has converged, or the run returns.
pub data StepsEnd : Type 0 where
  all_done has_converged has_paused : StepsEnd

-- The end of a step: a pause of the manifest, or the steps after it.
unfoldable pub after_step :
    LoopRunner
    → (phase : String) (idx it : ℕ) → LoopStepSpec
    → (is_converged : Bool) → (rest : Orchestrator → Outcome StepsEnd) → Orchestrator
    → Outcome StepsEnd
after_step r phase idx it spec is_converged rest o =
    if spec.pause_after
    then bind (pause_at_step r.upper r.now phase idx it spec o) (λ _ o1. done has_paused o1)
    else if is_converged
    then done has_converged o
    else rest o

-- The steps of the setup, where the cursor's iteration is 0, or of the synthesis.
unfoldable pub run_phase :
    LoopRunner
    → (phase : String) (cursor_iteration : Orchestrator → ℕ) (idx : ℕ) → List LoopStepSpec
    → Orchestrator
    → Outcome StepsEnd
run_phase r phase it idx [] o = done all_done o
run_phase r phase it idx (spec ∷ steps) o =
    let rest = run_phase r phase it (idx + 1) steps in
    let begun = save_cursor r.now phase idx (it o) false none o in
    bind (handle r spec begun) (λ cont o1.
      if not (is_none (r.handlers spec.step))
        && (same_state o1.project.state paused || is_refusal cont)
      then done has_paused (save_cursor r.now phase idx (it o1) true o1.review_gate_pending o1)
      else after_step r phase idx (it o1) spec false rest o1)

-- The steps of one iteration.
unfoldable pub run_iteration :
    LoopRunner → (it idx : ℕ) → List LoopStepSpec → Orchestrator → Outcome StepsEnd
run_iteration r it idx [] o = done all_done o
run_iteration r it idx (spec ∷ steps) o =
    let rest = run_iteration r it (idx + 1) steps in
    let begun = save_cursor r.now "per_iteration" idx it false none o in
    bind (handle r spec begun) (λ cont o1.
      if not (is_none (r.handlers spec.step)) && same_state o1.project.state paused
      then done has_paused (save_cursor r.now "per_iteration" idx it true o1.review_gate_pending o1)
      else after_step r "per_iteration" idx it spec
          (is_refusal cont && str_eq spec.step "evaluate_convergence") rest o1)

-- `p.stop_reason = p.stop_reason or reason`, then the transition
unfoldable pub stop_for : LoopRunner → StopReason → Orchestrator → Outcome Unit
stop_for r reason o =
    move r.now converged (record o { stop_reason = some (or_else o.stop_reason reason) })

unfoldable pub check_stop_when : LoopRunner → (it : ℕ) → Orchestrator → Outcome Bool
check_stop_when r it o = elim (r.metrics_provider it) [
  | none ↦ done false o
  | some metrics ↦ elim (evaluate_stop_conditions r.stop_when metrics it) [
    | none ↦ done false o
    | some cond ↦ bind (stop_for r StopReason.converged o) (λ _ o1. done true o1)
  ]
]

-- Whether the loop is left, once the steps of an iteration ended.
unfoldable pub end_iteration : LoopRunner → (it : ℕ) → StepsEnd → Orchestrator → Outcome Bool
end_iteration r it has_paused o = done true o
end_iteration r it has_converged o = done true o
end_iteration r it all_done o = bind (check_stop_when r it o) (λ stopped o1.
    if stopped || same_state o1.project.state converged
    then done true o1
    else if leb r.max_iterations it
    then bind (stop_for r StopReason.max_iterations o1) (λ _ o2. done true o2)
    else done false o1)

-- `while it <= self.max_iterations`, with the iterations that are left; whether the run goes on.
unfoldable pub iterate : LoopRunner → (left it step_start : ℕ) → Orchestrator → Outcome Bool
iterate r zero it step_start o = done true o
iterate r (suc left) it step_start o =
    let rest = iterate r left (it + 1) 0 in
    let begun = record o { current_iteration = it } in
    bind (run_iteration r it step_start (from_index step_start r.loop.per_iteration) begun)
      (λ ended o1. elim ended [
        | has_paused ↦ done false o1
        | all_done ↦
            bind (end_iteration r it all_done o1)
              (λ leaves o2. if leaves then done true o2 else rest o2)
        | has_converged ↦ done true o1
      ])

-- The cursor with the defaults of `cur.get`; `p.current_iteration or 1` has 1 for 0.
unfoldable pub cursor_phase : Option Cursor → String
cursor_phase none = "setup"
cursor_phase (some cur) = cur.phase

unfoldable pub cursor_index : Option Cursor → ℕ
cursor_index none = 0
cursor_index (some cur) = cur.step_index

unfoldable pub cursor_iteration : (current : ℕ) → Option Cursor → ℕ
cursor_iteration current none = if current == 0 then 1 else current
cursor_iteration current (some cur) = cur.iteration

unfoldable pub complete_run : LoopRunner → Orchestrator → Outcome Unit
complete_run r o = done tt (save_cursor r.now "completed" 0 o.current_iteration false none o)

unfoldable pub run_synthesis : LoopRunner → (start_idx : ℕ) → Orchestrator → Outcome Unit
run_synthesis r start_idx o =
    let steps = from_index start_idx r.loop.synthesis in
    bind (run_phase r "synthesis" (λ o1. o1.current_iteration) start_idx steps o) (λ ended o1.
      elim ended [
        | has_paused ↦ done tt o1
        | all_done ↦ complete_run r o1
        | has_converged ↦ complete_run r o1
      ])

unfoldable pub run_iterations :
    LoopRunner → (cur : Option Cursor) (start_idx : ℕ) → Orchestrator → Outcome Unit
run_iterations r cur start_idx o =
    let it = max 1 (cursor_iteration o.current_iteration cur) in
    let begun = record o { current_iteration = it } in
    bind (iterate r ((r.max_iterations + 1) - it) it start_idx begun)
      (λ goes_on o1. if goes_on then run_synthesis r 0 o1 else done tt o1)

unfoldable pub run_setup : LoopRunner → (cur : Option Cursor) → Orchestrator → Outcome Unit
run_setup r cur o =
    let start_idx = cursor_index cur in
    bind (run_phase r "setup" (λ o1. 0) start_idx (from_index start_idx r.loop.setup) o)
      (λ ended o1.
        let first = if o1.current_iteration == 0 then 1 else o1.current_iteration in
        let next = run_iterations r cur 0 (record o1 { current_iteration = first }) in
        elim ended [ has_paused ↦ done tt o1 | all_done ↦ next | has_converged ↦ next ])

unfoldable pub loop_runner_run : LoopRunner → Orchestrator → Outcome Unit
loop_runner_run r o =
    let cur = o.loop_cursor in
    let phase = cursor_phase cur in
    if str_eq phase "setup"
    then run_setup r cur o
    else if str_eq phase "per_iteration"
    then run_iterations r cur (cursor_index cur) o
    else if str_eq phase "synthesis"
    then run_synthesis r (cursor_index cur) o
    else complete_run r o
