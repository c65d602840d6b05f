-- ===== src/Orchestrator/Phases.antt =====
-- The phases of core/orchestrator.py, `_phase_clarify` to `_phase_synthesize`. What the workers, the
-- language model and the repositories answer is a parameter: whether they raise, and the numbers
-- and signals that the phase reads. Steps whose exceptions the source catches and only logs are
-- left out, as is what the phases store.
use ai_researcher_agent_loca.Prelude.{
  ℕ, ◌+◌, max, min, Bool, true, false, Option, none, some, leb, ◌==◌, if◌then◌else◌,
}
use ai_researcher_agent_loca.Job.{Time}
use ai_researcher_agent_loca.Budget.{sources_left, spend_query, spend_sources, spend_document}
use ai_researcher_agent_loca.StateMachine.{
  clarifying, planned, searching, fetching, extracting, verifying, analyzing_gaps,
  generating_followups, converged, synthesizing, completed, paused, same_state,
}
use ai_researcher_agent_loca.Convergence.{StopReason, Thresholds, Stats, ModelAnswer, evaluate}
use ai_researcher_agent_loca.Orchestrator.{
  after_problem_definition, after_initial_research_plan, after_first_research_cycle, Orchestrator,
  worker_failed, Outcome, done, raised, bind, move, persist_checkpoint, review_gate,
}

-- A call that can raise: whether it returns.
unfoldable pub call : (works : Bool) → Orchestrator → Outcome Unit
call works o = if works then done tt o else raised worker_failed o

-- A call that can raise, with what it returns.
unfoldable pub call_for : {A : Type 0} → Option A → Orchestrator → Outcome A
call_for none o = raised worker_failed o
call_for (some a) o = done a o

pub record ClarifyWork : Type 0 where
  pub clarified : Bool
  pub asks_user : Bool

-- The blocking question of pipeline/questions.py; an exception of it is caught.
unfoldable pub ask_user : Time → (asks : Bool) → Orchestrator → Orchestrator
ask_user now asks o =
    let waiting = record o { review_gate_pending = some "WAITING_FOR_USER" } in
    if asks then elim (move now paused waiting) [ done u o' ↦ o' | raised f o' ↦ o' ] else o

unfoldable pub phase_clarify : Time → ClarifyWork → Orchestrator → Outcome Unit
phase_clarify now work o = bind (move now clarifying o) (λ _ o1.
    bind (call work.clarified o1) (λ _ o2.
      let asked = ask_user now work.asks_user o2 in
      if same_state asked.project.state paused
      then done tt (persist_checkpoint now asked)
      else bind (review_gate now after_problem_definition asked) (λ _ o3. done tt o3)))

unfoldable pub phase_plan : Time → (planned_all : Bool) → Orchestrator → Outcome Unit
phase_plan now planned_all o = bind (call planned_all o) (λ _ o1.
    bind (review_gate now after_initial_research_plan o1)
      (λ passed o2. if passed then move now planned o2 else done tt o2))

unfoldable pub begin_iteration : Time → Orchestrator → Outcome Unit
begin_iteration now o =
    let usage = o.budget.usage in
    move now searching (record o {
      current_iteration = o.current_iteration + 1;
      budget = record o.budget {
        usage = record usage { iterations_used = max usage.iterations_used o.current_iteration };
      };
    })

-- The unexecuted queries, the queries that follow-ups would create, how many queries were executed
-- with how many new sources, how many documents were fetched, and whether extraction and
-- consolidation return; `none` is an exception.
pub record SearchWork : Type 0 where
  pub queued : ℕ
  pub followups : Option ℕ
  pub retrieved : Option (ℕ × ℕ)
  pub fetched : Option ℕ
  pub extracted : Bool
  pub consolidated : Bool

unfoldable pub run_queries : Time → SearchWork → Orchestrator → Outcome Unit
run_queries now work o = bind (call_for work.retrieved o) (λ found o0.
    let (executed, new_sources) = found in
    let spent = spend_query executed o0.budget in
    let kept = min new_sources (sources_left spent) in
    bind (move now fetching (record o0 { budget = spend_sources kept spent })) (λ _ o1.
      bind (call_for work.fetched o1) (λ documents o2.
        bind (move now extracting (record o2 { budget = spend_document documents o2.budget }))
          (λ _ o3. bind (call work.extracted o3) (λ _ o4.
            bind (move now verifying o4)
              (λ _ o5. bind (call work.consolidated o5) (λ _ o6. move now analyzing_gaps o6)))))))

unfoldable pub phase_search_fetch_extract : Time → SearchWork → Orchestrator → Outcome Unit
phase_search_fetch_extract now work o =
    if work.queued == 0
    then bind (call_for work.followups o) (λ created o1.
      if created == 0
      then move now converged (record o1 { stop_reason = some StopReason.no_high_value_gaps })
      else run_queries now work o1)
    else run_queries now work o

pub record AnalysisWork : Type 0 where
  pub analysed : Bool
  pub stats : Stats
  pub answer : Option ModelAnswer
  pub followed_up : Bool

-- What of the configuration the convergence analyzer is given.
pub record Judge : Type 0 where
  pub thresholds : Thresholds
  pub has_provider : Bool

-- `stop_reason in (CONVERGED, NO_HIGH_VALUE_GAPS)`
unfoldable pub is_satisfied : Option StopReason → Bool
is_satisfied (some StopReason.converged) = true
is_satisfied (some StopReason.no_high_value_gaps) = true
is_satisfied reason = false

unfoldable pub go_on_iterating : Time → AnalysisWork → Orchestrator → Outcome Bool
go_on_iterating now work o = bind (move now generating_followups o) (λ _ o1.
    bind (call work.followed_up o1) (λ _ o2.
      bind (move now searching (record o2 { current_iteration = o2.current_iteration + 1 }))
        (λ _ o3. done true o3)))

unfoldable pub stop_iterating : Time → Option StopReason → Orchestrator → Outcome Bool
stop_iterating now reason o =
    let stopped = persist_checkpoint now (record o { stop_reason = reason }) in
    if is_satisfied reason
    then bind (move now converged stopped) (λ _ o1. done false o1)
    else bind (move now generating_followups stopped)
        (λ _ o1. bind (move now converged o1) (λ _ o2. done false o2))

unfoldable pub phase_analyze : Time → Judge → AnalysisWork → Orchestrator → Outcome Bool
phase_analyze now judge work o = bind (call work.analysed o) (λ _ o1.
    let decision =
      evaluate judge.thresholds judge.has_provider work.answer now o1.budget work.stats in
    let usage = o1.budget.usage in
    let counted = record o1 {
      budget = record o1.budget { usage = record usage { iterations_used = o1.current_iteration } };
    } in
    if decision.should_stop
    then stop_iterating now decision.stop_reason counted
    else if leb counted.budget.cfg.max_iterations counted.current_iteration
    then bind (move now converged (record counted { stop_reason = some StopReason.max_iterations }))
        (λ _ o2. done false o2)
    else if counted.current_iteration == 1
    then bind (review_gate now after_first_research_cycle counted)
        (λ passed o2. if passed then go_on_iterating now work o2 else done false o2)
    else go_on_iterating now work counted)

unfoldable pub phase_synthesize : Time → (reported : Bool) → Orchestrator → Outcome Unit
phase_synthesize now reported o =
    bind (move now synthesizing o) (λ _ o1. bind (call reported o1) (λ _ o2. move now completed o2))
