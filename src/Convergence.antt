-- ===== src/Convergence.antt =====
-- src/research_engine/reasoning/convergence.py: `ConvergenceAnalyzer.evaluate`, with `StopReason` of
-- models/enums.py. Rates are in parts of `scale`, and a quotient is compared by its product. The
-- answer of the language model is a parameter; the texts of the rationales are left out.
pub mod Signals
use ai_researcher_agent_loca.Prelude.{
  ℕ, ◌*◌, max, Bool, true, false, not, ◌&&◌, Option, none, some, leb, ltb, ◌==◌, if◌then◌else◌,
}
use ai_researcher_agent_loca.Job.{Time}
use ai_researcher_agent_loca.Budget.{Budget, exhausted}

pub data StopReason : Type 0 where
  converged provider_degraded budget_exhausted max_iterations no_high_value_gaps : StopReason
  user_stopped failed : StopReason

pub record ConvergenceDecision : Type 0 where
  pub should_stop : Bool
  pub stop_reason : Option StopReason

abbrev pub stop : StopReason → ConvergenceDecision
stop reason = record { should_stop = true; stop_reason = some reason }

abbrev pub go_on : ConvergenceDecision
go_on = record { should_stop = false; stop_reason = none }

-- The entries of `stats` that are read, and the thresholds of the configuration.
pub record Stats : Type 0 where
  pub total_evidence : ℕ
  pub new_evidence : ℕ
  pub new_claims : ℕ
  pub high_importance_gaps : ℕ
  pub duplicate_rate : ℕ
  pub rejection_rate : ℕ
  pub retrieval_failures : ℕ

pub record Thresholds : Type 0 where
  pub scale : ℕ
  pub duplicate_rate_converged : ℕ
  pub new_evidence_threshold : ℕ

-- `_ConvergenceOut`, as far as it is read.
pub record ModelAnswer : Type 0 where
  pub should_continue : Bool

-- The signals that need no model, from the degraded ones to the missing gaps.
unfoldable pub signals : Thresholds → Stats → ConvergenceDecision
signals r s =
    if s.new_evidence == 0 && ltb 0 s.retrieval_failures
    then stop provider_degraded
    else if ltb 0 s.total_evidence && ltb r.duplicate_rate_converged s.rejection_rate
    then stop provider_degraded
    else if leb 10 s.total_evidence
        && ltb (s.new_evidence * r.scale) (r.new_evidence_threshold * max 1 s.total_evidence)
    then stop converged
    else if ltb 0 s.total_evidence && ltb r.duplicate_rate_converged s.duplicate_rate
    then stop converged
    else if leb 10 s.total_evidence && (s.high_importance_gaps == 0 && s.new_claims == 0)
    then stop no_high_value_gaps
    else go_on

-- The model is asked if there is a provider and enough evidence; no answer is one with errors.
unfoldable pub asks_model : (has_provider : Bool) → Stats → Bool
asks_model has_provider s = has_provider && leb 8 s.total_evidence

unfoldable pub tiebreaker : (has_provider : Bool) → Option ModelAnswer → Stats → ConvergenceDecision
unfolding asks_model
tiebreaker has_provider none s = go_on
tiebreaker has_provider (some out) s =
    if asks_model has_provider s && (not out.should_continue && s.high_importance_gaps == 0)
    then stop converged
    else go_on

unfoldable pub evaluate :
    Thresholds
    → (has_provider : Bool) → Option ModelAnswer
    → (now : Time) → Budget
    → Stats
    → ConvergenceDecision
evaluate r has_provider answer now budget s = elim (exhausted now budget) [
  | some dimension ↦ stop budget_exhausted
  | none ↦
      if leb budget.cfg.max_iterations budget.usage.iterations_used
      then stop max_iterations
      else let decision = signals r s in
        if decision.should_stop then decision else tiebreaker has_provider answer s
]
