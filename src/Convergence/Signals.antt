-- ===== src/Convergence/Signals.antt =====
-- What the signals of `evaluate` can and cannot decide.
use ai_researcher_agent_loca.Prelude.{
  ◌<◌, Bool, true, false, Option, none, some, ◌≡◌, ◌⊎◌, refl, arith, leb, inl, inr, Bool-cases,
  Option-cases, ◌∙◌, leb, if◌then◌else◌,
}
use ai_researcher_agent_loca.Job.{Time}
use ai_researcher_agent_loca.Budget.{Budget, exhausted}
use ai_researcher_agent_loca.Convergence.{
  converged, provider_degraded, budget_exhausted, max_iterations, ConvergenceDecision, stop, Stats,
  Thresholds, ModelAnswer, signals, tiebreaker, asks_model, evaluate,
}

module _ (r : Thresholds) (has_provider : Bool) (now : Time) (budget : Budget) (s : Stats) where
  -- What `evaluate` comes to once neither the budget nor the iterations are used up.
  judged : Option ModelAnswer → ConvergenceDecision
  judged answer =
      if (signals r s).should_stop then signals r s else tiebreaker has_provider answer s

  evaluate-cases :
      ((answer : Option ModelAnswer)
        → evaluate r has_provider answer now budget s ≡ stop budget_exhausted)
      ⊎ (((answer : Option ModelAnswer)
            → evaluate r has_provider answer now budget s ≡ stop max_iterations)
          ⊎ ((answer : Option ModelAnswer)
              → evaluate r has_provider answer now budget s ≡ judged answer))
  unfolding evaluate judged
  evaluate-cases = elim (Option-cases (exhausted now budget)) [
    | inr (dimension, e) ↦ inl (λ answer. rw (e, evaluate) refl)
    | inl e ↦ elim (Bool-cases (leb budget.cfg.max_iterations budget.usage.iterations_used)) [
      | inl over ↦ inr (inl (λ answer. rw (e, evaluate, over) refl))
      | inr under ↦ inr (inr (λ answer. rw (e, evaluate, under) refl))
    ]
  ]

  signals-degraded :
      s.new_evidence ≡ 0 → 0 < s.retrieval_failures → signals r s ≡ stop provider_degraded
  unfolding signals
  signals-degraded nothing failures = ground arith

  -- An iteration without new evidence whose retrieval failed stops the research, and never as
  -- converged or for want of gaps: as degraded, unless the budget or the iterations are used up.
  pub evaluate-degraded :
      (answer : Option ModelAnswer)
      → s.new_evidence ≡ 0
      → 0 < s.retrieval_failures
      → (evaluate r has_provider answer now budget s ≡ stop provider_degraded)
        ⊎ ((evaluate r has_provider answer now budget s ≡ stop budget_exhausted)
            ⊎ (evaluate r has_provider answer now budget s ≡ stop max_iterations))
  unfolding judged
  evaluate-degraded answer nothing failures = elim evaluate-cases [
    | inl e ↦ inr (inl (e answer))
    | inr (inl e) ↦ inr (inr (e answer))
    | inr (inr e) ↦ inl (rw (e answer, judged, signals-degraded nothing failures) refl)
  ]

  tiebreaker-stops :
      (answer : Option ModelAnswer)
      → (tiebreaker has_provider answer s).should_stop ≡ true
      → (tiebreaker has_provider answer s ≡ stop converged)
        × (s.high_importance_gaps ≡ 0)
        × (7 < s.total_evidence)
  unfolding tiebreaker asks_model
  tiebreaker-stops none h = absurd cc
  tiebreaker-stops (some out) h = ground arith

  -- The model cannot keep the research going: what stops without an answer stops in the same way
  -- with any answer.
  pub evaluate-advisory :
      (answer : Option ModelAnswer)
      → (evaluate r has_provider none now budget s).should_stop ≡ true
      → evaluate r has_provider answer now budget s ≡ evaluate r has_provider none now budget s
  unfolding judged tiebreaker
  evaluate-advisory answer stops = elim evaluate-cases [
    | inl e ↦ rw (e answer, e none) refl
    | inr (inl e) ↦ rw (e answer, e none) refl
    | inr (inr e) ↦
        let judged_stops : (judged none).should_stop ≡ true = rw (e none) at stops in
        elim (Bool-cases (signals r s).should_stop) [
          | inl yes_stop ↦ rw (e answer, e none, judged, yes_stop) refl
          | inr no_stop ↦
              let wrong : false ≡ true = rw (judged, no_stop) at judged_stops in absurd cc
        ]
  ]

  -- The model stops the research only as converged, with no gap of high importance and at least 8
  -- items of evidence.
  pub evaluate-model :
      (answer : Option ModelAnswer)
      → (evaluate r has_provider none now budget s).should_stop ≡ false
      → (evaluate r has_provider answer now budget s).should_stop ≡ true
      → (evaluate r has_provider answer now budget s ≡ stop converged)
        × (s.high_importance_gaps ≡ 0)
        × (7 < s.total_evidence)
  unfolding judged signals
  evaluate-model answer goes stops = elim evaluate-cases [
    | inl e ↦ let wrong : true ≡ false = rw (e none) at goes in absurd cc
    | inr (inl e) ↦ let wrong : true ≡ false = rw (e none) at goes in absurd cc
    | inr (inr e) ↦ elim (Bool-cases (signals r s).should_stop) [
      | inl yes_stop ↦
          let first : (judged none).should_stop ≡ false = rw (e none) at goes in
          let wrong : (signals r s).should_stop ≡ false = rw (judged, yes_stop) at first in
          absurd cc
      | inr no_stop ↦
          let last : judged answer ≡ tiebreaker has_provider answer s = rw no_stop refl in
          let ends : (tiebreaker has_provider answer s).should_stop ≡ true =
            rw (e answer, last) at stops in
          let (same, gaps, enough) = tiebreaker-stops answer ends in
          (e answer ∙ (last ∙ same), gaps, enough)
    ]
  ]
