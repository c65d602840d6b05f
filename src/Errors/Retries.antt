-- ===== src/Errors/Retries.antt =====
-- `run_with_retries` of errors.py comes to an end.
use Prim.Native.String.{◌++◌}
use ai_researcher_agent_loca.Prelude.{
  ℕ, zero, suc, ◌+◌, ◌≤◌, ◌<◌, String, not, ◌||◌, Option, some, ◌≡◌, refl, arith, inl, inr,
  Bool-cases, ltb, leb, max, or_else, if◌then◌else◌,
}
use ai_researcher_agent_loca.Retry.{Attempt-cases, Attempt, Ending, returned, raised}
use ai_researcher_agent_loca.Errors.{
  ErrorCategory, RetryPolicy, default_policies, Exception, TextTools, classify, ClassifiedError,
  policy_for, retry_turns, run_with_retries,
}

-- The number of attempts that a policy allows at most: its own, or 5 if it is replaced.
abbrev bound : RetryPolicy → ℕ
bound policy = if ltb 1 policy.max_attempts then policy.max_attempts else 5

default_bound : (cat : ErrorCategory) → (default_policies cat).max_attempts ≤ 5
unfolding default_policies
default_bound ErrorCategory.network = omega arith
default_bound ErrorCategory.auth = omega arith
default_bound ErrorCategory.rate_limit = omega arith
default_bound ErrorCategory.parsing = omega arith
default_bound ErrorCategory.schema = omega arith
default_bound ErrorCategory.model = omega arith
default_bound ErrorCategory.database = omega arith
default_bound ErrorCategory.resource = omega arith
default_bound ErrorCategory.security = omega arith
default_bound ErrorCategory.user = omega arith
default_bound ErrorCategory.unknown = omega arith

policy_for-bound :
    (policy : RetryPolicy) (cat : ErrorCategory)
    → (policy_for policy cat).max_attempts ≤ bound policy
unfolding policy_for
policy_for-bound policy cat = elim (Bool-cases (ltb 1 policy.max_attempts)) [
  | inl own ↦ ground arith
  | inr replaced ↦ ground (arith, default_bound cat)
]

module _ {A : Type 0} (tools : TextTools) (what : String) (call : ℕ → Attempt A Exception) where
  retry_turns-ends :
      (fuel attempt : ℕ) (policy : RetryPolicy)
      → 1 ≤ attempt
      → attempt ≤ bound policy
      → bound policy < attempt + fuel
      → (r : Ending A ClassifiedError) × (retry_turns tools what call fuel attempt policy ≡ some r)
  unfolding retry_turns
  retry_turns-ends zero attempt policy first within enough = absurd (omega arith)
  retry_turns-ends (suc fuel) attempt policy first within enough =
      elim (Attempt-cases (call attempt)) [
        | inl (a, e) ↦ (returned a, rw (e, retry_turns) refl)
        | inr (exc, e) ↦
            let used : RetryPolicy = policy_for policy (classify tools exc) in
            elim (Bool-cases (not used.retryable || leb used.max_attempts attempt)) [
              | inl over ↦
                  let last : ClassifiedError = record {
                    category = classify tools exc;
                    message = what ++ ": " ++ exc.text;
                  } in
                  (raised last, rw (e, retry_turns, over) refl)
              | inr again ↦
                  let below : used.max_attempts ≤ bound policy =
                    policy_for-bound policy (classify tools exc) in
                  let left : attempt < used.max_attempts = ground arith in
                  let same : bound used ≡ used.max_attempts = ground (arith, left, first) in
                  let (r, ends) =
                    retry_turns-ends fuel (suc attempt) used (omega arith)
                      (omega (arith, left, same)) (omega (arith, below, same, enough)) in
                  (r, rw (e, retry_turns, again) ends)
            ]
      ]

  -- The loop ends with a value or an exception, whatever the calls do, within as many turns as the
  -- policy allows attempts or 5, whichever is more.
  pub run_with_retries-ends :
      (policy : Option RetryPolicy)
      → (r : Ending A ClassifiedError) × (run_with_retries tools what call policy ≡ some r)
  unfolding run_with_retries
  run_with_retries-ends policy =
      let used : RetryPolicy = or_else policy (default_policies ErrorCategory.unknown) in
      let within : 1 ≤ bound used = ground arith in
      let enough : bound used < 1 + max used.max_attempts 5 = ground arith in
      retry_turns-ends (max used.max_attempts 5) 1 used (omega arith) within enough
