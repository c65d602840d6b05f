-- ===== src/Retry.antt =====
-- src/research_engine/core/retry.py: `run_with_retries`. The call of the wrapped function at each
-- attempt is a function from the attempt's number to a value or an exception; `retry_on` and
-- `is_retryable` are tests on exceptions. The delays between attempts are not modelled.
pub mod Attempts
use ai_researcher_agent_loca.Prelude.{
  ◌≡◌, ◌⊎◌, refl, inl, inr, ℕ, zero, suc, Bool, true, false, not, ◌&&◌, Option, none, some, ltb,
  if◌then◌else◌,
}

-- What one call of the wrapped function does.
pub data Attempt (A E : Type 0) : Type 0 where
  value : A → Attempt A E
  error : E → Attempt A E

pub Attempt-cases :
    {A E : Type 0} (r : Attempt A E) → ((a : A) × (r ≡ value a)) ⊎ ((e : E) × (r ≡ error e))
Attempt-cases (value a) = inl (a, refl)
Attempt-cases (error e) = inr (e, refl)

-- How `run_with_retries` ends: with a value, with an exception, or with the default.
pub data Ending (A E : Type 0) : Type 0 where
  returned : A → Ending A E
  raised : E → Ending A E
  defaulted : Ending A E

pub record Settings (E : Type 0) : Type 0 where
  pub max_attempts : ℕ
  pub retry_on : E → Bool
  pub is_retryable : Option (E → Bool)
  pub raises : Bool

-- `is_retryable and not is_retryable(exc)`
unfoldable pub gives_up : {E : Type 0} → Option (E → Bool) → E → Bool
gives_up none exc = false
gives_up (some test) exc = not (test exc)

module _ {A E : Type 0} (settings : Settings E) (call : ℕ → Attempt A E) where
  -- What follows the loop.
  unfoldable pub conclude : (last_exc : Option E) → Ending A E
  conclude none = defaulted
  conclude (some exc) = if settings.raises then raised exc else defaulted

  -- `for attempt in range(…)`, with as many attempts left as the first argument.
  unfoldable pub retry_loop : (left attempt : ℕ) → (last_exc : Option E) → Ending A E
  unfolding conclude gives_up
  retry_loop zero attempt last_exc = conclude last_exc
  retry_loop (suc left) attempt last_exc = elim (call attempt) [
    | value a ↦ returned a
    | error exc ↦
        if not (settings.retry_on exc)
        then raised exc
        else if gives_up settings.is_retryable exc
        then conclude last_exc
        else retry_loop left (suc attempt) (some exc)
  ]

  unfoldable pub run_with_retries : Ending A E
  unfolding retry_loop
  run_with_retries = retry_loop settings.max_attempts 1 none
