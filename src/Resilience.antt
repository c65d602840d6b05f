-- ===== src/Resilience.antt =====
-- src/research_engine/platform/resilience.py. The clock is a number of ticks, `second` of them in a
-- second, and a bucket holds units, `one` of them in a token, so a rate is units per tick; with
-- these two numbers any rational rate is exact. A call of `acquire` is given the readings of the
-- clock that it makes, one for each turn of its loop.
pub mod Breaker
pub mod Bucket
pub mod Failover
use Prim.Native.String.{◌++◌}
use ai_researcher_agent_loca.Prelude.{
  ℕ, zero, suc, ◌+◌, ◌-◌, ◌*◌, min, String, Bool, true, false, not, ◌&&◌, ◌||◌, Option, none, some,
  List, [], ◌∷◌, reverse, leb, ltb, ◌==◌, or_else, if◌then◌else◌,
}
use ai_researcher_agent_loca.Prelude.Assoc.{get_entry, put_entry}
use ai_researcher_agent_loca.Job.{Time}
use ai_researcher_agent_loca.Retry.{Attempt, value, error}

pub data BreakerState : Type 0 where
  closed opened half_open : BreakerState

pub record CircuitBreaker : Type 0 where
  pub failure_threshold : ℕ
  pub cooldown : Time
  pub state : BreakerState
  pub consecutive_failures : ℕ
  pub opened_at : Time

abbrev pub is_opened : BreakerState → Bool
is_opened opened = true
is_opened _ = false

abbrev pub is_half_open : BreakerState → Bool
is_half_open half_open = true
is_half_open _ = false

-- The property `state`: reading it lets a breaker out of OPEN once the cooldown is over.
unfoldable pub observe : Time → CircuitBreaker → CircuitBreaker
observe now b =
    if is_opened b.state && leb (b.opened_at + b.cooldown) now
    then record b { state = half_open }
    else b

unfoldable pub allow : Time → CircuitBreaker → Bool × CircuitBreaker
unfolding observe
allow now b = (not (is_opened (observe now b).state), observe now b)

unfoldable pub record_success : CircuitBreaker → CircuitBreaker
record_success b = record b { consecutive_failures = 0; state = closed }

unfoldable pub trip : Time → CircuitBreaker → CircuitBreaker
trip now b = record b { state = opened; opened_at = now }

unfoldable pub record_failure : Time → CircuitBreaker → CircuitBreaker
unfolding trip
record_failure now b =
    if is_half_open b.state
    then trip now b
    else let counted = record b { consecutive_failures = suc b.consecutive_failures } in
      if leb counted.failure_threshold counted.consecutive_failures
      then trip now counted
      else counted

pub record TokenBucket : Type 0 where
  pub rate : ℕ
  pub burst : ℕ
  pub tokens : ℕ
  pub updated : Time

-- How a call of `acquire` ends; `asleep` if it has not, after the readings given.
pub data Acquired : Type 0 where
  granted refused zero_division asleep : Acquired

module _ (one : ℕ) where
  unfoldable pub refill : Time → TokenBucket → TokenBucket
  refill now b = record b {
    tokens = min (b.burst * one) (b.tokens + (now - b.updated) * b.rate);
    updated = now;
  }

  -- `need > timeout` with both sides multiplied by the rate.
  unfoldable pub acquire :
      (wait : Bool) (timeout : Time) → List Time → TokenBucket → Acquired × TokenBucket
  acquire wait timeout [] b = (asleep, b)
  acquire wait timeout (now ∷ later) b =
      let full = refill now b in
      if leb one full.tokens
      then (granted, record full { tokens = full.tokens - one })
      else if full.rate == 0
      then (zero_division, full)
      else if not wait || ltb (timeout * full.rate) (one - full.tokens)
      then (refused, full)
      else acquire wait timeout later full

-- The bucket that `DomainRateLimits.acquire` uses: of the domain, of the provider, or "*".
unfoldable pub limit_key : (provider domain : String) → List (String × TokenBucket) → String
limit_key provider domain limits = elim (get_entry domain limits) [
  | some b ↦ domain
  | none ↦ elim (get_entry provider limits) [ some b ↦ provider | none ↦ "*" ]
]

pub record Executor : Type 0 where
  pub breakers : List (String × CircuitBreaker)
  pub limits : List (String × TokenBucket)

-- What `run` meets at one provider: the time when its breaker is asked, the readings of `acquire`,
-- what the operation does, and the time when a failure is recorded.
pub record Visit (A : Type 0) : Type 0 where
  pub asked : Time
  pub readings : List Time
  pub answer : Attempt A String
  pub failed_at : Time

-- `errors[-3:]`, of a list with the newest first.
abbrev newest : ℕ → List String → List String
newest zero errors = []
newest (suc n) [] = []
newest (suc n) (text ∷ errors) = text ∷ newest n errors

-- How `run` ends: with a value, with the last three errors, with the ZeroDivisionError of a
-- bucket, or not yet.
pub data Outcome (A : Type 0) : Type 0 where
  answered : A → Outcome A
  all_failed : (errors : List String) → Outcome A
  crashed unfinished : Outcome A

module _ (one second : ℕ) where
  -- `CircuitBreaker()` with its defaults.
  abbrev pub new_breaker : CircuitBreaker
  new_breaker = record {
    failure_threshold = 4;
    cooldown = 60 * second;
    state = closed;
    consecutive_failures = 0;
    opened_at = 0;
  }

  unfoldable pub breaker_for : String → Executor → CircuitBreaker
  breaker_for name e = or_else (get_entry name e.breakers) new_breaker

  abbrev pub set_breaker : String → CircuitBreaker → Executor → Executor
  set_breaker name b e = record e { breakers = put_entry name b e.breakers }

  -- `DomainRateLimits.acquire` with its timeout of 10 seconds; the table always has "*".
  unfoldable pub acquire_for :
      (provider domain : String) (wait : Bool) → List Time → Executor → Acquired × Executor
  unfolding acquire limit_key
  acquire_for provider domain wait readings e =
      let key = limit_key provider domain e.limits in
      elim (get_entry key e.limits) [
        | none ↦ (refused, e)
        | some b ↦
            let (answer, after) = acquire one wait (10 * second) readings b in
            (answer, record e { limits = put_entry key after e.limits })
      ]

  module _ {A : Type 0} (domain : String) (wait_rate : Bool) where
    -- The loop of `run`; the errors are collected with the newest first.
    unfoldable pub run_chain :
        List (String × Visit A) → (errors : List String) → Executor → Outcome A × Executor
    unfolding allow breaker_for record_success record_failure
    run_chain [] errors e = (all_failed (reverse (newest 3 errors)), e)
    run_chain ((name, visit) ∷ rest) errors e =
        let (allowed, asked) = allow visit.asked (breaker_for name e) in
        let ready = set_breaker name asked e in
        if not allowed
        then run_chain rest errors ready
        else let (acquired, e') = acquire_for name domain wait_rate visit.readings ready in
          elim acquired [
            | asleep ↦ (unfinished, e')
            | zero_division ↦ (crashed, e')
            | refused ↦ run_chain rest ((name ++ ": rate limited") ∷ errors) e'
            | granted ↦ elim visit.answer [
              | value a ↦ (answered a, set_breaker name (record_success asked) e')
              | error text ↦
                  run_chain rest ((name ++ ": " ++ text) ∷ errors)
                    (set_breaker name (record_failure visit.failed_at asked) e')
            ]
          ]

    -- `run`
    unfoldable pub run : List (String × Visit A) → Executor → Outcome A × Executor
    unfolding run_chain
    run chain e = run_chain chain [] e
