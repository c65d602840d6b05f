-- ===== src/Resilience/Breaker.antt =====
-- When a circuit breaker opens, and when it lets calls through again.
use ai_researcher_agent_loca.Prelude.{
  suc, ◌+◌, ◌≤◌, false, List, [], ◌∷◌, ◌≡◌, refl, arith, length, leb, Bool-cases, inl, inr, ◌∙◌, ap,
  if◌then◌else◌,
}
use ai_researcher_agent_loca.Job.{Time}
use ai_researcher_agent_loca.Resilience.{
  BreakerState, closed, opened, CircuitBreaker, is_opened, is_half_open, observe, allow, trip,
  record_failure,
}

-- Failures at the given times, one after the other.
abbrev pub fail_all : List Time → CircuitBreaker → CircuitBreaker
fail_all [] b = b
fail_all (t ∷ times) b = fail_all times (record_failure t b)

abbrev counted_state : CircuitBreaker → BreakerState
counted_state b = if leb b.failure_threshold b.consecutive_failures then opened else closed

pub record Counts (b c : CircuitBreaker) : Type 0 where
  pub state : c.state ≡ counted_state c
  pub failures : c.consecutive_failures ≡ suc b.consecutive_failures
  pub threshold : c.failure_threshold ≡ b.failure_threshold

counted_shut : (b : CircuitBreaker) → b.state ≡ counted_state b → is_half_open b.state ≡ false
counted_shut b h = elim (Bool-cases (leb b.failure_threshold b.consecutive_failures)) [
  | inl e ↦ rw (h, e) refl
  | inr e ↦ rw (h, e) refl
]

failure-Counts :
    (t : Time) (b : CircuitBreaker) → b.state ≡ counted_state b → Counts b (record_failure t b)
unfolding record_failure trip
failure-Counts t b h = elim (Bool-cases (leb b.failure_threshold (suc b.consecutive_failures))) [
  | inl reached ↦
      rw (counted_shut b h, reached)
        (record { state = rw reached refl; failures = refl; threshold = refl })
  | inr below ↦
      let before : leb b.failure_threshold b.consecutive_failures ≡ false = ground arith in
      rw (counted_shut b h, below)
        (record { state = rw below (rw (h, before) refl); failures = refl; threshold = refl })
]

fail_all_state :
    (times : List Time) (b : CircuitBreaker)
    → b.state ≡ counted_state b
    → (fail_all times b).state
      ≡ (if leb b.failure_threshold (length times + b.consecutive_failures) then opened else closed)
fail_all_state [] b h = rw h (ground arith)
fail_all_state (t ∷ times) b h =
    let step = failure-Counts t b h in
    let rest = fail_all_state times (record_failure t b) step.state in
    let shift : length times + suc b.consecutive_failures
        ≡ suc (length times) + b.consecutive_failures =
      omega arith in
    rest ∙ rw (step.threshold, step.failures, shift) refl

-- A closed breaker without failures, whose threshold is 1 or more, is open after a run of failures
-- if these are as many as the threshold or more, and closed if they are fewer.
pub fail_all-opened :
    (times : List Time) (b : CircuitBreaker)
    → b.state ≡ closed
    → b.consecutive_failures ≡ 0
    → 1 ≤ b.failure_threshold
    → (fail_all times b).state ≡ (if leb b.failure_threshold (length times) then opened else closed)
fail_all-opened times b shut none_yet threshold =
    let start : b.state ≡ counted_state b = ground arith in
    let total : length times + b.consecutive_failures ≡ length times = omega arith in
    fail_all_state times b start
    ∙ ap (λ n. if leb b.failure_threshold n then opened else closed) total

-- After a failure that opens a breaker that was not open, calls are let through from the time at
-- which the cooldown has passed since that failure, and not before.
pub failure-allow :
    (t now : Time) (b : CircuitBreaker)
    → is_opened b.state ≡ false
    → (record_failure t b).state ≡ opened
    → (allow now (record_failure t b)).0 ≡ leb (t + b.cooldown) now
unfolding record_failure trip allow observe
failure-allow t now b before h = elim (Bool-cases (is_half_open b.state)) [
  | inl half ↦ rw half (ground arith)
  | inr shut ↦ elim (Bool-cases (leb b.failure_threshold (suc b.consecutive_failures))) [
    | inl reached ↦ rw (shut, reached) (ground arith)
    | inr below ↦
        let still_open : b.state ≡ opened = rw (shut, below) at h in
        let both : is_opened opened ≡ false = rw still_open at before in ground arith
  ]
]
