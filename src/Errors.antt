-- ===== src/Errors.antt =====
-- src/research_engine/platform/errors.py: failures get a category, and the category its policy.
-- Delays are in milliseconds. `str.lower` and the search for an HTTP status by regular expressions
-- are Python's: they are parameters, and so is whether a text holds another (`in`).
pub mod Retries
use Prim.Native.String.{◌++◌}
use ai_researcher_agent_loca.Retry.{Attempt, value, error, Ending, returned, raised}
use ai_researcher_agent_loca.Prelude.{
  ℕ, suc, or_else, max, ◌-◌, ◌*◌, ◌^◌, min, String, Bool, true, false, not, ◌||◌, Option, none,
  some, List, [], ◌∷◌, ltb, leb, ◌==◌, if◌then◌else◌, zero,
}

pub data ErrorCategory : Type 0 where
  network auth rate_limit parsing schema model database resource security user unknown :
      ErrorCategory

pub record RetryPolicy : Type 0 where
  pub max_attempts : ℕ
  pub backoff_base : ℕ
  pub backoff_limit : ℕ
  pub jitter : Bool
  pub retryable : Bool

-- `RetryPolicy(max_attempts, backoff_base)` with the default cap of 60 seconds.
abbrev transient : ℕ → ℕ → RetryPolicy
transient attempts base = record {
  max_attempts = attempts;
  backoff_base = base;
  backoff_limit = 60000;
  jitter = true;
  retryable = true;
}

abbrev fail_fast : RetryPolicy
fail_fast = record {
  max_attempts = 1;
  backoff_base = 0;
  backoff_limit = 60000;
  jitter = true;
  retryable = false;
}

unfoldable pub default_policies : ErrorCategory → RetryPolicy
default_policies ErrorCategory.network = transient 3 1500
default_policies ErrorCategory.rate_limit = record (transient 4 4000) { backoff_limit = 90000 }
default_policies ErrorCategory.model = transient 2 2000
default_policies ErrorCategory.database = record (transient 5 400) { backoff_limit = 8000 }
default_policies ErrorCategory.resource = transient 2 5000
default_policies ErrorCategory.auth = fail_fast
default_policies ErrorCategory.parsing = fail_fast
default_policies ErrorCategory.schema = fail_fast
default_policies ErrorCategory.security = fail_fast
default_policies ErrorCategory.user = fail_fast
default_policies ErrorCategory.unknown = transient 2 1000

-- An exception: one that carries its category, a `JSONDecodeError` or `ValueError`, or another.
pub data Kind : Type 0 where
  classified : ErrorCategory → Kind
  schema_error other_error : Kind

pub record Exception : Type 0 where
  pub kind : Kind
  pub text : String

-- What Python gives: `str.lower`, `needle in text`, and the number that the patterns of
-- `_extract_http_status` find.
pub record TextTools : Type 0 where
  pub lower : String → String
  pub has_text : (needle text : String) → Bool
  pub find_code : String → Option ℕ

unfoldable pub fingerprints : List (String × ErrorCategory)
fingerprints =
    ("rate limit", ErrorCategory.rate_limit)
    ∷ ("too many requests", ErrorCategory.rate_limit)
    ∷ ("timed out", ErrorCategory.network)
    ∷ ("timeout", ErrorCategory.network)
    ∷ ("connection", ErrorCategory.network)
    ∷ ("getaddrinfo", ErrorCategory.network)
    ∷ ("ssl", ErrorCategory.network)
    ∷ ("remote protocol error", ErrorCategory.network)
    ∷ ("unauthorized", ErrorCategory.auth)
    ∷ ("forbidden", ErrorCategory.auth)
    ∷ ("api key", ErrorCategory.auth)
    ∷ ("database is locked", ErrorCategory.database)
    ∷ ("disk full", ErrorCategory.resource)
    ∷ ("no space left", ErrorCategory.resource)
    ∷ ("cannot allocate memory", ErrorCategory.resource)
    ∷ ("permission denied", ErrorCategory.security)
    ∷ []

-- The codes that `_extract_http_status` keeps of the number found.
unfoldable pub http_status : ℕ → Option ℕ
http_status code =
    if code == 401 || (code == 403 || (code == 429 || not (ltb code 500 || leb 600 code)))
    then some code
    else if not (ltb code 400 || leb 500 code)
    then some 400
    else none

unfoldable pub status_map : ℕ → Option ErrorCategory
status_map code =
    if code == 401 || code == 403
    then some ErrorCategory.auth
    else if code == 429
    then some ErrorCategory.rate_limit
    else none

module _ (tools : TextTools) where
  unfoldable pub extract_http_status : String → Option ℕ
  unfolding http_status
  extract_http_status text = elim (tools.find_code text) [
    | none ↦ none
    | some code ↦ http_status code
  ]

  unfoldable pub first_fingerprint : String → List (String × ErrorCategory) → ErrorCategory
  first_fingerprint text [] = ErrorCategory.unknown
  first_fingerprint text ((needle, cat) ∷ rest) =
      if tools.has_text needle text then cat else first_fingerprint text rest

  unfoldable pub classify_text : String → ErrorCategory
  unfolding extract_http_status status_map first_fingerprint fingerprints
  classify_text text = elim (extract_http_status text) [
    | none ↦ first_fingerprint text fingerprints
    | some code ↦ elim (status_map code) [
      | some cat ↦ cat
      | none ↦ first_fingerprint text fingerprints
    ]
  ]

  -- `classify(exc)`
  unfoldable pub classify : Exception → ErrorCategory
  unfolding classify_text
  classify exc = elim exc.kind [
    | classified cat ↦ cat
    | schema_error ↦ ErrorCategory.schema
    | other_error ↦ classify_text (tools.lower exc.text)
  ]

-- `backoff_delay` without its jitter, a factor between 0.5 and 1.5; `attempt` is 1 or more.
unfoldable pub backoff_delay : RetryPolicy → ℕ → ℕ
backoff_delay policy attempt = min policy.backoff_limit (policy.backoff_base * 2 ^ (attempt - 1))

pub record ClassifiedError : Type 0 where
  pub category : ErrorCategory
  pub message : String

-- `pol if pol.max_attempts > 1 else DEFAULT_POLICIES[cat]`
unfoldable pub policy_for : RetryPolicy → ErrorCategory → RetryPolicy
policy_for policy cat = if ltb 1 policy.max_attempts then policy else default_policies cat

module _ {A : Type 0} (tools : TextTools) (what : String) (call : ℕ → Attempt A Exception) where
  -- `while True: …` for as many turns as the fuel; `call` gives what `fn()` does at each attempt.
  -- The callbacks `on_retry` and `sleep`, called between attempts, are left out.
  unfoldable pub retry_turns : (fuel attempt : ℕ) → RetryPolicy → Option (Ending A ClassifiedError)
  retry_turns zero attempt policy = none
  retry_turns (suc fuel) attempt policy = elim (call attempt) [
    | value a ↦ some (returned a)
    | error exc ↦
        let cat = classify tools exc in
        let used = policy_for policy cat in
        if not used.retryable || leb used.max_attempts attempt
        then some (raised (record { category = cat; message = what ++ ": " ++ exc.text }))
        else retry_turns fuel (suc attempt) used
  ]

  -- `run_with_retries`, with the fuel that Retries shows to be enough.
  unfoldable pub run_with_retries : Option RetryPolicy → Option (Ending A ClassifiedError)
  run_with_retries policy =
      let used = or_else policy (default_policies ErrorCategory.unknown) in
      retry_turns (max used.max_attempts 5) 1 used
