-- ===== src/Examples/Providing.antt =====
-- The theorems about retries, the project's states and the providers, at small runs.
use ai_researcher_agent_loca.Prelude.{
  ℕ, ◌+◌, ◌*◌, ◌≤◌, String, Bool, true, false, Option, none, some, List, [], ◌∷◌, ◌≡◌, ◌≢◌, refl,
  arith, In, leb, str_eq, any_of,
}
use ai_researcher_agent_loca.Job.{Time}
use ai_researcher_agent_loca.Errors
use ai_researcher_agent_loca.Errors.{
  TextTools, Exception, Kind, other_error, ClassifiedError, RetryPolicy, default_policies,
  ErrorCategory,
}
use ai_researcher_agent_loca.Errors.Retries.{run_with_retries-ends}
use ai_researcher_agent_loca.Retry.{
  Ending, Attempt, error, defaulted, Settings, gives_up, run_with_retries,
}
use ai_researcher_agent_loca.Retry.Attempts.{run_with_retries-swallows}
use ai_researcher_agent_loca.StateMachine.{
  ProjectState, created, clarifying, planned, searching, converged, synthesizing, completed,
  Project, transition, can_transition, allowed,
}
use ai_researcher_agent_loca.StateMachine.Paths.{visited, completed-visited}
use ai_researcher_agent_loca.Resilience.{
  CircuitBreaker, closed, opened, TokenBucket, refill, acquire,
}
use ai_researcher_agent_loca.Budget.{Budget, exhausted, queries_left, documents_left}
use ai_researcher_agent_loca.Permissions.{
  research, PermissionEngine, Parts, is_relative_to, is_forbidden, validate_read,
}
use ai_researcher_agent_loca.Permissions.Sandbox.{IsBelow, validate_read-IsBelow}
use ai_researcher_agent_loca.Resilience.Breaker.{fail_all, fail_all-opened}
use ai_researcher_agent_loca.Resilience.Bucket.{
  Call, InOrder, after_calls, granted_calls, granted_calls-bound,
}

-- The first call fails, the later ones give 7; the exception 9 is not to be repeated.
abbrev never : ℕ → Attempt ℕ ℕ
never _ = error 9

abbrev is_mild : ℕ → Bool
is_mild exc = leb exc 8

abbrev settings : Option (ℕ → Bool) → Settings ℕ
settings test = record {
  max_attempts = 3;
  retry_on = λ e. true;
  is_retryable = test;
  raises = true;
}

run_with_retries-swallows_example : run_with_retries (settings (some is_mild)) never ≡ defaulted
unfolding gives_up
run_with_retries-swallows_example =
    run_with_retries-swallows (settings (some is_mild)) never 9 refl refl refl (omega arith)

abbrev project : ProjectState → Project
project state = record { state = state; updated_at = 0 }

abbrev calls : List (Time × ProjectState)
calls =
    (1, clarifying)
    ∷ (2, completed)
    ∷ (3, planned)
    ∷ (4, searching)
    ∷ (5, converged)
    ∷ (6, synthesizing)
    ∷ (7, completed)
    ∷ []

not_completed : created ≢ completed
not_completed e = cc

completed-visited_example : In synthesizing (visited calls (project created))
unfolding transition can_transition allowed
completed-visited_example = completed-visited calls (project created) not_completed refl

abbrev breaker : CircuitBreaker
breaker = record {
  failure_threshold = 2;
  cooldown = 60;
  state = closed;
  consecutive_failures = 0;
  opened_at = 0;
}

fail_all-opened_example : (fail_all (10 ∷ 20 ∷ []) breaker).state ≡ opened
fail_all-opened_example = fail_all-opened (10 ∷ 20 ∷ []) breaker refl refl (omega arith)

abbrev bucket : TokenBucket
bucket = record { rate = 5; burst = 2; tokens = 20; updated = 0 }

abbrev three_calls : List (Call 10)
three_calls =
    record { wait = false; timeout = 0; readings = 0 ∷ [] }
    ∷ record { wait = false; timeout = 0; readings = 0 ∷ [] }
    ∷ record { wait = true; timeout = 10; readings = 1 ∷ 3 ∷ [] }
    ∷ []

in_time : InOrder 10 three_calls bucket
unfolding acquire refill
in_time = ((omega arith, tt), ((omega arith, tt), ((omega arith, (omega arith, tt)), tt)))

granted_calls-bound_example :
    granted_calls 10 three_calls bucket * 10 + 0 * 5
    ≤ 20 + (after_calls 10 three_calls bucket).updated * 5
granted_calls-bound_example = granted_calls-bound 10 three_calls bucket in_time

abbrev researcher : PermissionEngine
researcher = record { granted = research ∷ [] }

-- A resolver for one path.
abbrev resolve : String → Parts
resolve path = "data" ∷ path ∷ []

validate_read-IsBelow_example :
    (("data" ∷ "notes.md" ∷ []) ≡ resolve "notes.md")
    × IsBelow ("data" ∷ "notes.md" ∷ []) (("data" ∷ []) ∷ [])
    × (any_of is_forbidden ("data" ∷ "notes.md" ∷ []) ≡ false)
unfolding validate_read is_relative_to is_forbidden
validate_read-IsBelow_example =
    validate_read-IsBelow resolve (("data" ∷ []) ∷ []) "notes.md" ("data" ∷ "notes.md" ∷ []) refl

-- Every call fails with a time-out.
abbrev reader : TextTools
reader = record {
  lower = λ text. text;
  has_text = λ needle text. str_eq needle text;
  find_code = λ text. none;
}

abbrev slow : ℕ → Attempt ℕ Exception
slow attempt = error (record { kind = other_error; text = "timed out" })

run_with_retries-ends_example :
    (r : Ending ℕ ClassifiedError) × (Errors.run_with_retries reader "fetch" slow
        (some (default_policies ErrorCategory.auth))
      ≡ some r)
run_with_retries-ends_example =
    run_with_retries-ends reader "fetch" slow (some (default_policies ErrorCategory.auth))

-- All ten documents are used.
abbrev spent : Budget
spent = record {
  cfg = record {
    max_queries_per_iteration = 5;
    max_iterations = 2;
    max_documents = 10;
    max_sources_total = 40;
    max_llm_calls = 100;
    max_wall_clock_minutes = 60;
  };
  usage = record {
    queries_used = 3;
    documents_used = 10;
    sources_discovered = 12;
    llm_calls_used = 7;
    iterations_used = 1;
    bytes_downloaded = 4096;
  };
  started = 0;
}

is_spent : exhausted 30 spent ≢ none
unfolding exhausted queries_left documents_left
is_spent e = cc
