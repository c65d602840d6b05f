-- ===== src/Lib.antt =====
-- A verification library for the research engine's platform: jobs and tasks that several worker
-- threads and processes share through one SQLite database, the scheduler that drives them, and the
-- research loop that a job runs, with its events, reviews, cache and watchers.
--
-- Parts, from the bottom:
-- - Job: src/research_engine/models/job.py, the records `ResearchJob` and `JobTask`, their
--   statuses and the tests on them.
-- - Errors: src/research_engine/platform/errors.py, the categories of failures, `classify`,
--   the retry policies and `run_with_retries`; Retries below it holds proofs.
-- - PlatformDb: src/research_engine/storage/platform_db.py. Rows holds the two tables, Jobs the
--   operations on jobs, Tasks those on tasks, Claim `claim_next_task`, and Ownership `heartbeat`,
--   `finish_task` and `release_task`. The other modules below it are proofs: Selection (what a
--   claim takes), Soundness (the invariant), Fencing and History (the token, over sequences of operations), Rejection
--   (late writers), Finishing (reports), Caps (limits per profile), Absorbing and Settled (ended
--   jobs and tasks), Divergence (where the columns or the token part from what is documented).
-- - Scheduler: src/research_engine/platform/scheduler.py. State holds the configuration, the
--   control flags and the events, Control submit_job, pause_job, resume_job and cancel_job,
--   Recovery `reconcile`, Advance `_advance_jobs` and its helpers, Worker `_execute` and
--   `_worker_loop`. JobTable is the contract of the requests to pause, resume and cancel a job, and
--   Views and Requests show that they keep it. Stable, Turns, Safety, Cancelling, Pausing, Execution,
--   Reclaiming and Recovering are proofs.
-- - Retry: src/research_engine/core/retry.py, `run_with_retries`; Attempts below it holds proofs.
-- - StateMachine: src/research_engine/core/state_machine.py, the table of transitions and
--   `transition`; Paths below it holds proofs.
-- - Resilience: src/research_engine/platform/resilience.py, `CircuitBreaker`,
--   `TokenBucketRateLimiter`, `DomainRateLimits` and `FailoverExecutor`; Breaker, Bucket and
--   Failover below it hold proofs.
-- - Permissions: src/research_engine/security/permissions.py, the engine of permissions, the
--   registry of tools and the sandbox of paths; Grants and Sandbox below it hold proofs.
-- - Budget: src/research_engine/core/budget.py, `Budget`; Exhaustion below it holds proofs.
-- - Convergence: src/research_engine/reasoning/convergence.py, `ConvergenceAnalyzer.evaluate`;
--   Signals below it holds proofs.
-- - Orchestrator: src/research_engine/core/orchestrator.py and src/research_engine/engines/runner.py.
--   Its own file holds the state of a project while it runs, the gates, the pauses and the cursor,
--   Phases the phases, Loop `run_orchestrated`, Control `run` and `resume`, StopWhen the stop
--   conditions of a manifest, Runner `LoopRunner.run`, and CursorResume `resume_cursor`. Proofs:
--   Hoare (what holds at the end of a call), Steps (the phases), Rounds, Looping and Running (a
--   run), Resuming and Interrupted (`resume`, and runs that were cut off), Gates and Reports (the
--   review gates), Cursors and CursorMoves (the cursor).
-- - Events: src/research_engine/platform/events.py, `EventBus` and `EventPersister`; Queues and
--   Counting below it hold proofs.
-- - Review: src/research_engine/services/review_service.py with models/review.py and
--   storage/review_repos.py; Verdicts below it holds proofs.
-- - Cache: src/research_engine/storage/cache.py, `KVCache`; Expiry below it holds proofs.
-- - Watchers: src/research_engine/platform/watchers.py and the watchers' table of
--   storage/platform_db.py; Changes and Ticks below it hold proofs.
-- - Questions: src/research_engine/pipeline/questions.py, `filter_valid_questions`; Gate below it holds
--   proofs.
-- - JobRunners: src/research_engine/platform/job_runners.py, the runner of deep research; Research
--   below it holds proofs.
-- - Examples: sample data, tests, and each theorem with hypotheses at concrete data.
-- - Prelude: Boolean tests, lists, tables keyed by a text, association lists, and
--   the latest element of a list.
--
-- The database is a record of two lists of rows, and an operation takes it to the next one: each
-- operation is one step. SQLite runs each UPDATE and the whole of a claim as a transaction, but
-- `finish_task`, `release_task` and `requeue_task` read the task before theirs, and the operations of
-- the scheduler consist of several. What another writer does in between is modelled for the
-- execution of a task only; a finding describes the race in `finish_task`.
-- An `INSERT … ON CONFLICT` is `upsert_row`, an
-- `UPDATE … WHERE` is `update_row`. A row's `data` column is the job or task itself: that JSON
-- gives back what was written is taken for granted. ORDER BY keeps rows that are equal in the order
-- of their insertion. Times are numbers in ISO order; an operation that reads the clock takes the
-- time as an argument and reads it once. Durations are natural numbers, so a lease is never
-- negative. Strings of the enumerations are constructors, and priorities are natural numbers.
--
-- A worker's execution of a task meets others: the heartbeats of the renewal thread come one by one,
-- and before each of them any function may change the database (`Beat.others`). The runner of a
-- task type is a function to a result or an exception. The functions of the Python library that
-- `classify` uses, and the random trace ids, are parameters. The functions are
-- structural recursions, and the worker loop is modelled by its turns. Only `run_with_retries` of
-- errors.py runs on fuel, the larger of 5 and the attempts of its policy: no default policy
-- allows more than 5, and Errors/Retries shows that this is enough. The loop of `run_orchestrated`
-- has the source's own guard of 200 rounds as its fuel, which is enough for up to 99 iterations. The
-- loop of `LoopRunner.run` recurses on the iterations that are left.
--
-- The orchestrator's project is one object that the phases change: a call takes the state and comes to
-- `done` with a value and the state after it, or to `raised` with the state at the exception. A phase
-- takes what the workers, the model and the repositories answer as a record, and a run takes a record
-- for each round, with the requests to stop or pause that came in before it.
--
-- Exceptions are values of the outcome types. `all_failed` and others hold an exception's parts
-- in place of its formatted text.
--
-- Not modelled: threads and waiting, metrics, logs, incident records, the tables of events, incidents
-- and model evaluations, the connections of SQLite, what the phases of the orchestrator store beside
-- the state of the project, and the rest of the application (the workers of the pipeline, the
-- reasoning over language models, the loading of engines, providers, reports and interfaces), which
-- is mostly calls of services over the network, prompts and formatted text.
pub mod Prelude
pub mod Job
pub mod Errors
pub mod PlatformDb
pub mod Scheduler
pub mod Retry
pub mod Events
pub mod StateMachine
pub mod Questions
pub mod Resilience
pub mod Permissions
pub mod Budget
pub mod Convergence
pub mod Orchestrator
pub mod Review
pub mod Cache
pub mod Watchers
pub mod JobRunners
pub mod Examples
