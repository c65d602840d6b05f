-- ===== src/Scheduler/Advance.antt =====
-- How scheduler.py moves jobs forward: _active_deep_jobs, _promote_blocked,
-- _maybe_start_queued_job, _advance_jobs and _advance_one.
use ai_researcher_agent_loca.Prelude.{
  ℕ, String, Bool, true, false, not, ◌&&◌, ◌||◌, Option, none, some, count_where, str_eq, ltb, leb,
  ◌==◌, or_else, if◌then◌else◌,
}
use ai_researcher_agent_loca.Job.{
  Time, JobStatus, TaskStatus, CompletionReason, Progress, ResearchJob, is_terminal, is_held,
}
use ai_researcher_agent_loca.PlatformDb.Rows.{Db}
use ai_researcher_agent_loca.PlatformDb.Jobs.{get_job, list_jobs, list_jobs_with}
use ai_researcher_agent_loca.PlatformDb.Tasks.{status_count}
use ai_researcher_agent_loca.Scheduler.State.{Scheduler, publish, store_job, for_each}
use ai_researcher_agent_loca.Scheduler.Control.{deps_met}
use ai_researcher_agent_loca.Scheduler.Recovery.{is_dead_letter, is_pending}

-- `type in ("deep_research", "incremental_update")`, and with "experiment"
unfoldable pub is_research : String → Bool
is_research type = str_eq type "deep_research" || str_eq type "incremental_update"

unfoldable pub is_deep : String → Bool
is_deep type = is_research type || str_eq type "experiment"

-- `status in (RUNNING, STARTING, RESUMING, COMPLETING)`
unfoldable pub takes_slot : JobStatus → Bool
takes_slot JobStatus.running = true
takes_slot JobStatus.starting = true
takes_slot JobStatus.resuming = true
takes_slot JobStatus.completing = true
takes_slot _ = false

unfoldable pub active_deep_jobs : Db → ℕ
active_deep_jobs db = count_where (λ j. is_deep j.type && takes_slot j.status) (list_jobs db)

unfoldable pub is_blocked : JobStatus → Bool
is_blocked JobStatus.blocked = true
is_blocked _ = false

unfoldable pub promote : Time → ResearchJob → Scheduler → Scheduler
promote now job s =
    if deps_met s.db job then store_job now (record job { status = JobStatus.queued }) s else s

unfoldable pub promote_blocked : Time → Scheduler → Scheduler
promote_blocked now s = for_each (promote now) (list_jobs_with is_blocked s.db) s

-- The job limit holds a research job back.
unfoldable pub is_crowded : ResearchJob → Scheduler → Bool
is_crowded job s = is_research job.type && leb s.cfg.max_jobs (active_deep_jobs s.db)

-- The fields that `_maybe_start_queued_job` sets; `fresh_trace` is a new random id.
unfoldable pub started : Time → String → ResearchJob → ResearchJob
started now fresh_trace job = record job {
  status = JobStatus.running;
  started_at = some (or_else job.started_at now);
  trace_id = if str_eq job.trace_id "" then fresh_trace else job.trace_id;
}

-- The job object is changed in place only if the answer is true.
unfoldable pub maybe_start_queued_job :
    Time → String → ResearchJob → Scheduler → Bool × ResearchJob × Scheduler
maybe_start_queued_job now fresh_trace job s =
    if is_crowded job s
    then (false, job, s)
    else let running = started now fresh_trace job in
      (true, running, publish "JobStarted" running (store_job now running s))

-- How many tasks of a job are in each group of statuses.
pub record Counts : Type 0 where
  pub total : ℕ
  pub queued : ℕ
  pub dead : ℕ
  pub done : ℕ
  pub active : ℕ

unfoldable pub is_succeeded : TaskStatus → Bool
is_succeeded TaskStatus.succeeded = true
is_succeeded _ = false

unfoldable pub counts_of : String → Db → Counts
counts_of job_id db = record {
  total = status_count job_id (λ t. true) db;
  queued = status_count job_id is_pending db;
  dead = status_count job_id is_dead_letter db;
  done = status_count job_id is_succeeded db;
  active = status_count job_id is_held db;
}

-- `status in (RUNNING, PAUSING, QUEUED, RESUMING, COMPLETING)`
unfoldable pub is_movable : JobStatus → Bool
is_movable JobStatus.running = true
is_movable JobStatus.pausing = true
is_movable JobStatus.queued = true
is_movable JobStatus.resuming = true
is_movable JobStatus.completing = true
is_movable _ = false

unfoldable pub is_pausing : JobStatus → Bool
is_pausing JobStatus.pausing = true
is_pausing _ = false

-- `status in (QUEUED, RESUMING)`
unfoldable pub awaits_start : JobStatus → Bool
awaits_start JobStatus.queued = true
awaits_start JobStatus.resuming = true
awaits_start _ = false

-- `status in (RUNNING, COMPLETING)`
unfoldable pub is_finishing : JobStatus → Bool
is_finishing JobStatus.running = true
is_finishing JobStatus.completing = true
is_finishing _ = false

unfoldable pub same_progress : Option Progress → Progress → Bool
same_progress none new = false
same_progress (some old) new =
    old.done == new.done && (old.queued == new.queued && old.dead_letter == new.dead_letter)

-- The final status of a job none of whose tasks is waiting or running.
unfoldable pub concluded : Time → Counts → ResearchJob → ResearchJob
concluded now counts job =
    if ltb 0 counts.dead && not (ltb 0 counts.done)
    then record job {
      status = JobStatus.failed;
      completion_reason = some CompletionReason.failed;
      completed_at = some now;
    }
    else if ltb 0 counts.dead
    then record job {
      status = JobStatus.failed_partial;
      completion_reason = some CompletionReason.failed;
      completed_at = some now;
    }
    else record job {
      status = JobStatus.completed;
      completion_reason = some (or_else job.completion_reason CompletionReason.converged);
      completed_at = some now;
    }

-- The end of the loop body: progress while tasks are waiting or running, and then the conclusion.
unfoldable pub move_on : Time → Counts → ResearchJob → Scheduler → Scheduler
move_on now counts job s =
    if ltb 0 counts.queued
    then (let progress : Progress = record {
      done = counts.done;
      queued = counts.queued;
      dead_letter = counts.dead;
    } in
        if same_progress job.progress progress
        then s
        else store_job now (record job { progress = some progress }) s)
    else if is_finishing job.status
    then (let final = concluded now counts job in
        publish (if str_eq job.type "deep_research" then "ResearchCompleted" else "JobFinished")
          final (store_job now final s))
    else s

-- The loop body from the start of a waiting job on. `trace_for` gives each job's random id.
unfoldable pub start_or_move :
    Time → (String → String) → Counts → ResearchJob → Scheduler → Scheduler
start_or_move now trace_for counts job s =
    if not (awaits_start job.status)
    then move_on now counts job s
    else if is_crowded job s
    then s
    else if not (deps_met s.db job)
    then store_job now (record job { status = JobStatus.blocked }) s
    else let (answer, running, s') = maybe_start_queued_job now (trace_for job.id) job s in
      move_on now counts running s'

-- One turn of the loop of `_advance_jobs`.
unfoldable pub advance_job : Time → (String → String) → ResearchJob → Scheduler → Scheduler
advance_job now trace_for job s =
    let counts = counts_of job.id s.db in
    if not (is_movable job.status)
    then s
    else if counts.total == 0 && not (is_research job.type || str_eq job.type "watcher_tick")
    then s
    else if is_pausing job.status && not (ltb 0 counts.active)
    then (let paused = record job { status = JobStatus.paused } in
        store_job now paused (publish "ResearchPaused" paused s))
    else start_or_move now trace_for counts job s

-- `_advance_jobs`; with a filter, only the job with that id.
unfoldable pub advance_jobs : Time → (String → String) → Option String → Scheduler → Scheduler
advance_jobs now trace_for none s = for_each (advance_job now trace_for) (list_jobs s.db) s
advance_jobs now trace_for (some job_id) s =
    for_each (λ job t. if str_eq job.id job_id then advance_job now trace_for job t else t)
      (list_jobs s.db) s

unfoldable pub advance_one : Time → (String → String) → String → Scheduler → Scheduler
advance_one now trace_for job_id s = elim (get_job job_id s.db) [
  | none ↦ s
  | some job ↦ if is_terminal job then s else advance_jobs now trace_for (some job.id) s
]
