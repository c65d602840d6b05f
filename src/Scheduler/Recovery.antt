-- ===== src/Scheduler/Recovery.antt =====
-- `reconcile` of scheduler.py: the recovery at startup.
use ai_researcher_agent_loca.Prelude.{
  ℕ, suc, ◌+◌, Bool, true, false, not, ◌&&◌, none, some, List, [], ◌∷◌, map, length, select, any_of,
  if◌then◌else◌,
}
use ai_researcher_agent_loca.Job.{
  Time, JobStatus, TaskStatus, CompletionReason, ResearchJob, JobTask, is_held, is_active_status,
  lease_expired,
}
use ai_researcher_agent_loca.PlatformDb.Jobs.{incomplete_jobs}
use ai_researcher_agent_loca.PlatformDb.Tasks.{tasks_for_job}
use ai_researcher_agent_loca.Scheduler.State.{Scheduler, store_job, store_task, for_each}

pub record Actions : Type 0 where
  pub stale_reclaimed : ℕ
  pub jobs_resumed : ℕ
  pub dead_lettered : ℕ

unfoldable pub reclaimed : JobTask → JobTask
reclaimed task = record task { status = TaskStatus.queued; worker_id = ""; lease_expires_at = none }

-- The task object after the loop over the stale ones, which changes it in place.
unfoldable pub after_reclaim : Time → JobTask → JobTask
after_reclaim now task = if lease_expired task now then reclaimed task else task

unfoldable pub is_dead_letter : TaskStatus → Bool
is_dead_letter TaskStatus.dead_letter = true
is_dead_letter _ = false

-- `status in (QUEUED, RETRYING, RUNNING, CLAIMED)`
unfoldable pub is_pending : TaskStatus → Bool
is_pending TaskStatus.queued = true
is_pending TaskStatus.retrying = true
is_pending TaskStatus.running = true
is_pending TaskStatus.claimed = true
is_pending _ = false

abbrev pub is_empty : {A : Type 0} → List A → Bool
is_empty [] = true
is_empty (x ∷ xs) = false

-- `fresh_running`: the test runs on the objects that the reclaim has changed.
unfoldable pub fresh_running : Time → List JobTask → List JobTask
fresh_running now tasks =
    select (λ t. not (lease_expired t now))
      (map (after_reclaim now) (select (λ t. is_held t.status) tasks))

unfoldable pub stale_running : Time → List JobTask → List JobTask
stale_running now tasks = select (λ t. lease_expired t now) (select (λ t. is_held t.status) tasks)

-- What becomes of the job once its stale tasks have been reclaimed.
unfoldable pub settle_job :
    Time → ResearchJob → List JobTask → Actions × Scheduler → Actions × Scheduler
settle_job now job tasks (actions, s) =
    if not (is_active_status job.status && is_empty (fresh_running now tasks))
    then (actions, s)
    else let seen = map (after_reclaim now) tasks in
      if any_of (λ t. is_dead_letter t.status) seen && not (any_of (λ t. is_pending t.status) seen)
      then (
        record actions { dead_lettered = suc actions.dead_lettered },
        store_job now
            (record job {
              status = JobStatus.failed;
              completion_reason = some CompletionReason.failed;
              completed_at = some now;
            })
            s,
      )
      else (
        record actions { jobs_resumed = suc actions.jobs_resumed },
        store_job now (record job { status = JobStatus.queued }) s,
      )

unfoldable pub reconcile_job : Time → ResearchJob → Actions × Scheduler → Actions × Scheduler
reconcile_job now job (actions, s) =
    let tasks = tasks_for_job job.id s.db in
    let stale = stale_running now tasks in
    settle_job now job tasks (
      record actions { stale_reclaimed = actions.stale_reclaimed + length stale },
      for_each (λ t. store_task now (reclaimed t)) stale s,
    )

unfoldable pub reconcile_each : Time → List ResearchJob → Actions × Scheduler → Actions × Scheduler
reconcile_each now [] state = state
reconcile_each now (job ∷ jobs) state = reconcile_each now jobs (reconcile_job now job state)

unfoldable pub reconcile : Time → Scheduler → Actions × Scheduler
reconcile now s =
    reconcile_each now (incomplete_jobs s.db)
      (record { stale_reclaimed = 0; jobs_resumed = 0; dead_lettered = 0 }, s)
