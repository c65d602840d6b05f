-- ===== src/Scheduler/Control.antt =====
-- submit_job, pause_job, resume_job and cancel_job of scheduler.py.
use ai_researcher_agent_loca.Prelude.{
  String, Bool, true, false, Option, none, some, List, all_of, str_eq, min, if◌then◌else◌,
}
use ai_researcher_agent_loca.Job.{
  Time, JobStatus, TaskStatus, CompletionReason, ResearchJob, JobTask, is_terminal,
}
use ai_researcher_agent_loca.PlatformDb.Rows.{Db}
use ai_researcher_agent_loca.PlatformDb.Jobs.{get_job}
use ai_researcher_agent_loca.PlatformDb.Tasks.{tasks_for_job}
use ai_researcher_agent_loca.Scheduler.State.{
  Scheduler, pause, cancel, set_control, publish, store_job, store_task, for_each,
}

unfoldable pub is_completed : JobStatus → Bool
is_completed JobStatus.completed = true
is_completed _ = false

-- `(d := db.get_job(dep)) is not None and d.status == COMPLETED`
unfoldable pub is_met : Db → String → Bool
is_met db dep = elim (get_job dep db) [ none ↦ false | some job ↦ is_completed job.status ]

unfoldable pub deps_met : Db → ResearchJob → Bool
deps_met db job = all_of (is_met db) job.depends_on

-- A task as `submit_job` stores it: of this job, and at least as urgent.
unfoldable pub adopted : ResearchJob → JobTask → JobTask
adopted job task = record task {
  job_id = job.id;
  project_id = if str_eq task.project_id "" then job.project_id else task.project_id;
  priority = min task.priority job.priority;
}

unfoldable pub submit_job : Time → ResearchJob → List JobTask → Scheduler → ResearchJob × Scheduler
submit_job now job tasks s =
    let submitted = record job {
      status = if deps_met s.db job then JobStatus.queued else JobStatus.blocked;
      updated_at = now;
    } in
    (
      submitted,
      publish "JobQueued" submitted
          (for_each (λ t. store_task now (adopted submitted t)) tasks (store_job now submitted s)),
    )

-- `job.status in (QUEUED, BLOCKED, WAITING_FOR_USER)`
unfoldable pub pauses_at_once : JobStatus → Bool
pauses_at_once JobStatus.queued = true
pauses_at_once JobStatus.blocked = true
pauses_at_once JobStatus.waiting_for_user = true
pauses_at_once _ = false

unfoldable pub pause_job : Time → String → Scheduler → Bool × Scheduler
pause_job now job_id s = elim (get_job job_id s.db) [
  | none ↦ (false, s)
  | some job ↦ if is_terminal job then (false, s) else (
    true,
    store_job now
        (record job {
          status = if pauses_at_once job.status then JobStatus.paused else JobStatus.pausing;
        })
        (set_control job_id (some pause) s),
  )
]

-- RETRYING and CREATED tasks are queued again.
unfoldable pub is_resumable : TaskStatus → Bool
is_resumable TaskStatus.retrying = true
is_resumable TaskStatus.created = true
is_resumable _ = false

unfoldable pub requeue_waiting : Time → JobTask → Scheduler → Scheduler
requeue_waiting now task s =
    if is_resumable task.status
    then store_task now (record task { status = TaskStatus.queued }) s
    else s

unfoldable pub is_paused : JobStatus → Bool
is_paused JobStatus.paused = true
is_paused _ = false

unfoldable pub resume_job : Time → String → Scheduler → Option ResearchJob × Scheduler
resume_job now job_id s = elim (get_job job_id s.db) [
  | none ↦ (none, s)
  | some job ↦
      let cleared = set_control job_id none s in
      if is_paused job.status
      then (let resumed = record job { status = JobStatus.resuming; updated_at = now } in
          let stored = store_job now resumed cleared in
          (some resumed, for_each (requeue_waiting now) (tasks_for_job job_id stored.db) stored))
      else (some job, cleared)
]

-- A task is cancelled unless it SUCCEEDED or is in DEAD_LETTER.
unfoldable pub is_over : TaskStatus → Bool
is_over TaskStatus.succeeded = true
is_over TaskStatus.dead_letter = true
is_over _ = false

unfoldable pub cancel_task : Time → JobTask → Scheduler → Scheduler
cancel_task now task s =
    if is_over task.status
    then s
    else store_task now (record task { status = TaskStatus.cancelled }) s

unfoldable pub cancelled : Time → ResearchJob → ResearchJob
cancelled now job = record job {
  status = JobStatus.cancelled;
  completion_reason = some CompletionReason.user_stopped;
  completed_at = some now;
}

unfoldable pub cancel_job : Time → String → Scheduler → Bool × Scheduler
cancel_job now job_id s = elim (get_job job_id s.db) [
  | none ↦ (false, s)
  | some job ↦
      if is_terminal job
      then (false, s)
      else (let stored = store_job now (cancelled now job) (set_control job_id (some cancel) s) in
          (
            true,
            publish "JobFinished" (cancelled now job)
                (for_each (cancel_task now) (tasks_for_job job_id stored.db) stored),
          ))
]
