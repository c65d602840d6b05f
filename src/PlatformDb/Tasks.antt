-- ===== src/PlatformDb/Tasks.antt =====
-- The operations of platform_db.py on the `tasks` table that need no ownership.
use ai_researcher_agent_loca.Prelude.{
  ℕ, String, Bool, true, false, ◌&&◌, Option, none, some, List, map, map_option, select, sort_by,
  count_where, str_eq, leb, ltb,
}
use ai_researcher_agent_loca.Prelude.Table.{upsert_row, update_row}
use ai_researcher_agent_loca.Job.{Time, TaskStatus, JobTask, is_held, is_past}
use ai_researcher_agent_loca.PlatformDb.Rows.{TaskRow, Db, task_key, task_row, update_tasks}

unfoldable pub row_of_task : JobTask → TaskRow
row_of_task task = record {
  id = task.id;
  job_id = task.job_id;
  idempotency_key = task.idempotency_key;
  status = task.status;
  priority = task.priority;
  resource_profile = task.resource_profile;
  content = task;
  lease_expires_at = task.lease_expires_at;
  created_at = task.created_at;
  updated_at = task.updated_at;
}

-- CREATED becomes QUEUED before the row is written.
unfoldable pub queued_if_created : TaskStatus → TaskStatus
queued_if_created TaskStatus.created = TaskStatus.queued
queued_if_created status = status

-- ON CONFLICT(id) DO UPDATE
unfoldable pub merge_task : TaskRow → TaskRow → TaskRow
merge_task new old = record old {
  status = new.status;
  content = new.content;
  updated_at = new.updated_at;
  lease_expires_at = new.lease_expires_at;
}

-- The row that `add_task` writes.
unfoldable pub written : Time → JobTask → TaskRow
unfolding row_of_task queued_if_created
written now task =
    row_of_task (record task { status = queued_if_created task.status; updated_at = now })

-- `add_task`, and `update_task`, which calls it.
unfoldable pub add_task : Time → JobTask → Db → Db
unfolding written merge_task upsert_row
add_task now task db = record db {
  tasks = upsert_row task_key (merge_task (written now task)) (written now task) db.tasks;
}

unfoldable pub get_task : String → Db → Option JobTask
get_task task_id db = map_option (λ r. r.content) (task_row task_id db)

-- `requeue_task` on a task that is there.
unfoldable pub requeued : Time → JobTask → JobTask
requeued now task = record task {
  status = TaskStatus.queued;
  attempts = 0;
  worker_id = "";
  lease_expires_at = none;
  updated_at = now;
}

unfoldable pub write_requeue : Time → JobTask → TaskRow → TaskRow
write_requeue now task r = record r {
  status = task.status;
  content = task;
  lease_expires_at = none;
  updated_at = now;
}

unfoldable pub requeue_task : Time → String → Db → Option JobTask × Db
unfolding get_task requeued write_requeue update_row
requeue_task now task_id db = elim (get_task task_id db) [
  | none ↦ (none, db)
  | some current ↦
      let task = requeued now current in
      (some task, update_tasks task_id (λ r. true) (write_requeue now task) db)
]

-- SELECT … WHERE job_id = ? ORDER BY created_at
unfoldable pub tasks_for_job : String → Db → List JobTask
unfolding sort_by
tasks_for_job job_id db =
    map (λ r. r.content)
      (sort_by (λ a b. leb a.created_at b.created_at)
        (select (λ r. str_eq r.job_id job_id) db.tasks))

-- `task_status_counts_for_job(job_id).get(status, 0)`, for a test on the status.
unfoldable pub status_count : String → (TaskStatus → Bool) → Db → ℕ
status_count job_id has_status db =
    count_where (λ r. str_eq r.job_id job_id && has_status r.status) db.tasks

-- `status IN ('CREATED','QUEUED','RETRYING')`
unfoldable pub awaits_run : TaskStatus → Bool
awaits_run TaskStatus.created = true
awaits_run TaskStatus.queued = true
awaits_run TaskStatus.retrying = true
awaits_run _ = false

unfoldable pub has_queued_tasks : String → Db → Bool
unfolding status_count awaits_run
has_queued_tasks job_id db = ltb 0 (status_count job_id awaits_run db)

-- `cutoff` is the current time less `older_than_s`.
unfoldable pub stale_tasks : Time → Db → List JobTask
unfolding is_held
stale_tasks cutoff db =
    map (λ r. r.content)
      (select (λ r. is_held r.status && is_past r.lease_expires_at cutoff) db.tasks)
