-- ===== src/PlatformDb/Ownership.antt =====
-- The fenced operations of platform_db.py: heartbeat, finish_task, release_task.
-- A failing operation raises `StaleTaskOwner` and leaves the database as it was.
use Prim.Native.String.{[], ◌∷◌}
use ai_researcher_agent_loca.Prelude.{
  ℕ, zero, suc, ◌+◌, String, Bool, true, false, not, ◌&&◌, Option, none, some, List, str_eq, leb,
  ◌==◌, or_else, if◌then◌else◌,
}
use ai_researcher_agent_loca.Prelude.Table.{update_row}
use ai_researcher_agent_loca.Job.{Time, Dict, TaskStatus, JobTask, is_held}
use ai_researcher_agent_loca.PlatformDb.Rows.{TaskRow, Db, update_tasks, matches_task}
use ai_researcher_agent_loca.PlatformDb.Tasks.{get_task}

pub data StaleReason : Type 0 where
  already_terminal : TaskStatus → StaleReason
  owned_by_another fence_mismatch lost_before_write not_the_owner : StaleReason

pub record StaleTaskOwner : Type 0 where
  pub task_id : String
  pub worker_id : String
  pub expected_fence : ℕ
  pub received_fence : Option ℕ
  pub reason : StaleReason

pub data Outcome (A : Type 0) : Type 0 where
  returned : A → Outcome A
  raised : StaleTaskOwner → Outcome A

-- `fence is None or attempts == fence`
abbrev pub fence_fits : Option ℕ → ℕ → Bool
fence_fits none attempts = true
fence_fits (some fence) attempts = attempts == fence

-- The WHERE clause `status IN ('CLAIMED','RUNNING') AND worker_id = ?`.
unfoldable pub is_held_by : String → TaskRow → Bool
unfolding is_held
is_held_by worker_id r = is_held r.status && str_eq r.content.worker_id worker_id

-- The WHERE clause of the heartbeat, with its fence.
unfoldable pub beats_for : String → Option ℕ → TaskRow → Bool
unfolding is_held_by
beats_for worker_id fence r = is_held_by worker_id r && fence_fits fence r.content.attempts

-- The two UPDATEs: `heartbeat_at` in the stored model, the lease in its column only.
unfoldable pub beat : Time → Time → TaskRow → TaskRow
beat lease now r = record r {
  content = record r.content { heartbeat_at = some now };
  updated_at = now;
  lease_expires_at = some (now + lease);
}

unfoldable pub heartbeat : String → String → Time → Option ℕ → Time → Db → Bool × Db
unfolding beats_for beat update_row
heartbeat task_id worker_id lease fence now db =
    if matches_task task_id (beats_for worker_id fence) db
    then (true, update_tasks task_id (beats_for worker_id fence) (beat lease now) db)
    else (false, db)

-- `text[:n]`
unfoldable pub first_chars : ℕ → String → String
first_chars zero text = []
first_chars (suc n) [] = []
first_chars (suc n) (c ∷ text) = c ∷ first_chars n text

-- The arguments of `finish_task` behind the task's id and the worker's.
pub record Report : Type 0 where
  pub ok : Bool
  pub result : Option Dict
  pub error : String
  pub error_category : String
  pub fence : Option ℕ

unfoldable pub finished_status : Bool → (attempts max_attempts : ℕ) → TaskStatus
finished_status true attempts max_attempts = TaskStatus.succeeded
finished_status false attempts max_attempts =
    if leb max_attempts attempts then TaskStatus.dead_letter else TaskStatus.retrying

unfoldable pub finished : Report → Time → JobTask → JobTask
unfolding finished_status first_chars
finished report now task = record task {
  updated_at = now;
  result = or_else report.result List.[];
  error = first_chars 500 report.error;
  error_category = report.error_category;
  lease_expires_at = none;
  status = finished_status report.ok task.attempts task.max_attempts;
}

-- The three checks on the task as it was read.
unfoldable pub check_owner : String → String → Option ℕ → JobTask → Option StaleReason
unfolding is_held
check_owner task_id worker_id fence current =
    if not (is_held current.status)
    then some (already_terminal current.status)
    else if not (str_eq current.worker_id worker_id)
    then some owned_by_another
    else if not (fence_fits fence current.attempts)
    then some fence_mismatch
    else none

-- The conditional UPDATE that `finish_task` and `release_task` share.
unfoldable pub store_task : JobTask → Time → TaskRow → TaskRow
store_task task now r = record r {
  status = task.status;
  content = task;
  lease_expires_at = task.lease_expires_at;
  updated_at = now;
}

unfoldable pub stale : String → String → JobTask → Option ℕ → StaleReason → StaleTaskOwner
stale task_id worker_id current fence reason = record {
  task_id = task_id;
  worker_id = worker_id;
  expected_fence = current.attempts;
  received_fence = fence;
  reason = reason;
}

-- The write of `finish_task`, in a transaction of its own: other writers may come between.
unfoldable pub finish_write :
    String → String → Report → Time → JobTask → Db → Outcome (Option JobTask) × Db
unfolding is_held_by finished store_task stale update_row
finish_write task_id worker_id report now current db =
    let task = finished report now current in
    if matches_task task_id (is_held_by worker_id) db
    then (
      returned (some task),
      update_tasks task_id (is_held_by worker_id) (store_task task now) db,
    )
    else (raised (stale task_id worker_id current report.fence lost_before_write), db)

unfoldable pub finish_task : String → String → Report → Time → Db → Outcome (Option JobTask) × Db
unfolding get_task check_owner stale finish_write
finish_task task_id worker_id report now db = elim (get_task task_id db) [
  | none ↦ (returned none, db)
  | some current ↦ elim (check_owner task_id worker_id report.fence current) [
    | some reason ↦ (raised (stale task_id worker_id current report.fence reason), db)
    | none ↦ finish_write task_id worker_id report now current db
  ]
]

unfoldable pub released : Time → JobTask → JobTask
released now task = record task {
  status = TaskStatus.queued;
  lease_expires_at = none;
  updated_at = now;
}

unfoldable pub release_task : String → String → Option ℕ → Time → Db → Outcome Bool × Db
unfolding get_task stale is_held_by released store_task update_row
release_task task_id worker_id fence now db = elim (get_task task_id db) [
  | none ↦ (returned false, db)
  | some current ↦
      if not (str_eq current.worker_id worker_id && fence_fits fence current.attempts)
      then (raised (stale task_id worker_id current fence not_the_owner), db)
      else (
        returned (matches_task task_id (is_held_by worker_id) db),
        update_tasks task_id (is_held_by worker_id) (store_task (released now current) now) db,
      )
]
