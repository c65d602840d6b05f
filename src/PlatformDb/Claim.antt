-- ===== src/PlatformDb/Claim.antt =====
-- `claim_next_task` of platform_db.py: one transaction under the lock.
use Prim.Native.Nat.{suc}
use ai_researcher_agent_loca.Prelude.{
  ℕ, ◌+◌, String, Bool, true, false, not, ◌&&◌, ◌||◌, Option, none, some, List, [], ◌∷◌, head?,
  select, sort_by, any_of, count_where, str_eq, str_leb, leb, ltb, if◌then◌else◌,
}
use ai_researcher_agent_loca.Prelude.Table.{update_row}
use ai_researcher_agent_loca.Job.{Time, JobStatus, TaskStatus, JobTask, is_held, is_ready, is_past}
use ai_researcher_agent_loca.PlatformDb.Rows.{JobRow, TaskRow, Db, update_tasks, in_order}

-- `lease_expires_at > now`, false for NULL
abbrev pub is_future : Option Time → Time → Bool
is_future none now = false
is_future (some t) now = ltb now t

-- A task that counts against the cap of its profile.
unfoldable pub is_live : String → Time → TaskRow → Bool
unfolding is_held
is_live profile now r =
    str_eq r.resource_profile profile && (is_held r.status && is_future r.lease_expires_at now)

unfoldable pub running_count : String → Time → Db → ℕ
unfolding is_live
running_count profile now db = count_where (is_live profile now) db.tasks

-- Jobs in these statuses hold their tasks back.
unfoldable pub withholds : JobStatus → Bool
withholds JobStatus.pausing = true
withholds JobStatus.paused = true
withholds JobStatus.blocked = true
withholds JobStatus.waiting_for_user = true
withholds _ = false

unfoldable pub is_withheld : String → List JobRow → Bool
unfolding withholds
is_withheld job_id jobs = any_of (λ j. str_eq j.id job_id && withholds j.status) jobs

unfoldable pub is_claimable : String → Time → List JobRow → TaskRow → Bool
unfolding is_withheld is_held is_ready
is_claimable profile now jobs r =
    str_eq r.resource_profile profile
    && (not (is_withheld r.job_id jobs)
        && (is_ready r.status || (is_held r.status && is_past r.lease_expires_at now)))

unfoldable pub task_before : TaskRow → TaskRow → Bool
unfolding in_order
task_before a b = in_order a.priority a.created_at b.priority b.created_at

-- ORDER BY priority ASC, created_at ASC LIMIT 1
unfoldable pub next_row : String → Time → Db → Option TaskRow
unfolding is_claimable task_before sort_by
next_row profile now db =
    head? (sort_by task_before (select (is_claimable profile now db.jobs) db.tasks))

-- The claim bumps `attempts`, the fencing token.
unfoldable pub claimed : String → Time → Time → JobTask → JobTask
claimed worker_id lease now task = record task {
  status = TaskStatus.running;
  worker_id = worker_id;
  attempts = suc task.attempts;
  updated_at = now;
  lease_expires_at = some (now + lease);
  heartbeat_at = some now;
}

-- The statuses that the UPDATE of a claim accepts.
unfoldable pub is_open : TaskStatus → Bool
is_open TaskStatus.created = true
is_open TaskStatus.queued = true
is_open TaskStatus.retrying = true
is_open TaskStatus.claimed = true
is_open TaskStatus.running = true
is_open _ = false

unfoldable pub write_claim : Time → Time → JobTask → TaskRow → TaskRow
write_claim lease now task r = record r {
  status = TaskStatus.running;
  content = task;
  lease_expires_at = some (now + lease);
  updated_at = now;
}

-- One turn of the loop over the profiles.
unfoldable pub claim_from :
    String → Time → Time → (profile : String) (limit : ℕ) → Db → Option (JobTask × Db)
unfolding running_count next_row claimed is_open write_claim update_row
claim_from worker_id lease now profile limit db =
    if leb limit (running_count profile now db) then none else elim (next_row profile now db) [
      | none ↦ none
      | some r ↦
          let task = claimed worker_id lease now r.content in
          some (task, update_tasks task.id (λ x. is_open x.status) (write_claim lease now task) db)
    ]

unfoldable pub claim_loop : String → Time → Time → List (String × ℕ) → Db → Option JobTask × Db
unfolding claim_from
claim_loop worker_id lease now [] db = (none, db)
claim_loop worker_id lease now ((profile, limit) ∷ rest) db =
    let later = claim_loop worker_id lease now rest db in
    elim (claim_from worker_id lease now profile limit db) [
      | none ↦ later
      | some (task, db') ↦ (some task, db')
    ]

-- `sorted(profiles.items())`: the keys of a dict are distinct, so they decide the order.
unfoldable pub claim_next_task : String → List (String × ℕ) → Time → Time → Db → Option JobTask × Db
unfolding claim_loop sort_by
claim_next_task worker_id profiles lease now db =
    claim_loop worker_id lease now (sort_by (λ a b. str_leb a.0 b.0) profiles) db
