-- ===== src/PlatformDb/Caps.antt =====
-- The concurrency caps of `claim_next_task`, and the jobs that hold their tasks back.
use ai_researcher_agent_loca.Prelude.{
  ℕ, suc, ◌≤◌, String, Bool, true, false, not, some, List, ◌≡◌, inl, inr, arith, In, Bool-cases,
  eq_iff, ◌&&◌, ◌||◌, str_eq,
}
use ai_researcher_agent_loca.Prelude.Table.{count_where-update_row, find_row, any_of-find_row}
use ai_researcher_agent_loca.Job.{Time, JobTask, is_held, is_ready, is_past}
use ai_researcher_agent_loca.PlatformDb.Rows.{
  Db, TaskRow, JobRow, task_key, job_key, job_row, task_row, update_tasks,
}
use ai_researcher_agent_loca.PlatformDb.Claim.{
  claim_next_task, is_open, write_claim, is_claimable, is_live, running_count, is_withheld,
  withholds,
}
use ai_researcher_agent_loca.PlatformDb.Selection.{claim_next_task-Taken}
use ai_researcher_agent_loca.PlatformDb.Fencing.{Taken-row}
use ai_researcher_agent_loca.PlatformDb.Soundness.{IsSound}

claimable-profile :
    (profile : String) (now : Time) (jobs : List JobRow) (r : TaskRow)
    → is_claimable profile now jobs r ≡ true
    → r.resource_profile ≡ profile
unfolding is_claimable
claimable-profile profile now jobs r h = ground (arith, eq_iff r.resource_profile profile)

middle_false : (a b c : Bool) → (a && (not b && c)) ≡ true → b ≡ false
middle_false a b c h = ground arith

claimable-free :
    (profile : String) (now : Time) (jobs : List JobRow) (r : TaskRow)
    → is_claimable profile now jobs r ≡ true
    → is_withheld r.job_id jobs ≡ false
unfolding is_claimable
claimable-free profile now jobs r h =
    middle_false (str_eq r.resource_profile profile) (is_withheld r.job_id jobs)
      (is_ready r.status || (is_held r.status && is_past r.lease_expires_at now)) h

update_tasks-running_count :
    (profile : String) (now : Time) (k : String) (test : TaskRow → Bool)
    (change : TaskRow → TaskRow) (db : Db)
    → IsSound db
    → running_count profile now (update_tasks k test change db) ≤ suc (running_count profile now db)
unfolding running_count
update_tasks-running_count profile now k test change db s =
    count_where-update_row task_key (is_live profile now) k test change db.tasks s.tasks_keyed

is_withheld-row :
    (job_id : String) (jobs : List JobRow) (r : JobRow)
    → find_row job_key job_id jobs ≡ some r
    → withholds r.status ≡ true
    → is_withheld job_id jobs ≡ true
unfolding is_withheld
is_withheld-row job_id jobs r e h =
    any_of-find_row job_key (λ j. withholds j.status) job_id jobs r e h

-- A claim on a sound database never takes a profile past its cap: in the profile of the task that
-- it hands out, the tasks under a lease that is not over are at most as many as the cap that the
-- caller gave.
pub claim-running_count :
    (w : String) (profiles : List (String × ℕ)) (lease now : Time) (db db' : Db) (task : JobTask)
    → IsSound db
    → claim_next_task w profiles lease now db ≡ (some task, db')
    → (row : TaskRow) × (limit : ℕ) × (task_row task.id db ≡ some row)
      × In (row.resource_profile, limit) profiles
      × (running_count row.resource_profile now db' ≤ limit)
claim-running_count w profiles lease now db db' task s h =
    let (t, listed) = claim_next_task-Taken w lease now profiles db db' task h in
    let same : t.row.resource_profile ≡ t.profile =
      claimable-profile t.profile now db.jobs t.row t.claimable in
    (
      t.row,
      t.limit,
      Taken-row w lease now db db' task s t,
      rw same listed,
      rw (same, t.stored)
          (omega (
            arith,
            t.room,
            update_tasks-running_count t.profile now task.id (λ r. is_open r.status)
                (write_claim lease now task) db s,
          )),
    )

-- A claim on a sound database hands out a task of a stored job only if that job is not paused,
-- pausing, blocked or waiting for the user.
pub claim-withholds :
    (w : String) (profiles : List (String × ℕ)) (lease now : Time) (db db' : Db) (task : JobTask)
    (r : TaskRow) (j : JobRow)
    → IsSound db
    → claim_next_task w profiles lease now db ≡ (some task, db')
    → task_row task.id db ≡ some r
    → job_row r.job_id db ≡ some j
    → withholds j.status ≡ false
claim-withholds w profiles lease now db db' task r j s h e f =
    let (t, _) = claim_next_task-Taken w lease now profiles db db' task h in
    let row : t.row ≡ r = cc (Taken-row w lease now db db' task s t) in
    let free : is_withheld r.job_id db.jobs ≡ false =
      rw row at (claimable-free t.profile now db.jobs t.row t.claimable) in
    elim (Bool-cases (withholds j.status)) [
      | inl held ↦ absurd (cc (is_withheld-row r.job_id db.jobs j f held))
      | inr open_job ↦ open_job
    ]
