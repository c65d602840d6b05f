-- ===== src/PlatformDb/Soundness.antt =====
-- The invariant of the platform database: ids are unique, and the columns `id` and `status`
-- agree with the stored model. Every operation of platform_db.py keeps it.
use ai_researcher_agent_loca.Prelude.{
  ℕ, String, Bool, true, Option, some, List, [], ◌∷◌, ◌≡◌, refl, inl, inr, arith, All, Option-cases,
  sort_by, str_leb,
}
use ai_researcher_agent_loca.Prelude.Table.{
  IsKeyed, IsKeyed-update_row, IsKeyed-upsert_row, All-update_row, All-upsert_row, All-find_row,
  find_row-key,
}
use ai_researcher_agent_loca.Job.{Time, ResearchJob, JobTask}
use ai_researcher_agent_loca.PlatformDb.Rows.{
  JobRow, TaskRow, Db, job_key, task_key, task_row, update_tasks,
}
use ai_researcher_agent_loca.PlatformDb.Jobs.{save_job, merge_job, row_of_job}
use ai_researcher_agent_loca.PlatformDb.Tasks.{
  add_task, get_task, requeued, requeue_task, write_requeue,
}
use ai_researcher_agent_loca.PlatformDb.Claim.{
  claimed, write_claim, is_open, claim_from, claim_loop, claim_next_task,
}
use ai_researcher_agent_loca.PlatformDb.Ownership.{
  Report, heartbeat, beats_for, beat, finish_task, finish_write, is_held_by, finished, store_task,
  check_owner, release_task, released,
}
use ai_researcher_agent_loca.PlatformDb.Selection.{claim_from-Taken}

pub record JobAgrees (r : JobRow) : Type 0 where
  pub id : r.content.id ≡ r.id
  pub status : r.content.status ≡ r.status

pub record TaskAgrees (r : TaskRow) : Type 0 where
  pub id : r.content.id ≡ r.id
  pub status : r.content.status ≡ r.status

pub record IsSound (db : Db) : Type 0 where
  pub jobs_keyed : IsKeyed job_key db.jobs
  pub tasks_keyed : IsKeyed task_key db.tasks
  pub jobs_agree : All JobAgrees db.jobs
  pub tasks_agree : All TaskAgrees db.tasks

pub save_job-IsSound :
    (now : Time) (job : ResearchJob) {db : Db} → IsSound db → IsSound (save_job now job db)
unfolding save_job
save_job-IsSound now job {db} s = record {
  jobs_keyed =
      IsKeyed-upsert_row job_key _ _ db.jobs (λ r. unfold merge_job in ground arith) s.jobs_keyed;
  tasks_keyed = s.tasks_keyed;
  jobs_agree =
      All-upsert_row job_key JobAgrees _ _ db.jobs
        (λ r h e. unfold merge_job row_of_job in ground arith) (record { id = refl; status = refl })
        s.jobs_agree;
  tasks_agree = s.tasks_agree;
}

pub add_task-IsSound :
    (now : Time) (task : JobTask) {db : Db} → IsSound db → IsSound (add_task now task db)
unfolding add_task
add_task-IsSound now task {db} s = record {
  jobs_keyed = s.jobs_keyed;
  tasks_keyed = IsKeyed-upsert_row task_key _ _ db.tasks (λ r. refl) s.tasks_keyed;
  jobs_agree = s.jobs_agree;
  tasks_agree =
      All-upsert_row task_key TaskAgrees _ _ db.tasks (λ r h e. ground arith)
        (record { id = refl; status = refl }) s.tasks_agree;
}

-- An UPDATE of the tasks table that keeps ids and agreement.
update_tasks-IsSound :
    (k : String) (test : TaskRow → Bool) (change : TaskRow → TaskRow) {db : Db}
    → ((r : TaskRow) → (change r).id ≡ r.id)
    → ((r : TaskRow) → TaskAgrees r → r.id ≡ k → TaskAgrees (change r))
    → IsSound db
    → IsSound (update_tasks k test change db)
update_tasks-IsSound k test change {db} keeps agrees s = record {
  jobs_keyed = s.jobs_keyed;
  tasks_keyed = IsKeyed-update_row task_key k test change db.tasks keeps s.tasks_keyed;
  jobs_agree = s.jobs_agree;
  tasks_agree =
      All-update_row task_key TaskAgrees k test change db.tasks (λ r h e t. agrees r h e)
        s.tasks_agree;
}

-- The stored model of a task found by its id has that id.
pub get_task-id :
    (k : String) (db : Db) (task : JobTask) → IsSound db → get_task k db ≡ some task → task.id ≡ k
unfolding get_task
get_task-id k db task s h = elim (Option-cases (task_row k db)) [
  | inl e ↦ ground arith
  | inr (r, e) ↦ ground (
    arith,
    find_row-key task_key k db.tasks r,
    All-find_row task_key TaskAgrees k db.tasks r s.tasks_agree,
  )
]

pub heartbeat-IsSound :
    (k w : String) (lease : Time) (fence : Option ℕ) (now : Time) {db : Db}
    → IsSound db
    → IsSound (heartbeat k w lease fence now db).1
unfolding heartbeat
heartbeat-IsSound k w lease fence now {db} s =
    let kept =
      update_tasks-IsSound k (beats_for w fence) (beat lease now) (λ r. refl)
        (λ r h e. record { id = h.id; status = h.status }) s in
    ground arith

finish_write-IsSound :
    (k w : String) (report : Report) (now : Time) (task : JobTask) {db : Db}
    → task.id ≡ k
    → IsSound db
    → IsSound (finish_write k w report now task db).1
unfolding finish_write
finish_write-IsSound k w report now task {db} named s =
    let kept =
      update_tasks-IsSound k (is_held_by w) (store_task (finished report now task) now) (λ r. refl)
        (λ r h e. ground arith) s in
    ground arith

pub finish_task-IsSound :
    (k w : String) (report : Report) (now : Time) {db : Db}
    → IsSound db
    → IsSound (finish_task k w report now db).1
unfolding finish_task
finish_task-IsSound k w report now {db} s = elim (Option-cases (get_task k db)) [
  | inl e ↦ rw (e, finish_task) s
  | inr (task, e) ↦ elim (Option-cases (check_owner k w report.fence task)) [
    | inl c ↦
        rw (e, finish_task, c)
          (finish_write-IsSound k w report now task (get_task-id k db task s e) s)
    | inr (reason, c) ↦ rw (e, finish_task, c) s
  ]
]

pub release_task-IsSound :
    (k w : String) (fence : Option ℕ) (now : Time) {db : Db}
    → IsSound db
    → IsSound (release_task k w fence now db).1
unfolding release_task
release_task-IsSound k w fence now {db} s = elim (Option-cases (get_task k db)) [
  | inl e ↦ rw (e, release_task) s
  | inr (task, e) ↦
      let named = get_task-id k db task s e in
      let kept =
        update_tasks-IsSound k (is_held_by w) (store_task (released now task) now) (λ r. refl)
          (λ r h g. ground arith) s in
      rw (e, release_task) (ground arith)
]

pub requeue_task-IsSound :
    (now : Time) (k : String) {db : Db} → IsSound db → IsSound (requeue_task now k db).1
unfolding requeue_task
requeue_task-IsSound now k {db} s = elim (Option-cases (get_task k db)) [
  | inl e ↦ rw (e, requeue_task) s
  | inr (task, e) ↦
      let named = get_task-id k db task s e in
      rw (e, requeue_task)
        (update_tasks-IsSound k (λ r. true) (write_requeue now (requeued now task))
          (λ r. unfold write_requeue in refl)
          (λ r h g. unfold write_requeue requeued in ground arith) s)
]

pub claim_from-IsSound :
    (w : String) (lease now : Time) (profile : String) (limit : ℕ) {db db' : Db} (task : JobTask)
    → IsSound db
    → claim_from w lease now profile limit db ≡ some (task, db')
    → IsSound db'
claim_from-IsSound w lease now profile limit {db} {db'} task s h =
    let (t, _, _) = claim_from-Taken w lease now profile limit db db' task h in
    rw t.stored (
      update_tasks-IsSound task.id (λ r. is_open r.status) (write_claim lease now task)
        (λ r. unfold write_claim in refl)
        (λ r a e. unfold write_claim claimed in ground (arith, t.given)) s)

pub claim_loop-IsSound :
    (w : String) (lease now : Time) (profiles : List (String × ℕ)) {db : Db}
    → IsSound db
    → IsSound (claim_loop w lease now profiles db).1
unfolding claim_loop
claim_loop-IsSound w lease now [] s = s
claim_loop-IsSound w lease now ((profile, limit) ∷ rest) {db} s =
    elim (Option-cases (claim_from w lease now profile limit db)) [
      | inl e ↦ rw (e, claim_loop) (claim_loop-IsSound w lease now rest s)
      | inr ((task, db'), e) ↦
          rw (e, claim_loop) (claim_from-IsSound w lease now profile limit task s e)
    ]

pub claim_next_task-IsSound :
    (w : String) (profiles : List (String × ℕ)) (lease now : Time) {db : Db}
    → IsSound db
    → IsSound (claim_next_task w profiles lease now db).1
unfolding claim_next_task
claim_next_task-IsSound w profiles lease now s =
    claim_loop-IsSound w lease now (sort_by (λ a b. str_leb a.0 b.0) profiles) s
