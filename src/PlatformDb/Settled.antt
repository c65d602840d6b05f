-- ===== src/PlatformDb/Settled.antt =====
-- A task that has ended: SUCCEEDED, FAILED, DEAD_LETTER or CANCELLED.
use ai_researcher_agent_loca.Prelude.{
  ℕ, String, Bool, true, false, Option, some, List, [], ◌∷◌, ◌≡◌, refl, inl, inr, arith,
  Option-cases,
}
use ai_researcher_agent_loca.Prelude.Table.{find_row-update_row}
use ai_researcher_agent_loca.Job.{Time, JobTask, TaskStatus, is_held}
use ai_researcher_agent_loca.PlatformDb.Rows.{Db, TaskRow, task_key, task_row, update_tasks}
use ai_researcher_agent_loca.PlatformDb.Tasks.{get_task}
use ai_researcher_agent_loca.PlatformDb.Claim.{claim_next_task, is_open, write_claim}
use ai_researcher_agent_loca.PlatformDb.Ownership.{
  Report, heartbeat, beats_for, beat, finish_task, finish_write, is_held_by, finished, store_task,
  check_owner, release_task, released,
}
use ai_researcher_agent_loca.PlatformDb.Selection.{claim_next_task-Taken, claim_next_task-none}

unfoldable pub is_settled : TaskStatus → Bool
is_settled TaskStatus.succeeded = true
is_settled TaskStatus.failed = true
is_settled TaskStatus.dead_letter = true
is_settled TaskStatus.cancelled = true
is_settled _ = false

is_settled-open : (status : TaskStatus) → is_settled status ≡ true → is_open status ≡ false
unfolding is_settled is_open
is_settled-open status h = ground arith

is_settled-held : (status : TaskStatus) → is_settled status ≡ true → is_held status ≡ false
unfolding is_settled is_held
is_settled-held status h = ground arith

-- An UPDATE whose WHERE clause a row does not meet leaves it.
untouched :
    (j k : String) (test : TaskRow → Bool) (change : TaskRow → TaskRow) (db : Db) (r : TaskRow)
    → ((x : TaskRow) → (change x).id ≡ x.id)
    → test r ≡ false
    → task_row k db ≡ some r
    → task_row k (update_tasks j test change db) ≡ some r
untouched j k test change db r keeps h e =
    ground (arith, find_row-update_row task_key test change keeps j k db.tasks)

module _ (k : String) (db : Db) (r : TaskRow) (found : task_row k db ≡ some r)
    (settled : is_settled r.status ≡ true) where
  not_held_by : (w : String) → is_held_by w r ≡ false
  unfolding is_held_by
  not_held_by w = rw (is_settled-held r.status settled) refl

  claim-settled :
      (w : String) (profiles : List (String × ℕ)) (lease now : Time)
      → task_row k (claim_next_task w profiles lease now db).1 ≡ some r
  claim-settled w profiles lease now =
      elim (Option-cases (claim_next_task w profiles lease now db).0) [
        | inl e ↦ rw (claim_next_task-none w lease now profiles db e).1 found
        | inr (task, e) ↦
            let db' = (claim_next_task w profiles lease now db).1 in
            let (t, _) = claim_next_task-Taken w lease now profiles db db' task (λ i. (e i, db')) in
            rw t.stored (
              untouched task.id k (λ x. is_open x.status) (write_claim lease now task) db r
                (λ x. unfold write_claim in refl) (is_settled-open r.status settled) found)
      ]

  heartbeat-settled :
      (j w : String) (lease : Time) (fence : Option ℕ) (now : Time)
      → task_row k (heartbeat j w lease fence now db).1 ≡ some r
  heartbeat-settled j w lease fence now =
      let kept =
        untouched j k (beats_for w fence) (beat lease now) db r (λ x. unfold beat in refl)
          (unfold beats_for in rw (not_held_by w) refl) found in
      unfold heartbeat in ground arith

  store-settled :
      (j w : String) (task : JobTask) (now : Time)
      → task_row k (update_tasks j (is_held_by w) (store_task task now) db) ≡ some r
  store-settled j w task now =
      untouched j k (is_held_by w) (store_task task now) db r (λ x. unfold store_task in refl)
        (not_held_by w) found

  finish-settled :
      (j w : String) (report : Report) (now : Time)
      → task_row k (finish_task j w report now db).1 ≡ some r
  unfolding finish_task
  finish-settled j w report now = elim (Option-cases (get_task j db)) [
    | inl e ↦ rw (e, finish_task) found
    | inr (task, e) ↦ elim (Option-cases (check_owner j w report.fence task)) [
      | inl c ↦
          let kept = store-settled j w (finished report now task) now in
          rw (e, finish_task, c) (unfold finish_write in ground arith)
      | inr (reason, c) ↦ rw (e, finish_task, c) found
    ]
  ]

  release-settled :
      (j w : String) (fence : Option ℕ) (now : Time)
      → task_row k (release_task j w fence now db).1 ≡ some r
  unfolding release_task
  release-settled j w fence now = elim (Option-cases (get_task j db)) [
    | inl e ↦ rw (e, release_task) found
    | inr (task, e) ↦
        let kept = store-settled j w (released now task) now in rw (e, release_task) (ground arith)
  ]

-- What a worker can do about tasks: claim one, renew a lease, finish or release a task.
pub data WorkerOp : Type 0 where
  claim : (w : String) (profiles : List (String × ℕ)) (lease now : Time) → WorkerOp
  renew : (k w : String) (lease : Time) (fence : Option ℕ) (now : Time) → WorkerOp
  finish : (k w : String) (report : Report) (now : Time) → WorkerOp
  release : (k w : String) (fence : Option ℕ) (now : Time) → WorkerOp

unfoldable pub perform : WorkerOp → Db → Db
perform (claim w profiles lease now) db = (claim_next_task w profiles lease now db).1
perform (renew k w lease fence now) db = (heartbeat k w lease fence now db).1
perform (finish k w report now) db = (finish_task k w report now db).1
perform (release k w fence now) db = (release_task k w fence now db).1

unfoldable pub perform_all : List WorkerOp → Db → Db
perform_all [] db = db
perform_all (op ∷ ops) db = perform_all ops (perform op db)

perform-settled :
    (op : WorkerOp) (k : String) (db : Db) (r : TaskRow)
    → task_row k db ≡ some r
    → is_settled r.status ≡ true
    → task_row k (perform op db) ≡ some r
unfolding perform
perform-settled (claim w profiles lease now) k db r e h =
    claim-settled k db r e h w profiles lease now
perform-settled (renew j w lease fence now) k db r e h =
    heartbeat-settled k db r e h j w lease fence now
perform-settled (finish j w report now) k db r e h = finish-settled k db r e h j w report now
perform-settled (release j w fence now) k db r e h = release-settled k db r e h j w fence now

-- The row of a task that has ended is the same after any sequence of claims, heartbeats, reports
-- and releases: the task is not run again, and no late report changes its result.
pub perform_all-settled :
    (ops : List WorkerOp) (k : String) (db : Db) (r : TaskRow)
    → task_row k db ≡ some r
    → is_settled r.status ≡ true
    → task_row k (perform_all ops db) ≡ some r
unfolding perform_all
perform_all-settled [] k db r e h = e
perform_all-settled (op ∷ ops) k db r e h =
    perform_all-settled ops k (perform op db) r (perform-settled op k db r e h) h
