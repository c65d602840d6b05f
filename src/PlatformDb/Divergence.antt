-- ===== src/PlatformDb/Divergence.antt =====
-- Where the operations of platform_db.py part from the tokens and leases that they promise.
use ai_researcher_agent_loca.Prelude.{
  ℕ, ◌+◌, ◌≤◌, ◌<◌, String, true, false, Option, some, List, ◌≡◌, refl, inl, inr, ap, subst, arith,
  Option-cases, eq_refl,
}
use ai_researcher_agent_loca.Prelude.Table.{find_row-update_row}
use ai_researcher_agent_loca.Job.{Time, JobTask, is_held, is_past, lease_expired}
use ai_researcher_agent_loca.PlatformDb.Rows.{Db, TaskRow, task_key, task_row}
use ai_researcher_agent_loca.PlatformDb.Tasks.{get_task, requeue_task, requeued, write_requeue}
use ai_researcher_agent_loca.PlatformDb.Claim.{claim_next_task, write_claim, claimed}
use ai_researcher_agent_loca.PlatformDb.Ownership.{
  Report, returned, finished, heartbeat, beats_for, beat, finish_task,
}
use ai_researcher_agent_loca.PlatformDb.Selection.{Taken, claim_next_task-Taken}
use ai_researcher_agent_loca.PlatformDb.Soundness.{
  IsSound, requeue_task-IsSound, claim_next_task-IsSound,
}
use ai_researcher_agent_loca.PlatformDb.Fencing.{fence_of, claim-fence_of, Taken-stored}
use ai_researcher_agent_loca.PlatformDb.Finishing.{Owns, finish_task-owner}

-- A successful heartbeat renews the lease in its column and not in the stored model: at a time
-- when the old lease is over and the new one is not, the row is under a lease, and the task that
-- `get_task` reads has an expired lease.
pub heartbeat-lease_expired :
    (k w : String) (lease : Time) (fence : Option ℕ) (now later old : Time) (db : Db) (r : TaskRow)
    → task_row k db ≡ some r
    → beats_for w fence r ≡ true
    → is_held r.content.status ≡ true
    → r.content.lease_expires_at ≡ some old
    → old ≤ later
    → later < now + lease
    → (r' : TaskRow) × (task_row k (heartbeat k w lease fence now db).1 ≡ some r')
      × (is_past r'.lease_expires_at later ≡ false)
      × (lease_expired r'.content later ≡ true)
heartbeat-lease_expired k w lease fence now later old db r found beats held stored over live = (
  beat lease now r,
  unfold heartbeat in
      ground (
        arith,
        found,
        beats,
        eq_refl k,
        find_row-update_row task_key (beats_for w fence) (beat lease now) (λ x. unfold beat in refl)
            k k db.tasks,
      ),
  unfold beat in ground arith,
  unfold beat lease_expired in ground arith,
)

requeue-fence_of :
    (k : String) (now : Time) (db : Db) (q : JobTask)
    → (requeue_task now k db).0 ≡ some q
    → fence_of k (requeue_task now k db).1 ≡ 0
requeue-fence_of k now db q e = elim (Option-cases (task_row k db)) [
  | inl none_there ↦ absurd (unfold requeue_task get_task in ground arith)
  | inr (r, found) ↦
      let current : get_task k db ≡ some r.content = unfold get_task in rw found refl in
      let change = write_requeue now (requeued now r.content) in
      let moved =
        find_row-update_row task_key (λ x. true) change (λ x. unfold write_requeue in refl) k k
          db.tasks in
      unfold requeue_task fence_of in
      rw (current, requeue_task)
        (unfold write_requeue requeued in ground (arith, moved, found, eq_refl k))
]

claimed-Owns :
    (w : String) (lease now : Time) (db db' : Db) (task : JobTask)
    (t : Taken w lease now db task db')
    → task.attempts ≡ 1
    → Owns w (some 1) (write_claim lease now task t.row)
claimed-Owns w lease now db db' task t first = record {
  held = unfold write_claim is_held in refl;
  worker = unfold write_claim claimed in ground (arith, t.given);
  token = unfold write_claim in ground (arith, first);
}

-- After a manual retry the tokens start again: the token that the next claim hands out is 1, so a
-- report with token 1 of an earlier attempt by the same worker is accepted.
pub requeue-readmits :
    (k w : String) (db db' : Db) (profiles : List (String × ℕ)) (lease now retried later : Time)
    (q task : JobTask) (report : Report)
    → IsSound db
    → (requeue_task retried k db).0 ≡ some q
    → claim_next_task w profiles lease now (requeue_task retried k db).1 ≡ (some task, db')
    → task.id ≡ k
    → (task.attempts ≡ 1)
      × ((finish_task k w (record report { fence = some 1 }) later db').0
          ≡ returned (some (finished (record report { fence = some 1 }) later task)))
unfolding write_claim
requeue-readmits k w db db' profiles lease now retried later q task report s e c named =
    let sound = requeue_task-IsSound retried k s in
    let db1 = (requeue_task retried k db).1 in
    let (t, _) = claim_next_task-Taken w lease now profiles db1 db' task c in
    let (bumped, given) = claim-fence_of w profiles lease now db1 db' task sound c in
    let first : task.attempts ≡ 1 =
      omega
        (arith, given, bumped, ap (λ j. fence_of j db1) named, requeue-fence_of k retried db q e) in
    let row = Taken-stored w lease now db1 db' task sound t in
    let after =
      subst IsSound (ap (λ p. p.1) c) (claim_next_task-IsSound w profiles lease now sound) in
    let owns : Owns w (some 1) (write_claim lease now task t.row) =
      claimed-Owns w lease now db1 db' task t first in
    (
      first,
      rw (← named) (
          ap (λ p. p.0)
            (finish_task-owner task.id w (record report { fence = some 1 }) later db'
              (write_claim lease now task t.row) after row owns)),
    )
