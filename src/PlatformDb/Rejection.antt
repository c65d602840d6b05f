-- ===== src/PlatformDb/Rejection.antt =====
-- A worker with an outdated token can write nothing.
use ai_researcher_agent_loca.Prelude.{
  ℕ, suc, ◌<◌, ◌≢◌, String, false, Option, none, some, List, ◌≡◌, refl, subst, inl, inr, ap, arith,
  Option-cases,
}
use ai_researcher_agent_loca.Job.{Time, JobTask}
use ai_researcher_agent_loca.PlatformDb.Rows.{Db, TaskRow, task_row}
use ai_researcher_agent_loca.PlatformDb.Tasks.{get_task}
use ai_researcher_agent_loca.PlatformDb.Claim.{claim_next_task}
use ai_researcher_agent_loca.PlatformDb.Ownership.{
  Report, raised, StaleTaskOwner, not_the_owner, heartbeat, beats_for, finish_task, check_owner,
  stale, release_task,
}
use ai_researcher_agent_loca.PlatformDb.Soundness.{IsSound, claim_next_task-IsSound}
use ai_researcher_agent_loca.PlatformDb.Fencing.{fence_of, claim-fence_of, get_task-row}
use ai_researcher_agent_loca.PlatformDb.History.{Reach, Reach-fence_of}

-- What `finish_task`, `heartbeat` and `release_task` answer to a worker with a stale token: an
-- exception that names both tokens, or false, and an unchanged database.
pub record IsFencedOut (k w : String) (fence : ℕ) (db : Db) : Type 0 where
  pub finish :
      (report : Report) (now : Time)
      → (e : StaleTaskOwner) × (finish_task k w (record report { fence = some fence }) now db
          ≡ (raised e, db))
        × (e.expected_fence ≡ fence_of k db)
        × (e.received_fence ≡ some fence)
  pub beat : (lease now : Time) → heartbeat k w lease (some fence) now db ≡ (false, db)
  pub release :
      (now : Time)
      → (e : StaleTaskOwner) × (release_task k w (some fence) now db ≡ (raised e, db))
        × (e.expected_fence ≡ fence_of k db)

module _ (k w : String) (fence : ℕ) (db : Db) (r : TaskRow) (found : task_row k db ≡ some r)
    (old : fence < r.content.attempts) where
  check_owner-outdated :
      (given : Option ℕ) → given ≡ some fence → check_owner k w given r.content ≢ none
  unfolding check_owner
  check_owner-outdated given g = ground arith

  finish_task-outdated :
      (report : Report) (now : Time)
      → report.fence ≡ some fence
      → (e : StaleTaskOwner) × (finish_task k w report now db ≡ (raised e, db))
        × (e.expected_fence ≡ r.content.attempts)
        × (e.received_fence ≡ some fence)
  unfolding stale finish_task
  finish_task-outdated report now g =
      let got = get_task-row k db r found in
      elim (Option-cases (check_owner k w report.fence r.content)) [
        | inl c ↦ absurd (check_owner-outdated report.fence g c)
        | inr (reason, c) ↦
            (stale k w r.content report.fence reason, rw (got, finish_task, c) refl, refl, g)
      ]

  heartbeat-outdated : (lease now : Time) → heartbeat k w lease (some fence) now db ≡ (false, db)
  unfolding heartbeat beats_for
  heartbeat-outdated lease now = ground arith

  release_task-outdated :
      (now : Time)
      → (e : StaleTaskOwner) × (release_task k w (some fence) now db ≡ (raised e, db))
        × (e.expected_fence ≡ r.content.attempts)
  unfolding release_task get_task stale
  release_task-outdated now = (stale k w r.content (some fence) not_the_owner, ground arith, refl)

pub outdated-IsFencedOut :
    (k w : String) (fence : ℕ) (db : Db) → fence < fence_of k db → IsFencedOut k w fence db
unfolding fence_of
outdated-IsFencedOut k w fence db h = elim (Option-cases (task_row k db)) [
  | inl e ↦ absurd (ground arith)
  | inr (r, e) ↦
      let old : fence < r.content.attempts = ground arith in
      record {
        finish = λ report now. rw e (
            finish_task-outdated k w fence db r e old (record report { fence = some fence }) now
              refl);
        beat = heartbeat-outdated k w fence db r e old;
        release = λ now. rw e (release_task-outdated k w fence db r e old now);
      }
]

claimed-IsSound :
    (db db' : Db) (w : String) (profiles : List (String × ℕ)) (lease now : Time) (task : JobTask)
    → IsSound db
    → claim_next_task w profiles lease now db ≡ (some task, db')
    → IsSound db'
claimed-IsSound db db' w profiles lease now task s c =
    subst IsSound (ap (λ r. r.1) c) (claim_next_task-IsSound w profiles lease now s)

-- On a sound database a worker claims a task; after any steps of the database the task is claimed
-- again, by any worker, and any steps follow. A step is any operation but the manual retry, and
-- writes a task back only with a token that is not below the stored one. The first worker is then
-- rejected with the token of its claim by `finish_task`, `heartbeat` and `release_task`, each with
-- its error, and none of them changes the database.
pub late_writer-IsFencedOut :
    (db db1 db2 db3 db4 : Db) (w w' : String) (profiles profiles' : List (String × ℕ))
    (lease lease' now now' : Time) (task task' : JobTask)
    → IsSound db
    → claim_next_task w profiles lease now db ≡ (some task, db1)
    → Reach db1 db2
    → claim_next_task w' profiles' lease' now' db2 ≡ (some task', db3)
    → task'.id ≡ task.id
    → Reach db3 db4
    → IsFencedOut task.id w task.attempts db4
late_writer-IsFencedOut db db1 db2 db3 db4 w w' profiles profiles' lease lease' now now' task task'
      s c r c' same r' =
    let s1 : IsSound db1 = claimed-IsSound db db1 w profiles lease now task s c in
    let (s2, grown) = Reach-fence_of task.id r s1 in
    let s3 : IsSound db3 = claimed-IsSound db2 db3 w' profiles' lease' now' task' s2 c' in
    let (s4, grown') = Reach-fence_of task.id r' s3 in
    let first = claim-fence_of w profiles lease now db db1 task s c in
    let second = claim-fence_of w' profiles' lease' now' db2 db3 task' s2 c' in
    let bumped : fence_of task.id db3 ≡ suc (fence_of task.id db2) = rw same at second.0 in
    outdated-IsFencedOut task.id w task.attempts db4 (omega (arith, first.1, bumped, grown, grown'))
