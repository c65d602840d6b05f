-- ===== src/PlatformDb/Absorbing.antt =====
-- Statuses that are final: terminal jobs, and tasks that have ended.
use ai_researcher_agent_loca.Prelude.{
  ℕ, String, Bool, true, false, Option, none, some, List, ◌≡◌, refl, inl, inr, ap, arith,
  Option-cases, str_eq, if◌then◌else◌,
}
use ai_researcher_agent_loca.Prelude.Table.{find_row-upsert_row}
use ai_researcher_agent_loca.Job.{Time, ResearchJob, JobTask, is_terminal_status}
use ai_researcher_agent_loca.PlatformDb.Rows.{Db, JobRow, job_key, job_row}
use ai_researcher_agent_loca.PlatformDb.Jobs.{save_job, merge_job, row_of_job}
use ai_researcher_agent_loca.PlatformDb.Tasks.{add_task}
use ai_researcher_agent_loca.PlatformDb.Claim.{claim_next_task}
use ai_researcher_agent_loca.PlatformDb.Ownership.{
  Report, heartbeat, finish_task, finish_write, release_task,
}
use ai_researcher_agent_loca.PlatformDb.Selection.{claim_next_task-Taken, claim_next_task-none}
use ai_researcher_agent_loca.PlatformDb.History.{
  Step, save, write, claim, beat as beat_step, finish, release, Reach, here, next,
}

-- Whether the database holds the job in a terminal status.
unfoldable pub job_ends : String → Db → Bool
job_ends k db = elim (job_row k db) [ none ↦ false | some r ↦ is_terminal_status r.status ]

module _ (now : Time) (job : ResearchJob) (db : Db) (k : String) where
  pub saved_row : job_row k (save_job now job db) ≡ (
      if str_eq job.id k
      then elim (job_row k db) [
        | none ↦ some (row_of_job now job)
        | some r ↦ some (merge_job (row_of_job now job) r)
      ]
      else job_row k db)
  unfolding save_job
  saved_row =
      find_row-upsert_row job_key (merge_job (row_of_job now job)) (row_of_job now job) k db.jobs
        (λ r. unfold merge_job in ground arith)

  -- A write of a job that is not terminal leaves the row of a terminal job as it is.
  pub save_job-absorbed :
      (r : JobRow)
      → job_row k db ≡ some r
      → is_terminal_status r.status ≡ true
      → is_terminal_status job.status ≡ false
      → job_row k (save_job now job db) ≡ some r
  save_job-absorbed r e h f =
      rw (saved_row, e) (unfold merge_job row_of_job in ground (arith, h, f))

  pub save_job-terminal : job_ends k db ≡ true → job_ends k (save_job now job db) ≡ true
  unfolding job_ends
  save_job-terminal h = rw (saved_row, job_ends) (unfold merge_job row_of_job in ground (arith, h))

claim_next_task-jobs :
    (w : String) (profiles : List (String × ℕ)) (lease now : Time) (db : Db)
    → (claim_next_task w profiles lease now db).1.jobs ≡ db.jobs
claim_next_task-jobs w profiles lease now db =
    elim (Option-cases (claim_next_task w profiles lease now db).0) [
      | inl e ↦ ap (λ d. d.jobs) (claim_next_task-none w lease now profiles db e).1
      | inr (task, e) ↦
          let db' = (claim_next_task w profiles lease now db).1 in
          let (t, _) = claim_next_task-Taken w lease now profiles db db' task (λ i. (e i, db')) in
          ap (λ d. d.jobs) t.stored
    ]

same_jobs :
    (k : String) (db db' : Db) → db'.jobs ≡ db.jobs → job_ends k db ≡ true → job_ends k db' ≡ true
unfolding job_ends
same_jobs k db db' e h = rw e h

pub add_task-job_ends :
    (k : String) (now : Time) (task : JobTask) (db : Db)
    → job_ends k db ≡ true
    → job_ends k (add_task now task db) ≡ true
add_task-job_ends k now task db = same_jobs k db (add_task now task db) (unfold add_task in refl)

pub claim-job_ends :
    (k w : String) (profiles : List (String × ℕ)) (lease now : Time) (db : Db)
    → job_ends k db ≡ true
    → job_ends k (claim_next_task w profiles lease now db).1 ≡ true
claim-job_ends k w profiles lease now db =
    same_jobs k db (claim_next_task w profiles lease now db).1
      (claim_next_task-jobs w profiles lease now db)

pub heartbeat-job_ends :
    (k j w : String) (lease : Time) (fence : Option ℕ) (now : Time) (db : Db)
    → job_ends k db ≡ true
    → job_ends k (heartbeat j w lease fence now db).1 ≡ true
heartbeat-job_ends k j w lease fence now db =
    same_jobs k db (heartbeat j w lease fence now db).1 (unfold heartbeat in ground arith)

pub finish-job_ends :
    (k j w : String) (report : Report) (now : Time) (db : Db)
    → job_ends k db ≡ true
    → job_ends k (finish_task j w report now db).1 ≡ true
finish-job_ends k j w report now db =
    same_jobs k db (finish_task j w report now db).1
      (unfold finish_task finish_write in ground arith)

pub release-job_ends :
    (k j w : String) (fence : Option ℕ) (now : Time) (db : Db)
    → job_ends k db ≡ true
    → job_ends k (release_task j w fence now db).1 ≡ true
release-job_ends k j w fence now db =
    same_jobs k db (release_task j w fence now db).1 (unfold release_task in ground arith)

Step-job_ends :
    (k : String) (db db' : Db) → Step db db' → job_ends k db ≡ true → job_ends k db' ≡ true
Step-job_ends k db db' (save now job e) h = rw e (save_job-terminal now job db k h)
Step-job_ends k db db' (write now task g e) h = rw e (add_task-job_ends k now task db h)
Step-job_ends k db db' (claim w profiles lease now e) h =
    rw e (claim-job_ends k w profiles lease now db h)
Step-job_ends k db db' (beat_step j w lease fence now e) h =
    rw e (heartbeat-job_ends k j w lease fence now db h)
Step-job_ends k db db' (finish j w report now e) h = rw e (finish-job_ends k j w report now db h)
Step-job_ends k db db' (release j w fence now e) h = rw e (release-job_ends k j w fence now db h)

-- A job that has reached a terminal status is in a terminal status after any steps: no claim,
-- heartbeat, report or release, no write of a task, and no write of an older copy of the job
-- brings it back. The manual retry is no step, and a task is written back only with a token that
-- is not below the stored one.
pub Reach-job_ends :
    (k : String) (db db' : Db) → Reach db db' → job_ends k db ≡ true → job_ends k db' ≡ true
Reach-job_ends k db db' here h = h
Reach-job_ends k db db' (next {mid = mid} r st) h =
    Step-job_ends k mid db' st (Reach-job_ends k db mid r h)
