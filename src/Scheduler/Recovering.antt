-- ===== src/Scheduler/Recovering.antt =====
-- A whole `reconcile` of scheduler.py against a job with a CLAIMED or RUNNING task.
use ai_researcher_agent_loca.Prelude.{
  String, Bool, true, false, not, ◌&&◌, List, [], ◌∷◌, map, ◌≡◌, refl, ◌∙◌, ap, sym, subst, inl,
  inr, any_of, select, sort_by, All, All-zip, leb, Bool-cases, str_eq, eq_iff,
}
use ai_researcher_agent_loca.Prelude.Table.{find_row, absent-All, IsKeyed}
use ai_researcher_agent_loca.Job.{
  Time, ResearchJob, JobTask, is_held, is_active_status, is_terminal_status,
}
use ai_researcher_agent_loca.PlatformDb.Rows.{Db, JobRow, job_key, job_row}
use ai_researcher_agent_loca.PlatformDb.Jobs.{incomplete_jobs, save_job}
use ai_researcher_agent_loca.PlatformDb.Tasks.{tasks_for_job}
use ai_researcher_agent_loca.PlatformDb.Soundness.{IsSound, JobAgrees}
use ai_researcher_agent_loca.PlatformDb.Absorbing.{saved_row}
use ai_researcher_agent_loca.Scheduler.State.{Scheduler, store_job, store_task, for_each}
use ai_researcher_agent_loca.Scheduler.Recovery.{
  Actions, reconcile, reconcile_each, reconcile_job, settle_job, reclaimed, stale_running,
  after_reclaim, fresh_running, is_dead_letter, is_pending, is_empty,
}
use ai_researcher_agent_loca.Scheduler.Execution.{settle_job-held}
use ai_researcher_agent_loca.Scheduler.Safety.{IsSound-IsStable}
use ai_researcher_agent_loca.Scheduler.Stable.{reconcile_each-Holds}
use ai_researcher_agent_loca.Scheduler.Reclaiming.{
  reclaim_each-jobs, reclaim_each-same, All-map, selected, stale-IsElsewhere,
}

same_tasks :
    (k : String) (db db' : Db) → db'.tasks ≡ db.tasks → tasks_for_job k db' ≡ tasks_for_job k db
unfolding tasks_for_job
same_tasks k db db' e =
    ap
      (λ rows.
        map (λ x. x.content)
          (sort_by (λ a b. leb a.created_at b.created_at) (select (λ x. str_eq x.job_id k) rows)))
      e

-- The tasks and the row of the job `k` are what they were.
record IsFramed (k : String) (s : Scheduler) (r : Actions × Scheduler) : Type 0 where
  tasks : r.1.db.tasks ≡ s.db.tasks
  row : job_row k r.1.db ≡ job_row k s.db

module _ (k : String) (now : Time) (job : ResearchJob) (other : str_eq job.id k ≡ false) where
  store_job-IsFramed :
      (new : ResearchJob) (actions : Actions) (s : Scheduler)
      → new.id ≡ job.id
      → IsFramed k s (actions, store_job now new s)
  store_job-IsFramed new actions s e = record {
    tasks = unfold save_job in refl;
    row = rw (saved_row now new s.db k, e, other) refl;
  }

  -- What becomes of another job leaves the tasks and the row of `k`.
  settle_job-IsFramed :
      (tasks : List JobTask) (actions : Actions) (s : Scheduler)
      → IsFramed k s (settle_job now job tasks (actions, s))
  unfolding settle_job
  settle_job-IsFramed tasks actions s =
      let seen = map (after_reclaim now) tasks in
      let rests = not (is_active_status job.status && is_empty (fresh_running now tasks)) in
      let ends =
        any_of (λ t. is_dead_letter t.status) seen
        && not (any_of (λ t. is_pending t.status) seen) in
      elim (Bool-cases rests) [
        | inl e ↦ rw (settle_job, e) (record { tasks = refl; row = refl })
        | inr e ↦ elim (Bool-cases ends) [
          | inl e' ↦ rw (settle_job, e, e') (store_job-IsFramed _ _ s refl)
          | inr e' ↦ rw (settle_job, e, e') (store_job-IsFramed _ _ s refl)
        ]
      ]

  reconcile_job-row :
      (actions : Actions) (s : Scheduler)
      → job_row k (reconcile_job now job (actions, s)).1.db ≡ job_row k s.db
  unfolding reconcile_job
  reconcile_job-row actions s =
      let tasks = tasks_for_job job.id s.db in
      let stale = stale_running now tasks in
      let s' = for_each (λ t. store_task now (reclaimed t)) stale s in
      (settle_job-IsFramed tasks _ s').row
      ∙ ap (λ rows. find_row job_key k rows) (reclaim_each-jobs now stale s)

  reconcile_job-tasks :
      (actions : Actions) (s : Scheduler)
      → IsSound s.db
      → tasks_for_job k (reconcile_job now job (actions, s)).1.db ≡ tasks_for_job k s.db
  unfolding reconcile_job
  reconcile_job-tasks actions s sound =
      let tasks = tasks_for_job job.id s.db in
      let stale = stale_running now tasks in
      let s' = for_each (λ t. store_task now (reclaimed t)) stale s in
      same_tasks k _ _ (settle_job-IsFramed tasks _ s').tasks
      ∙ reclaim_each-same k now stale s (stale-IsElsewhere job.id k now s.db sound other)

reconcile_job-IsSound :
    (now : Time) (job : ResearchJob) (actions : Actions) (s : Scheduler)
    → IsSound s.db
    → IsSound (reconcile_job now job (actions, s)).1.db
unfolding reconcile_each
reconcile_job-IsSound now job actions s sound =
    (reconcile_each-Holds IsSound-IsStable now (job ∷ []) actions s (record { at = sound })).at

-- A job with a held task: its tasks are reclaimed, and the jobs stay as they are.
reconcile_job-held :
    (now : Time) (job : ResearchJob) (actions : Actions) (s : Scheduler)
    → any_of (λ t. is_held t.status) (tasks_for_job job.id s.db) ≡ true
    → (reconcile_job now job (actions, s)).1.db.jobs ≡ s.db.jobs
unfolding reconcile_job
reconcile_job-held now job actions s held =
    let tasks = tasks_for_job job.id s.db in
    let stale = stale_running now tasks in
    let s' = for_each (λ t. store_task now (reclaimed t)) stale s in
    ap (λ p. p.1.db.jobs) (settle_job-held now job tasks _ s' held) ∙ reclaim_each-jobs now stale s

-- No two of the jobs have the same id.
abbrev AreDistinct : List ResearchJob → Type 0
AreDistinct [] = Unit
AreDistinct (j ∷ jobs) = All (λ x. str_eq x.id j.id ≡ false) jobs × AreDistinct jobs

reconcile_each-others :
    (k : String) (now : Time) (jobs : List ResearchJob) (actions : Actions) (s : Scheduler)
    → All (λ j. str_eq j.id k ≡ false) jobs
    → job_row k (reconcile_each now jobs (actions, s)).1.db ≡ job_row k s.db
unfolding reconcile_each
reconcile_each-others k now [] actions s h = refl
reconcile_each-others k now (j ∷ jobs) actions s (h, hs) =
    let (actions', s') = reconcile_job now j (actions, s) in
    reconcile_each-others k now jobs actions' s' hs ∙ reconcile_job-row k now j h actions s

reconcile_each-held :
    (k : String) (now : Time) (jobs : List ResearchJob) (actions : Actions) (s : Scheduler)
    → AreDistinct jobs
    → IsSound s.db
    → any_of (λ t. is_held t.status) (tasks_for_job k s.db) ≡ true
    → job_row k (reconcile_each now jobs (actions, s)).1.db ≡ job_row k s.db
unfolding reconcile_each
reconcile_each-held k now [] actions s d sound held = refl
reconcile_each-held k now (j ∷ jobs) actions s (apart, d) sound held =
    let (actions', s') = reconcile_job now j (actions, s) in
    elim (Bool-cases (str_eq j.id k)) [
      | inl mine ↦
          let e : j.id ≡ k = (eq_iff j.id k).0 mine in
          let held' : any_of (λ t. is_held t.status) (tasks_for_job j.id s.db) ≡ true =
            subst (λ i. any_of (λ t. is_held t.status) (tasks_for_job i s.db) ≡ true) (sym e)
              held in
          let others = subst (λ i. All (λ x. str_eq x.id i ≡ false) jobs) e apart in
          reconcile_each-others k now jobs actions' s' others
          ∙ ap (λ rows. find_row job_key k rows) (reconcile_job-held now j actions s held')
      | inr other ↦
          let same = reconcile_job-tasks k now j other actions s sound in
          let held' = subst (λ ts. any_of (λ t. is_held t.status) ts ≡ true) (sym same) held in
          reconcile_each-held k now jobs actions' s' d (reconcile_job-IsSound now j actions s sound)
            held'
          ∙ reconcile_job-row k now j other actions s
    ]

rows-AreDistinct :
    (p : JobRow → Bool) (rows : List JobRow)
    → IsKeyed job_key rows
    → All JobAgrees rows
    → AreDistinct (map (λ r. r.content) (select p rows))
rows-AreDistinct p [] keyed agree = tt
rows-AreDistinct p (r ∷ rows) (absent, keyed) (here, agree) =
    let rest = rows-AreDistinct p rows keyed agree in
    let apart : All (λ x. str_eq x.content.id r.content.id ≡ false) rows =
      All-zip
        (λ x a e.
          subst (λ i. str_eq x.content.id i ≡ false) (sym here.id)
            (subst (λ i. str_eq i r.id ≡ false) (sym a.id) e))
        rows agree (absent-All job_key r.id rows absent) in
    elim (Bool-cases (p r)) [
      | inl e ↦ rw e (
        All-map (λ j. str_eq j.id r.content.id ≡ false) (λ x. x.content) (select p rows)
            (selected (λ x. str_eq x.content.id r.content.id ≡ false) p rows apart),
        rest,
      )
      | inr e ↦ rw e rest
    ]

-- On a sound database a whole `reconcile` leaves the row of any job that has a CLAIMED or RUNNING
-- task as it was, also if the leases of all these tasks are over and they are reclaimed by it: the
-- job is neither queued again nor failed.
pub reconcile-held :
    (k : String) (now : Time) (s : Scheduler)
    → IsSound s.db
    → any_of (λ t. is_held t.status) (tasks_for_job k s.db) ≡ true
    → job_row k (reconcile now s).1.db ≡ job_row k s.db
unfolding reconcile incomplete_jobs
reconcile-held k now s sound held =
    reconcile_each-held k now (incomplete_jobs s.db) _ s
      (rows-AreDistinct (λ r. not (is_terminal_status r.status)) s.db.jobs sound.jobs_keyed
        sound.jobs_agree)
      sound held
