-- ===== src/Scheduler/Reclaiming.antt =====
-- What the loop of `reconcile` over the stale tasks of one job leaves of the other jobs.
use ai_researcher_agent_loca.Prelude.{
  String, Bool, false, some, List, [], ◌∷◌, map, ◌≡◌, refl, ◌∙◌, ap, sym, subst, inl, inr, arith,
  select, sort_by, All, All-select, All-sort_by, All-weaken, All-zip, All-self, leb, Bool-cases,
  str_eq, eq_iff,
}
use ai_researcher_agent_loca.Prelude.Table.{find_row, upsert_row, find_row-upsert_row, find_row-In}
use ai_researcher_agent_loca.Job.{Time, JobTask, is_held, lease_expired}
use ai_researcher_agent_loca.PlatformDb.Rows.{Db, TaskRow, task_key, task_row}
use ai_researcher_agent_loca.PlatformDb.Tasks.{add_task, merge_task, written, tasks_for_job}
use ai_researcher_agent_loca.PlatformDb.Soundness.{IsSound}
use ai_researcher_agent_loca.Scheduler.State.{Scheduler, store_task, for_each}
use ai_researcher_agent_loca.Scheduler.Recovery.{reclaimed, stale_running}

-- An upsert onto a row that a query does not select changes nothing that it selects.
select-upsert_row :
    (p : TaskRow → Bool) (merge : TaskRow → TaskRow) (new : TaskRow) (rows : List TaskRow)
    (r : TaskRow)
    → find_row task_key new.id rows ≡ some r
    → p r ≡ false
    → p (merge r) ≡ false
    → select p (upsert_row task_key merge new rows) ≡ select p rows
unfolding find_row upsert_row
select-upsert_row p merge new [] r found out out' = cc
select-upsert_row p merge new (x ∷ rows) r found out out' = elim (Bool-cases (str_eq x.id new.id)) [
  | inl e ↦
      let same : x ≡ r = ground arith in
      let px : p x ≡ false = subst (λ y. p y ≡ false) (sym same) out in
      let pm : p (merge x) ≡ false = subst (λ y. p (merge y) ≡ false) (sym same) out' in
      rw (e, px, pm) refl
  | inr e ↦
      let found' : find_row task_key new.id rows ≡ some r = ground arith in
      let ih = select-upsert_row p merge new rows r found' out out' in rw (e, ih) refl
]

-- The task is stored, as one of another job than `k`.
abbrev pub IsElsewhere : (k : String) → Db → JobTask → Type 0
IsElsewhere k db t = (r : TaskRow) × (task_row t.id db ≡ some r) × (str_eq r.job_id k ≡ false)

module _ (k : String) (now : Time) where
  store_task-IsElsewhere :
      (t u : JobTask) (s : Scheduler)
      → IsElsewhere k s.db u
      → IsElsewhere k (store_task now t s).db u
  unfolding add_task
  store_task-IsElsewhere t u s (r, found, out) =
      let step =
        find_row-upsert_row task_key (merge_task (written now t)) (written now t) u.id s.db.tasks
          (λ x. unfold merge_task in refl) in
      elim (Bool-cases (str_eq (task_key (written now t)) u.id)) [
        | inl e ↦
            (merge_task (written now t) r, rw (step, e, found) refl, (unfold merge_task in out))
        | inr e ↦ (r, rw (step, e) found, out)
      ]

  store_task-tasks_for_job :
      (t : JobTask) (s : Scheduler)
      → IsElsewhere k s.db t
      → tasks_for_job k (store_task now t s).db ≡ tasks_for_job k s.db
  unfolding tasks_for_job add_task
  store_task-tasks_for_job t s (r, found, out) =
      ap (λ rows. map (λ x. x.content) (sort_by (λ a b. leb a.created_at b.created_at) rows))
        (select-upsert_row (λ x. str_eq x.job_id k) (merge_task (written now t)) (written now t)
          s.db.tasks r (unfold written in found) out (unfold merge_task in out))

  All-IsElsewhere :
      (t : JobTask) (s : Scheduler) (ts : List JobTask)
      → All (IsElsewhere k s.db) ts
      → All (IsElsewhere k (store_task now t s).db) ts
  All-IsElsewhere t s [] h = tt
  All-IsElsewhere t s (u ∷ ts) (h, hs) = (store_task-IsElsewhere t u s h, All-IsElsewhere t s ts hs)

  pub reclaim_each-same :
      (ts : List JobTask) (s : Scheduler)
      → All (IsElsewhere k s.db) ts
      → tasks_for_job k (for_each (λ t. store_task now (reclaimed t)) ts s).db
        ≡ tasks_for_job k s.db
  unfolding reclaimed
  reclaim_each-same [] s h = refl
  reclaim_each-same (t ∷ ts) s (h, hs) =
      reclaim_each-same ts (store_task now (reclaimed t) s) (All-IsElsewhere (reclaimed t) s ts hs)
      ∙ store_task-tasks_for_job (reclaimed t) s h

pub reclaim_each-jobs :
    (now : Time) (ts : List JobTask) (s : Scheduler)
    → (for_each (λ t. store_task now (reclaimed t)) ts s).db.jobs ≡ s.db.jobs
unfolding add_task
reclaim_each-jobs now [] s = refl
reclaim_each-jobs now (t ∷ ts) s = reclaim_each-jobs now ts (store_task now (reclaimed t) s)

pub All-map :
    {A B : Type 0} (P : B → Type 0) (f : A → B) (xs : List A)
    → All (λ x. P (f x)) xs
    → All P (map f xs)
All-map P f [] h = tt
All-map P f (x ∷ xs) (h, hs) = (h, All-map P f xs hs)

pub selected :
    {A : Type 0} (P : A → Type 0) (p : A → Bool) (xs : List A) → All P xs → All P (select p xs)
selected P p xs h = All-weaken (λ x e. e.1) (select p xs) (All-select P p xs h)

-- The tasks of another job are stored as that job's.
pub stale-IsElsewhere :
    (j k : String) (now : Time) (db : Db)
    → IsSound db
    → str_eq j k ≡ false
    → All (IsElsewhere k db) (stale_running now (tasks_for_job j db))
unfolding stale_running tasks_for_job
stale-IsElsewhere j k now db sound other =
    let mine = λ (r : TaskRow). str_eq r.job_id j in
    let stored : All (λ r. task_row r.content.id db ≡ some r) db.tasks =
      All-zip
        (λ r here agrees.
          subst (λ i. task_row i db ≡ some r) (sym agrees.id)
            (find_row-In task_key r db.tasks sound.tasks_keyed here))
        db.tasks (All-self db.tasks) sound.tasks_agree in
    let rows : All (λ r. IsElsewhere k db r.content) (select mine db.tasks) =
      All-weaken (λ r h. (r, h.1, ground (arith, h.0, other, eq_iff r.job_id j)))
        (select mine db.tasks)
        (All-select (λ r. task_row r.content.id db ≡ some r) mine db.tasks stored) in
    let tasks : All (IsElsewhere k db) (tasks_for_job j db) =
      unfold tasks_for_job in
      All-map (IsElsewhere k db) (λ r. r.content) _
        (All-sort_by (λ r. IsElsewhere k db r.content) (λ a b. leb a.created_at b.created_at)
          (select mine db.tasks) rows) in
    let held = selected (IsElsewhere k db) (λ t. is_held t.status) (tasks_for_job j db) tasks in
    selected (IsElsewhere k db) (λ t. lease_expired t now)
      (select (λ t. is_held t.status) (tasks_for_job j db)) held
