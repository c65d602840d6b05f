-- ===== src/Scheduler/Cancelling.antt =====
-- What `cancel_job` of scheduler.py leaves behind.
use ai_researcher_agent_loca.Prelude.{
  String, true, false, some, List, [], ◌∷◌, ◌≡◌, ◌⊎◌, refl, inl, inr, ◌∙◌, subst, arith, All, In,
  All-zip, In-map, In-sort_by-select, All-weaken, Option-cases, Bool-cases, select, sort_by, str_eq,
  leb, eq_iff, eq_refl, if◌then◌else◌,
}
use ai_researcher_agent_loca.Prelude.Table.{All-upsert_row_keyed, All-find_row, find_row-key}
use ai_researcher_agent_loca.Prelude.Assoc.{get_entry-put_entry}
use ai_researcher_agent_loca.Job.{
  Time, TaskStatus, ResearchJob, JobTask, is_terminal, is_terminal_status,
}
use ai_researcher_agent_loca.PlatformDb.Rows.{Db, TaskRow, JobRow, task_key, job_key, job_row}
use ai_researcher_agent_loca.PlatformDb.Jobs.{get_job, save_job, merge_job, row_of_job}
use ai_researcher_agent_loca.PlatformDb.Tasks.{add_task, merge_task, written, tasks_for_job}
use ai_researcher_agent_loca.PlatformDb.Soundness.{
  IsSound, TaskAgrees, JobAgrees, save_job-IsSound, add_task-IsSound,
}
use ai_researcher_agent_loca.PlatformDb.Settled.{is_settled}
use ai_researcher_agent_loca.PlatformDb.Absorbing.{job_ends, saved_row}
use ai_researcher_agent_loca.Scheduler.State.{
  Scheduler, cancel, control_flag, set_control, for_each, store_task, store_job, publish,
}
use ai_researcher_agent_loca.Scheduler.Control.{cancelled, cancel_job, cancel_task, is_over}
use ai_researcher_agent_loca.Scheduler.Stable.{for_each-Holds, cancel_task-Holds}
use ai_researcher_agent_loca.Scheduler.Safety.{job_ends-IsStable}

-- The ids of the tasks that the loop still has to cancel.
abbrev left_ids : List JobTask → List String
left_ids [] = []
left_ids (t ∷ tasks) = if is_over t.status then left_ids tasks else t.id ∷ left_ids tasks

-- A task of another job, one that has ended, or one whose turn in the loop is still to come.
abbrev IsHandled : String → List JobTask → TaskRow → Type 0
IsHandled k tasks r =
    (str_eq r.job_id k ≡ false) ⊎ ((is_settled r.status ≡ true) ⊎ In r.id (left_ids tasks))

abbrev cancelled_task : JobTask → JobTask
cancelled_task t = record t { status = TaskStatus.cancelled }

write-IsSound : (now : Time) (t : JobTask) (db : Db) → IsSound db → IsSound (add_task now t db)
write-IsSound now t db s = add_task-IsSound now t s

module _ (k : String) (now : Time) where
  next_id :
      (t : JobTask) (tasks : List JobTask) (id : String)
      → is_over t.status ≡ false
      → In id (left_ids (t ∷ tasks))
      → str_eq id t.id ≡ false
      → In id (left_ids tasks)
  next_id t tasks id e i o = ground (arith, eq_iff id t.id)

  over-IsHandled :
      (t : JobTask) (tasks : List JobTask) (r : TaskRow)
      → is_over t.status ≡ true
      → IsHandled k (t ∷ tasks) r
      → IsHandled k tasks r
  over-IsHandled t tasks r e (inl far) = inl far
  over-IsHandled t tasks r e (inr (inl done)) = inr (inl done)
  over-IsHandled t tasks r e (inr (inr later)) = inr (inr (rw e at later))

  -- The write of one cancelled task handles its row and keeps the others as they are.
  write-IsHandled :
      (t : JobTask) (tasks : List JobTask) (db : Db)
      → is_over t.status ≡ false
      → IsSound db
      → All (IsHandled k (t ∷ tasks)) db.tasks
      → All (IsHandled k tasks) (add_task now (cancelled_task t) db).tasks
  unfolding add_task
  write-IsHandled t tasks db e s h =
      All-upsert_row_keyed task_key {P = IsHandled k (t ∷ tasks)} {Q = IsHandled k tasks}
        (merge_task (written now (cancelled_task t))) (written now (cancelled_task t))
        (λ r p same. inr (inl (unfold is_settled in refl)))
        (λ r p other. elim p [
          | inl far ↦ inl far
          | inr (inl done) ↦ inr (inl done)
          | inr (inr later) ↦ inr (inr (next_id t tasks r.id e later other))
        ])
        db.tasks s.tasks_keyed (inr (inl (unfold is_settled in refl))) h

  turn_over : (t : JobTask) (s : Scheduler) → is_over t.status ≡ true → cancel_task now t s ≡ s
  unfolding cancel_task
  turn_over t s e = rw e

  turn_cancels :
      (t : JobTask) (s : Scheduler)
      → is_over t.status ≡ false
      → cancel_task now t s ≡ store_task now (cancelled_task t) s
  unfolding cancel_task
  turn_cancels t s e = rw e

  loop-IsHandled :
      (tasks : List JobTask) (s : Scheduler)
      → IsSound s.db
      → All (IsHandled k tasks) s.db.tasks
      → All (IsHandled k []) (for_each (cancel_task now) tasks s).db.tasks
  loop-IsHandled [] s sound h = h
  loop-IsHandled (t ∷ tasks) s sound h = elim (Bool-cases (is_over t.status)) [
    | inl e ↦
        loop-IsHandled tasks (cancel_task now t s) (rw (turn_over t s e) sound)
          (rw (turn_over t s e) (All-weaken (λ r p. over-IsHandled t tasks r e p) s.db.tasks h))
    | inr e ↦
        loop-IsHandled tasks (cancel_task now t s)
          (rw (turn_cancels t s e) (add_task-IsSound now (cancelled_task t) sound))
          (rw (turn_cancels t s e) (write-IsHandled t tasks s.db e sound h))
  ]

  In-left_ids :
      (t : JobTask) (tasks : List JobTask)
      → is_over t.status ≡ false
      → In t tasks
      → In t.id (left_ids tasks)
  In-left_ids t [] e i = i
  In-left_ids t (x ∷ tasks) e (inl same) = ground arith
  In-left_ids t (x ∷ tasks) e (inr i) = elim (Bool-cases (is_over x.status)) [
    | inl over ↦ rw over (In-left_ids t tasks e i)
    | inr open_task ↦ rw open_task (inr (In-left_ids t tasks e i))
  ]

  over_settled : (status : TaskStatus) → is_over status ≡ true → is_settled status ≡ true
  unfolding is_over is_settled
  over_settled status h = ground arith

  row-IsHandled :
      (r : TaskRow) (tasks : List JobTask)
      → TaskAgrees r
      → (str_eq r.job_id k ≡ true → In r.content tasks)
      → IsHandled k tasks r
  row-IsHandled r tasks a i = elim (Bool-cases (str_eq r.job_id k)) [
    | inr far ↦ inl far
    | inl mine ↦ elim (Bool-cases (is_over r.content.status)) [
      | inl over ↦ inr (inl (over_settled r.status (rw a.status at over)))
      | inr open_task ↦ inr (
          inr (
            subst (λ id. In id (left_ids tasks)) a.id
              (In-left_ids r.content tasks open_task (i mine))))
    ]
  ]

  start-IsHandled : (db : Db) → IsSound db → All (IsHandled k (tasks_for_job k db)) db.tasks
  unfolding tasks_for_job
  start-IsHandled db s =
      let order = λ (a b : TaskRow). leb a.created_at b.created_at in
      let mine = λ (r : TaskRow). str_eq r.job_id k in
      All-zip
        (λ r a i.
          row-IsHandled r (tasks_for_job k db) a
            (λ m. In-map (λ x. x.content) r (sort_by order (select mine db.tasks)) (i m)))
        db.tasks s.tasks_agree (In-sort_by-select order mine db.tasks)

pub get_job-row :
    (k : String) (db : Db) (job : ResearchJob)
    → IsSound db
    → get_job k db ≡ some job
    → (r : JobRow) × (job_row k db ≡ some r)
      × (r.content ≡ job)
      × (job.id ≡ k)
      × (job.status ≡ r.status)
get_job-row k db job s h = elim (Option-cases (job_row k db)) [
  | inl e ↦ absurd (unfold get_job in ground arith)
  | inr (r, e) ↦
      let same : r.content ≡ job = unfold get_job in ground arith in
      let named = find_row-key job_key k db.jobs r e in
      let agrees = All-find_row job_key JobAgrees k db.jobs r s.jobs_agree e in
      (r, e, same, cc (same, named, agrees.id), cc (same, agrees.status))
]

-- Saving a job in a terminal status ends it.
save_job-ends :
    (now : Time) (job : ResearchJob) (db : Db)
    → is_terminal_status job.status ≡ true
    → job_ends job.id (save_job now job db) ≡ true
unfolding job_ends
save_job-ends now job db h = elim (Option-cases (job_row job.id db)) [
  | inl e ↦
      rw (saved_row now job db job.id, job_ends)
        (unfold row_of_job in ground (arith, eq_refl job.id))
  | inr (r, e) ↦
      rw (saved_row now job db job.id, job_ends)
        (unfold merge_job row_of_job in ground (arith, eq_refl job.id))
]

control-for_each :
    (now : Time) (tasks : List JobTask) (s : Scheduler)
    → (for_each (cancel_task now) tasks s).control ≡ s.control
control-for_each now [] s = refl
control-for_each now (t ∷ tasks) s =
    control-for_each now tasks (cancel_task now t s) ∙ (unfold cancel_task in ground arith)

-- The state once the job is stored as cancelled, before the loop over its tasks.
abbrev stopped : String → Time → ResearchJob → Scheduler → Scheduler
stopped k now job s = store_job now (cancelled now job) (set_control k (some cancel) s)

cancel_job-eq :
    (k : String) (now : Time) (s : Scheduler) (job : ResearchJob)
    → get_job k s.db ≡ some job
    → is_terminal job ≡ false
    → cancel_job now k s ≡ (
      true,
      publish "JobFinished" (cancelled now job) (
          for_each
            (cancel_task now)
            (tasks_for_job k (stopped k now job s).db)
            (stopped k now job s)),
    )
unfolding cancel_job
cancel_job-eq k now s job e open_job = rw (e, cancel_job, open_job) refl

finished_row :
    (k : String) (r : TaskRow)
    → IsHandled k [] r
    → (str_eq r.job_id k ≡ false) ⊎ (is_settled r.status ≡ true)
finished_row k r (inl far) = inl far
finished_row k r (inr (inl done)) = inr done
finished_row k r (inr (inr later)) = absurd later

-- On a sound database, cancelling a job that has not ended answers true, ends the job, raises its
-- cancel flag, and leaves none of its tasks in a status from which a worker could run it.
pub cancel_job-stops :
    (k : String) (now : Time) (s : Scheduler) (job : ResearchJob)
    → IsSound s.db
    → get_job k s.db ≡ some job
    → is_terminal job ≡ false
    → ((cancel_job now k s).0 ≡ true)
      × (job_ends k (cancel_job now k s).1.db ≡ true)
      × (control_flag k (cancel_job now k s).1 ≡ some cancel)
      × All
          (λ r. (str_eq r.job_id k ≡ false) ⊎ (is_settled r.status ≡ true))
          (cancel_job now k s).1.db.tasks
unfolding control_flag cancelled set_control
cancel_job-stops k now s job sound e open_job =
    rw (cancel_job-eq k now s job e open_job) (refl, ends, flagged, handled)
  where
    before : Scheduler
    before = stopped k now job s

    same_db : (set_control k (some cancel) s).db ≡ s.db
    same_db = unfold set_control in refl

    before-IsSound : IsSound before.db
    before-IsSound = rw same_db (save_job-IsSound now (cancelled now job) sound)

    handled :
        All
          (λ r. (str_eq r.job_id k ≡ false) ⊎ (is_settled r.status ≡ true))
          (for_each (cancel_task now) (tasks_for_job k before.db) before).db.tasks
    handled =
        All-weaken (λ r h. finished_row k r h) _
          (loop-IsHandled k now (tasks_for_job k before.db) before before-IsSound
            (start-IsHandled k now before.db before-IsSound))

    saved : job_ends k before.db ≡ true
    saved =
        let (r, found, same, named, status) = get_job-row k s.db job sound e in
        rw (← named) (
          save_job-ends now (cancelled now job) (set_control k (some cancel) s).db
            (unfold cancelled is_terminal_status in refl))

    ends : job_ends k (for_each (cancel_task now) (tasks_for_job k before.db) before).db ≡ true
    ends =
        (for_each-Holds (job_ends-IsStable k) (cancel_task now) (tasks_for_job k before.db) before
          (cancel_task-Holds (job_ends-IsStable k) now) (record { at = saved })).at

    flagged :
        control_flag k (for_each (cancel_task now) (tasks_for_job k before.db) before) ≡ some cancel
    flagged =
        rw (control-for_each now (tasks_for_job k before.db) before)
          (unfold set_control in rw get_entry-put_entry (rw (eq_refl k) refl))
