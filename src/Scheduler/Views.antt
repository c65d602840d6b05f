-- ===== src/Scheduler/Views.antt =====
-- What the writes of scheduler.py make of a client's view of a job.
use ai_researcher_agent_loca.Prelude.{
  String, false, Option, none, some, List, [], ◌∷◌, ◌≡◌, refl, ◌∙◌, inl, inr, arith, Bool-cases,
  str_eq, eq_iff, if◌then◌else◌,
}
use ai_researcher_agent_loca.Prelude.Assoc.{get_entry-put_entry, get_entry-drop_entry}
use ai_researcher_agent_loca.Job.{Time, ResearchJob, JobTask, is_terminal_status}
use ai_researcher_agent_loca.PlatformDb.Rows.{JobRow, job_row}
use ai_researcher_agent_loca.PlatformDb.Jobs.{merge_job, row_of_job, save_job}
use ai_researcher_agent_loca.PlatformDb.Tasks.{add_task}
use ai_researcher_agent_loca.PlatformDb.Absorbing.{saved_row}
use ai_researcher_agent_loca.Scheduler.State.{
  Scheduler, Flag, control_flag, set_control, store_job, for_each,
}
use ai_researcher_agent_loca.Scheduler.Control.{requeue_waiting, cancel_task}
use ai_researcher_agent_loca.Scheduler.JobTable.{status_in, view}

pub requeue-view :
    (j : String) (now : Time) (tasks : List JobTask) (s : Scheduler)
    → view j (for_each (requeue_waiting now) tasks s) ≡ view j s
requeue-view j now [] s = refl
requeue-view j now (t ∷ tasks) s =
    requeue-view j now tasks (requeue_waiting now t s)
    ∙ (unfold requeue_waiting add_task control_flag in ground arith)

pub cancel-view :
    (j : String) (now : Time) (tasks : List JobTask) (s : Scheduler)
    → view j (for_each (cancel_task now) tasks s) ≡ view j s
cancel-view j now [] s = refl
cancel-view j now (t ∷ tasks) s =
    cancel-view j now tasks (cancel_task now t s)
    ∙ (unfold cancel_task add_task control_flag in ground arith)

module _ (j k : String) (now : Time) (s : Scheduler) where
  set_control-flag :
      (flag : Option Flag)
      → control_flag j (set_control k flag s) ≡ (if str_eq k j then flag else control_flag j s)
  unfolding control_flag set_control
  set_control-flag none = get_entry-drop_entry k j s.control
  set_control-flag (some flag) = get_entry-put_entry k j flag s.control

  set_control-db : (flag : Option Flag) → (set_control k flag s).db ≡ s.db
  unfolding set_control
  set_control-db none = refl
  set_control-db (some flag) = refl

  saved_status :
      (job : ResearchJob) (r : JobRow)
      → job_row k s.db ≡ some r
      → job.id ≡ k
      → is_terminal_status r.status ≡ false
      → status_in j (save_job now job s.db)
        ≡ (if str_eq k j then some job.status else status_in j s.db)
  saved_status job r found named runs = elim (Bool-cases (str_eq k j)) [
    | inl same ↦
        let e : k ≡ j = ground (arith, eq_iff k j) in
        let found' : job_row j s.db ≡ some r = rw e at found in
        rw (saved_row now job s.db j, named, same, found')
          (unfold merge_job row_of_job in ground (arith, runs))
    | inr other ↦ rw (saved_row now job s.db j, named, other) refl
  ]

  -- A job is stored with a control flag.
  pub stored_view :
      (job : ResearchJob) (flag : Option Flag) (r : JobRow)
      → job_row k s.db ≡ some r
      → job.id ≡ k
      → is_terminal_status r.status ≡ false
      → view j (store_job now job (set_control k flag s))
        ≡ (if str_eq k j then record { status = some job.status; flag = flag } else view j s)
  unfolding control_flag
  stored_view job flag r found named runs =
      let status = saved_status job r found named runs in
      let control = set_control-flag flag in
      let db = set_control-db flag in
      elim (Bool-cases (str_eq k j)) [
        | inl same ↦
            let st : status_in j (save_job now job (set_control k flag s).db) ≡ some job.status =
              rw db (rw same at status) in
            let fl : control_flag j (set_control k flag s) ≡ flag = rw same at control in
            rw same (λ i. record { status = st i; flag = fl i })
        | inr other ↦
            let st : status_in j (save_job now job (set_control k flag s).db) ≡ status_in j s.db =
              rw db (rw other at status) in
            let fl : control_flag j (set_control k flag s) ≡ control_flag j s =
              rw other at control in
            rw other (λ i. record { status = st i; flag = fl i })
      ]

  -- The flag is cleared and nothing is stored.
  pub cleared_view :
      (r : JobRow)
      → job_row k s.db ≡ some r
      → view j (set_control k none s)
        ≡ (if str_eq k j then record { status = some r.status; flag = none } else view j s)
  cleared_view r found =
      let control = set_control-flag none in
      let db = set_control-db none in
      elim (Bool-cases (str_eq k j)) [
        | inl same ↦
            let e : k ≡ j = ground (arith, eq_iff k j) in
            let st : status_in j (set_control k none s).db ≡ some r.status =
              rw (db, ← e, found) refl in
            let fl : control_flag j (set_control k none s) ≡ none = rw same at control in
            rw same (λ i. record { status = st i; flag = fl i })
        | inr other ↦
            let st : status_in j (set_control k none s).db ≡ status_in j s.db = rw db refl in
            let fl : control_flag j (set_control k none s) ≡ control_flag j s =
              rw other at control in
            rw other (λ i. record { status = st i; flag = fl i })
      ]
