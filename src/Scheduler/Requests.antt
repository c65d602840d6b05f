-- ===== src/Scheduler/Requests.antt =====
-- pause_job, resume_job and cancel_job of scheduler.py against the table of JobTable.
use ai_researcher_agent_loca.Prelude.{
  String, false, none, some, List, [], ◌∷◌, ◌≡◌, refl, ◌∙◌, ap, inl, inr, arith, Option-cases,
  Bool-cases, str_eq, eq_iff, if◌then◌else◌,
}
use ai_researcher_agent_loca.Job.{Time, JobStatus, ResearchJob, is_terminal, is_terminal_status}
use ai_researcher_agent_loca.PlatformDb.Rows.{JobRow, job_row}
use ai_researcher_agent_loca.PlatformDb.Jobs.{get_job}
use ai_researcher_agent_loca.PlatformDb.Tasks.{tasks_for_job}
use ai_researcher_agent_loca.PlatformDb.Soundness.{IsSound}
use ai_researcher_agent_loca.Scheduler.State.{
  Scheduler, pause, cancel, control_flag, set_control, store_job,
}
use ai_researcher_agent_loca.Scheduler.Control.{
  pause_job, resume_job, cancel_job, is_paused, cancelled, pauses_at_once,
}
use ai_researcher_agent_loca.Scheduler.Stable.{pause_job-Holds, resume_job-Holds, cancel_job-Holds}
use ai_researcher_agent_loca.Scheduler.Safety.{IsSound-IsStable}
use ai_researcher_agent_loca.Scheduler.Cancelling.{get_job-row}
use ai_researcher_agent_loca.Scheduler.JobTable.{
  Request, to_pause, to_resume, to_cancel, View, view, pause_of, resume_of, cancel_of, asked,
  pause_of-ended, pause_of-open, cancel_of-ended, cancel_of-open, resume_of-paused, resume_of-other,
}
use ai_researcher_agent_loca.Scheduler.Views.{requeue-view, cancel-view, stored_view, cleared_view}

-- A request of a client for the job `k`.
unfoldable pub ask : Time → Request → (k : String) → Scheduler → Scheduler
ask now to_pause k s = (pause_job now k s).1
ask now to_resume k s = (resume_job now k s).1
ask now to_cancel k s = (cancel_job now k s).1

module _ (j k : String) (now : Time) (s : Scheduler) where
  -- A client's view of the job `k` is `v` after the request, and of any other job what it was.
  abbrev Becomes : Scheduler → View → Type 0
  Becomes s' v = view j s' ≡ (if str_eq k j then v else view j s)

  asked_view :
      (request : Request) (r : JobRow) (s' : Scheduler) (v : View)
      → job_row k s.db ≡ some r
      → asked request (view k s) ≡ v
      → Becomes s' v
      → view j s' ≡ (if str_eq k j then asked request (view j s) else view j s)
  asked_view request r s' v found e becomes = elim (Bool-cases (str_eq k j)) [
    | inl same ↦
        let at_j : k ≡ j = ground (arith, eq_iff k j) in
        let e' : asked request (view j s) ≡ v = rw at_j at e in
        let b : view j s' ≡ v = rw same at becomes in rw (same, e') b
    | inr other ↦ let b : view j s' ≡ view j s = rw other at becomes in rw other b
  ]

  same_view : Becomes s (view k s)
  same_view = elim (Bool-cases (str_eq k j)) [
    | inl same ↦ let e : k ≡ j = ground (arith, eq_iff k j) in rw (same, e) refl
    | inr other ↦ rw other refl
  ]

  module _ (job : ResearchJob) (found : get_job k s.db ≡ some job) (r : JobRow)
      (row : job_row k s.db ≡ some r) (named : job.id ≡ k) (status : job.status ≡ r.status) where
    runs_row : is_terminal_status job.status ≡ false → is_terminal_status r.status ≡ false
    runs_row runs = rw status at runs

    pause_view : Becomes (pause_job now k s).1 (pause_of job.status (view k s))
    unfolding pause_job is_terminal
    pause_view = elim (Bool-cases (is_terminal_status job.status)) [
      | inl ended ↦
          rw (found, pause_job, ended, pause_of-ended job.status (view k s) ended) same_view
      | inr runs ↦
          rw (found, pause_job, runs, pause_of-open job.status (view k s) runs)
            (stored_view j k now s
              (record job {
                status = if pauses_at_once job.status then JobStatus.paused else JobStatus.pausing;
              })
              (some pause) r row named (runs_row runs))
    ]

    cancel_view : Becomes (cancel_job now k s).1 (cancel_of job.status (view k s))
    unfolding cancel_job cancelled is_terminal control_flag
    cancel_view = elim (Bool-cases (is_terminal_status job.status)) [
      | inl ended ↦
          rw (found, cancel_job, ended, cancel_of-ended job.status (view k s) ended) same_view
      | inr runs ↦
          let stored = store_job now (cancelled now job) (set_control k (some cancel) s) in
          rw (found, cancel_job, runs, cancel_of-open job.status (view k s) runs)
            (cancel-view j now (tasks_for_job k stored.db) stored
              ∙ stored_view j k now s (cancelled now job) (some cancel) r row named (runs_row runs))
    ]

    resume_view : Becomes (resume_job now k s).1 (resume_of job.status)
    unfolding resume_job
    resume_view = elim (Bool-cases (is_paused job.status)) [
      | inl waits ↦
          let (goes, runs) = resume_of-paused job.status waits in
          let resumed = record job { status = JobStatus.resuming; updated_at = now } in
          let stored = store_job now resumed (set_control k none s) in
          rw (found, resume_job, waits, goes)
            (requeue-view j now (tasks_for_job k stored.db) stored
              ∙ stored_view j k now s resumed none r row named (runs_row runs))
      | inr other ↦
          let cleared : Becomes (set_control k none s)
              (record { status = some job.status; flag = none }) =
            rw status (cleared_view j k now s r row) in
          rw (found, resume_job, other, resume_of-other job.status other) cleared
    ]

    answered_view :
        (request : Request)
        → view j (ask now request k s) ≡ (if str_eq k j then asked request (view j s) else view j s)
    unfolding ask
    answered_view to_pause =
        asked_view to_pause r _ (pause_of job.status (view k s)) row (rw (row, status) refl)
          pause_view
    answered_view to_resume =
        asked_view to_resume r _ (resume_of job.status) row (rw (row, status) refl) resume_view
    answered_view to_cancel =
        asked_view to_cancel r _ (cancel_of job.status (view k s)) row (rw (row, status) refl)
          cancel_view

  missing_same : (request : Request) → get_job k s.db ≡ none → ask now request k s ≡ s
  unfolding ask pause_job resume_job cancel_job
  missing_same to_pause missing = rw (ask, pause_job, missing) refl
  missing_same to_resume missing = rw (ask, resume_job, missing) refl
  missing_same to_cancel missing = rw (ask, cancel_job, missing) refl

  -- A request for a job that is not there does nothing.
  missing_view :
      (request : Request)
      → get_job k s.db ≡ none
      → view j (ask now request k s) ≡ (if str_eq k j then asked request (view j s) else view j s)
  unfolding get_job
  missing_view request missing =
      let absent : job_row k s.db ≡ none = ground arith in
      rw (missing_same request missing) (elim (Bool-cases (str_eq k j)) [
        | inl same ↦
            let e : k ≡ j = ground (arith, eq_iff k j) in
            let absent' : job_row j s.db ≡ none = rw e at absent in rw (same, absent') refl
        | inr other ↦ rw other refl
      ])

ask-view :
    (j k : String) (now : Time) (request : Request) (s : Scheduler)
    → IsSound s.db
    → view j (ask now request k s) ≡ (if str_eq k j then asked request (view j s) else view j s)
ask-view j k now request s sound = elim (Option-cases (get_job k s.db)) [
  | inl missing ↦ missing_view j k now s request missing
  | inr (job, found) ↦
      let (r, row, same, named, status) = get_job-row k s.db job sound found in
      answered_view j k now s job found r row named status request
]

ask-IsSound :
    (now : Time) (request : Request) (k : String) (s : Scheduler)
    → IsSound s.db
    → IsSound (ask now request k s).db
unfolding ask
ask-IsSound now to_pause k s h = (pause_job-Holds IsSound-IsStable now k s (record { at = h })).at
ask-IsSound now to_resume k s h = (resume_job-Holds IsSound-IsStable now k s (record { at = h })).at
ask-IsSound now to_cancel k s h = (cancel_job-Holds IsSound-IsStable now k s (record { at = h })).at

-- Requests at their times, each for a job.
abbrev pub ask_all : List (Time × (Request × String)) → Scheduler → Scheduler
ask_all [] s = s
ask_all ((now, (request, k)) ∷ requests) s = ask_all requests (ask now request k s)

-- The same on the view of the job `j`, by the table.
abbrev pub asked_all : (j : String) → List (Time × (Request × String)) → View → View
asked_all j [] v = v
asked_all j ((now, (request, k)) ∷ requests) v =
    asked_all j requests (if str_eq k j then asked request v else v)

-- Over any requests to pause, resume and cancel jobs, on a sound database, the status and the
-- control flag of each job become what the table says: a pause leaves an ended job as it is, makes
-- a QUEUED, BLOCKED or WAITING_FOR_USER job PAUSED and any other, also a PAUSED one, PAUSING, with
-- the flag set to pause; a resume clears the flag and makes a PAUSED job, and no other, RESUMING; a
-- cancellation leaves an ended job as it is and makes any other CANCELLED, with the flag set to
-- cancel; and requests for other jobs, or for a job that is not stored, change neither.
pub ask_all-view :
    (j : String) (requests : List (Time × (Request × String))) (s : Scheduler)
    → IsSound s.db
    → view j (ask_all requests s) ≡ asked_all j requests (view j s)
ask_all-view j [] s h = refl
ask_all-view j ((now, (request, k)) ∷ requests) s h =
    ask_all-view j requests (ask now request k s) (ask-IsSound now request k s h)
    ∙ ap (asked_all j requests) (ask-view j k now request s h)
