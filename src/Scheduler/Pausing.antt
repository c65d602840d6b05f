-- ===== src/Scheduler/Pausing.antt =====
-- `pause_job` of scheduler.py against the claims that follow it, and jobs that stay where they are.
use ai_researcher_agent_loca.Prelude.{
  ℕ, ◌≤◌, String, Bool, true, false, ◌&&◌, some, List, ◌≡◌, ◌≢◌, refl, arith, In, count_where-In,
  eq_refl, if◌then◌else◌,
}
use ai_researcher_agent_loca.Job.{
  Time, JobStatus, ResearchJob, JobTask, is_terminal, is_terminal_status,
}
use ai_researcher_agent_loca.PlatformDb.Rows.{Db, JobRow, TaskRow, job_row, task_row}
use ai_researcher_agent_loca.PlatformDb.Jobs.{get_job, merge_job, row_of_job, list_jobs}
use ai_researcher_agent_loca.PlatformDb.Claim.{claim_next_task, withholds}
use ai_researcher_agent_loca.PlatformDb.Soundness.{IsSound}
use ai_researcher_agent_loca.PlatformDb.Absorbing.{saved_row}
use ai_researcher_agent_loca.PlatformDb.Caps.{claim-withholds}
use ai_researcher_agent_loca.Scheduler.State.{Scheduler, pause, set_control, store_job}
use ai_researcher_agent_loca.Scheduler.Control.{pause_job, pauses_at_once}
use ai_researcher_agent_loca.Scheduler.Advance.{
  is_research, is_deep, takes_slot, active_deep_jobs, is_crowded, advance_job, start_or_move,
  awaits_start, is_movable, is_pausing,
}
use ai_researcher_agent_loca.Scheduler.Stable.{pause_job-Holds}
use ai_researcher_agent_loca.Scheduler.Safety.{IsSound-IsStable}
use ai_researcher_agent_loca.Scheduler.Cancelling.{get_job-row}

abbrev paused : ResearchJob → ResearchJob
paused job = record job {
  status = if pauses_at_once job.status then JobStatus.paused else JobStatus.pausing;
}

pause_job-eq :
    (k : String) (now : Time) (s : Scheduler) (job : ResearchJob)
    → get_job k s.db ≡ some job
    → is_terminal job ≡ false
    → pause_job now k s ≡ (true, store_job now (paused job) (set_control k (some pause) s))
unfolding pause_job
pause_job-eq k now s job e open_job = rw (e, pause_job, open_job) refl

paused-withholds :
    (at_once : Bool) → withholds (if at_once then JobStatus.paused else JobStatus.pausing) ≡ true
unfolding withholds
paused-withholds true = refl
paused-withholds false = refl

merged_withholds :
    (r new : JobRow)
    → is_terminal_status r.status ≡ false
    → withholds new.status ≡ true
    → withholds (merge_job new r).status ≡ true
unfolding merge_job
merged_withholds r new e h = rw e h

-- A pause that is accepted leaves the job's row in a status that withholds its tasks.
pause_job-row :
    (k : String) (now : Time) (s : Scheduler) (job : ResearchJob)
    → IsSound s.db
    → get_job k s.db ≡ some job
    → is_terminal job ≡ false
    → (r : JobRow) × (job_row k (pause_job now k s).1.db ≡ some r) × (withholds r.status ≡ true)
unfolding set_control
pause_job-row k now s job sound e open_job =
    let (r, found, same, named, status) = get_job-row k s.db job sound e in
    let new = row_of_job now (paused job) in
    let runs : is_terminal_status r.status ≡ false = unfold is_terminal in rw status at open_job in
    (
      merge_job new r,
      rw (pause_job-eq k now s job e open_job)
          (rw (saved_row now (paused job) s.db k, found, named, eq_refl k) refl),
      merged_withholds r new runs
          (unfold row_of_job in paused-withholds (pauses_at_once job.status)),
    )

-- On a sound database, once a job that has not ended is paused, the next claim, by any worker,
-- hands out no task of it.
pub claim-paused :
    (k : String) (now : Time) (s : Scheduler) (job : ResearchJob) (w : String)
    (profiles : List (String × ℕ)) (lease later : Time) (db' : Db) (task : JobTask) (r : TaskRow)
    → IsSound s.db
    → get_job k s.db ≡ some job
    → is_terminal job ≡ false
    → claim_next_task w profiles lease later (pause_job now k s).1.db ≡ (some task, db')
    → task_row task.id (pause_job now k s).1.db ≡ some r
    → r.job_id ≢ k
claim-paused k now s job w profiles lease later db' task r sound e open_job c row mine =
    let (j, found, held) = pause_job-row k now s job sound e open_job in
    let after = (pause_job-Holds IsSound-IsStable now k s (record { at = sound })).at in
    let free =
      claim-withholds w profiles lease later (pause_job now k s).1.db db' task r j after c row
        (rw mine found) in
    cc (held, free)

-- A resuming research job takes a slot itself, so with one slot it is held back by itself.
resuming-is_crowded :
    (job : ResearchJob) (s : Scheduler)
    → s.cfg.max_jobs ≤ 1
    → is_research job.type ≡ true
    → takes_slot job.status ≡ true
    → In job (list_jobs s.db)
    → is_crowded job s ≡ true
unfolding is_crowded active_deep_jobs
resuming-is_crowded job s one research slot listed =
    let counted =
      count_where-In (λ j. is_deep j.type && takes_slot j.status) job (list_jobs s.db) listed
        (unfold is_deep in ground (arith, research, slot)) in
    ground (arith, research, counted, one)

-- With `max_jobs` at its default of 1 or below, a resumed research job that `list_jobs` returns is
-- not started: each time that the scheduler looks at it, it leaves the state as it is.
pub advance_job-resuming :
    (now : Time) (trace_for : String → String) (job : ResearchJob) (s : Scheduler)
    → s.cfg.max_jobs ≤ 1
    → is_research job.type ≡ true
    → job.status ≡ JobStatus.resuming
    → In job (list_jobs s.db)
    → advance_job now trace_for job s ≡ s
unfolding advance_job start_or_move is_movable is_pausing awaits_start
advance_job-resuming now trace_for job s one research resuming listed =
    let slot : takes_slot job.status ≡ true = unfold takes_slot in simp resuming in
    ground (arith, resuming-is_crowded job s one research slot listed, resuming, research)
