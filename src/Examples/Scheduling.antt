-- ===== src/Examples/Scheduling.antt =====
-- The theorems about the scheduler, at a research job with one task.
use ai_researcher_agent_loca.Prelude.{
  ◌<◌, String, true, false, none, some, List, [], ◌∷◌, ◌≡◌, ◌≢◌, ◌⊎◌, refl, arith, All, inl, str_eq,
}
use ai_researcher_agent_loca.Prelude.Assoc.{get_entry, put_entry, drop_entry}
use ai_researcher_agent_loca.Job.{
  Time, JobStatus, TaskStatus, JobTask, ResearchJob, is_active_status, lease_expired,
}
use ai_researcher_agent_loca.Errors.{TextTools}
use ai_researcher_agent_loca.PlatformDb.Rows.{Db, job_row}
use ai_researcher_agent_loca.PlatformDb.Jobs.{save_job}
use ai_researcher_agent_loca.PlatformDb.Tasks.{add_task, written, tasks_for_job}
use ai_researcher_agent_loca.PlatformDb.Claim.{claim_next_task, claimed}
use ai_researcher_agent_loca.PlatformDb.Soundness.{
  IsSound, save_job-IsSound, add_task-IsSound, claim_next_task-IsSound,
}
use ai_researcher_agent_loca.PlatformDb.Fencing.{fence_of}
use ai_researcher_agent_loca.PlatformDb.Absorbing.{job_ends}
use ai_researcher_agent_loca.PlatformDb.Settled.{is_settled}
use ai_researcher_agent_loca.Scheduler.State.{
  Scheduler, SchedulerConfig, cancel, control_flag, set_control,
}
use ai_researcher_agent_loca.Scheduler.Control.{
  is_paused, cancel_task, is_over, cancelled, cancel_job, pause_job, resume_job, pauses_at_once,
}
use ai_researcher_agent_loca.Scheduler.Recovery.{
  reconcile, reconcile_each, reconcile_job, settle_job, fresh_running, after_reclaim, reclaimed,
  stale_running,
}
use ai_researcher_agent_loca.Scheduler.Advance.{advance_job, is_research}
use ai_researcher_agent_loca.Scheduler.Worker.{Surroundings, Runner, gives, Beat, renew, run_task}
use ai_researcher_agent_loca.Scheduler.JobTable.{Request, to_pause, to_resume, to_cancel, view}
use ai_researcher_agent_loca.Scheduler.Requests.{ask, ask_all, asked_all, ask_all-view}
use ai_researcher_agent_loca.Scheduler.Recovering.{reconcile-held}
use ai_researcher_agent_loca.Scheduler.Cancelling.{cancel_job-stops}
use ai_researcher_agent_loca.Scheduler.Pausing.{claim-paused, advance_job-resuming}
use ai_researcher_agent_loca.Scheduler.Execution.{run_task-outdated, on_return}
use ai_researcher_agent_loca.Examples.Samples.{
  database, research_job, fetch_task, empty, submitted, caps, first_claim, claimed_once,
  claimed_twice, empty-IsSound,
}

submitted-IsSound : IsSound submitted
submitted-IsSound =
    add_task-IsSound 4 fetch_task
      (save_job-IsSound 3 (research_job JobStatus.running) empty-IsSound)

claimed_once-IsSound : IsSound claimed_once
claimed_once-IsSound = claim_next_task-IsSound "w1" caps 60 10 submitted-IsSound

abbrev stored_job : JobStatus → Time → ResearchJob
stored_job status now = record (research_job status) { updated_at = now }

abbrev cfg : SchedulerConfig
cfg = record {
  max_jobs = 1;
  worker_threads = 4;
  lease_seconds = 60;
  heartbeat_seconds = 15;
  poll_interval = 1;
  profile_caps = caps;
}

abbrev scheduler : Db → Scheduler
scheduler db = record { cfg = cfg; db = db; control = []; events = [] }

cancel_job-stops_example :
    ((cancel_job 20 "job_1" (scheduler submitted)).0 ≡ true)
    × (job_ends "job_1" (cancel_job 20 "job_1" (scheduler submitted)).1.db ≡ true)
    × (control_flag "job_1" (cancel_job 20 "job_1" (scheduler submitted)).1 ≡ some cancel)
    × All
        (λ r. (str_eq r.job_id "job_1" ≡ false) ⊎ (is_settled r.status ≡ true))
        (cancel_job 20 "job_1" (scheduler submitted)).1.db.tasks
unfolding database
cancel_job-stops_example =
    cancel_job-stops "job_1" 20 (scheduler submitted) (stored_job JobStatus.running 3)
      submitted-IsSound refl refl

-- The worker has one runner; while it runs, another worker claims the task.
abbrev tools : TextTools
tools = record {
  lower = λ text. text;
  has_text = λ needle text. str_eq needle text;
  find_code = λ text. none;
}

abbrev fetch : Runner
fetch task = gives []

abbrev overtaken : Beat
overtaken = record { others = λ db. claimed_twice; now = 110; broken = false }

abbrev quiet : Beat
quiet = record { others = λ db. db; now = 20; broken = false }

abbrev world : List Beat → Surroundings
world beats = record {
  tools = tools;
  runners = ("FETCH_DOCUMENT", fetch) ∷ [];
  lost_text = λ id. "lost ownership";
  trace_for = λ id. "trace";
  beats = beats;
  now = 120;
}

outrun :
    first_claim.attempts
    < fence_of first_claim.id
        (on_return "w1" (world (overtaken ∷ [])) 60 first_claim claimed_once).1
unfolding database fence_of renew
outrun = omega arith

run_task-outdated_example :
    run_task "w1" (world (overtaken ∷ [])) 60 first_claim claimed_once
    ≡ (on_return "w1" (world (overtaken ∷ [])) 60 first_claim claimed_once).1
unfolding database get_entry
run_task-outdated_example =
    run_task-outdated "w1" (world (overtaken ∷ [])) 60 first_claim claimed_once fetch refl outrun

abbrev cancelled_db : Db
cancelled_db = save_job 20 (research_job JobStatus.cancelled) submitted

cancelled_ends : job_ends "job_1" cancelled_db ≡ true
unfolding database job_ends
cancelled_ends = refl

-- The lease of the task is over at 100: it is reclaimed, and its job stays RUNNING.
reclaimed_at_100 :
    (reconcile 100 (scheduler claimed_once)).0
    ≡ record { stale_reclaimed = 1; jobs_resumed = 0; dead_lettered = 0 }
unfolding database reconcile reconcile_each reconcile_job settle_job is_active_status fresh_running
    lease_expired after_reclaim reclaimed stale_running
reclaimed_at_100 = refl

reconcile-held_example :
    job_row "job_1" (reconcile 100 (scheduler claimed_once)).1.db
    ≡ job_row "job_1" (scheduler claimed_once).db
unfolding database tasks_for_job
reconcile-held_example =
    reconcile-held "job_1" 100 (scheduler claimed_once) claimed_once-IsSound refl

-- The job is paused while it runs, resumed too early, and cancelled; a pause after that is too late.
abbrev requests : List (Time × (Request × String))
requests =
    (10, (to_pause, "job_1"))
    ∷ (11, (to_resume, "job_1"))
    ∷ (12, (to_cancel, "job_1"))
    ∷ (13, (to_pause, "job_1"))
    ∷ (14, (to_cancel, "job_2"))
    ∷ []

cancelled_in_the_end :
    view "job_1" (ask_all requests (scheduler submitted))
    ≡ record { status = some JobStatus.cancelled; flag = some cancel }
unfolding database ask pause_job resume_job cancel_job control_flag set_control is_paused
    pauses_at_once cancel_task is_over cancelled get_entry put_entry drop_entry
cancelled_in_the_end = refl

ask_all-view_example :
    view "job_1" (ask_all requests (scheduler submitted))
    ≡ asked_all "job_1" requests (view "job_1" (scheduler submitted))
ask_all-view_example = ask_all-view "job_1" requests (scheduler submitted) submitted-IsSound

abbrev resuming_db : Db
resuming_db = save_job 5 (research_job JobStatus.resuming) empty

advance_job-resuming_example :
    advance_job 30 (λ id. "trace") (stored_job JobStatus.resuming 5) (scheduler resuming_db)
    ≡ scheduler resuming_db
unfolding database is_research
advance_job-resuming_example =
    advance_job-resuming 30 (λ id. "trace") (stored_job JobStatus.resuming 5)
      (scheduler resuming_db) (omega arith) refl refl (inl refl)

-- A second job beside the one that is paused.
abbrev other_task : JobTask
other_task = record fetch_task { id = "tk_2"; job_id = "job_2" }

abbrev two_jobs : Db
two_jobs =
    add_task 6 other_task
      (save_job 5 (record (research_job JobStatus.running) { id = "job_2" }) submitted)

two_jobs-IsSound : IsSound two_jobs
two_jobs-IsSound = add_task-IsSound 6 other_task (
    save_job-IsSound 5 (record (research_job JobStatus.running) { id = "job_2" }) submitted-IsSound)

abbrev pausing : Scheduler
pausing = (pause_job 7 "job_1" (scheduler two_jobs)).1

abbrev other_claim : JobTask
other_claim = claimed "w1" 60 10 (record other_task { status = TaskStatus.queued; updated_at = 6 })

other_claimed :
    claim_next_task "w1" caps 60 10 pausing.db
    ≡ (some other_claim, (claim_next_task "w1" caps 60 10 pausing.db).1)
unfolding database pause_job pauses_at_once set_control
other_claimed = refl

claim-paused_example : other_claim.job_id ≢ "job_1"
unfolding database pause_job pauses_at_once set_control
claim-paused_example =
    claim-paused "job_1" 7 (scheduler two_jobs) (stored_job JobStatus.running 3) "w1" caps 60 10
      (claim_next_task "w1" caps 60 10 pausing.db).1 other_claim (written 6 other_task)
      two_jobs-IsSound refl refl other_claimed refl
