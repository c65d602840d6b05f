-- ===== src/Scheduler/Execution.antt =====
-- `_execute` of scheduler.py against workers that have taken the task over meanwhile, and the
-- running tasks that `reconcile` meets.
use ai_researcher_agent_loca.Prelude.{
  ◌<◌, String, Bool, true, false, some, List, [], ◌∷◌, ◌≡◌, refl, ap, inl, inr, arith, any_of,
  Bool-cases, ltb,
}
use ai_researcher_agent_loca.Prelude.Assoc.{get_entry}
use ai_researcher_agent_loca.Job.{Time, Dict, ResearchJob, JobTask, is_held, lease_expired}
use ai_researcher_agent_loca.Errors.{Exception, classify}
use ai_researcher_agent_loca.PlatformDb.Rows.{Db}
use ai_researcher_agent_loca.PlatformDb.Fencing.{fence_of}
use ai_researcher_agent_loca.PlatformDb.Rejection.{outdated-IsFencedOut}
use ai_researcher_agent_loca.Scheduler.State.{Scheduler}
use ai_researcher_agent_loca.Scheduler.Recovery.{
  Actions, settle_job, fresh_running, after_reclaim, reclaimed, is_empty,
}
use ai_researcher_agent_loca.Scheduler.Worker.{
  failure_report, Surroundings, Runner, RunResult, gives, throws, renew, report_failure,
  report_result, run_task,
}

module _ (w : String) (world : Surroundings) (task : JobTask) (db : Db)
    (old : task.attempts < fence_of task.id db) where
  report_failure-outdated : (exc : Exception) → report_failure w world task exc db ≡ db
  unfolding report_failure
  report_failure-outdated exc =
      let (e, same, _, _) =
        (outdated-IsFencedOut task.id w task.attempts db old).finish
          (failure_report (classify world.tools exc) exc.text (some task.attempts)) world.now in
      ap (λ p. p.1) same

  report_result-outdated :
      (result : Dict) (is_lost : Bool) → report_result w world task result is_lost db ≡ db
  unfolding report_result
  report_result-outdated result true = report_failure-outdated _
  report_result-outdated result false =
      let (e, same, _, _) =
        (outdated-IsFencedOut task.id w task.attempts db old).finish
          (record {
            ok = true;
            result = some result;
            error = "";
            error_category = "";
            fence = some task.attempts;
          })
          world.now in
      ap (λ p. p.1) same

-- The database when the runner of a task comes back: what the renewal thread and the others did.
abbrev pub on_return : String → Surroundings → Time → JobTask → Db → Bool × Db
on_return w world lease task db = renew task w lease (ltb 0 lease) false world.beats db

-- If the task was claimed again while its runner ran, then whatever the runner answers, a result
-- or an exception, and whether or not the renewal thread noticed, nothing of it is stored.
pub run_task-outdated :
    (w : String) (world : Surroundings) (lease : Time) (task : JobTask) (db : Db) (runner : Runner)
    → get_entry task.type world.runners ≡ some runner
    → task.attempts < fence_of task.id (on_return w world lease task db).1
    → run_task w world lease task db ≡ (on_return w world lease task db).1
unfolding run_task
run_task-outdated w world lease task db runner e old = rw (e, run_task) (answered (runner task))
  where
    after : Db
    after = (on_return w world lease task db).1

    answered :
        (r : RunResult)
        → elim r [
          | gives result ↦
              report_result w world task result
                (on_return w world lease task db).0
                (on_return w world lease task db).1
          | throws exc ↦ report_failure w world task exc (on_return w world lease task db).1
        ]
          ≡ (on_return w world lease task db).1
    answered (gives result) = report_result-outdated w world task after old result _
    answered (throws exc) = report_failure-outdated w world task after old exc

-- After the loop over the stale tasks no task object has an expired lease.
after_reclaim-fresh : (now : Time) (t : JobTask) → lease_expired (after_reclaim now t) now ≡ false
unfolding after_reclaim
after_reclaim-fresh now t = elim (Bool-cases (lease_expired t now)) [
  | inl e ↦ rw e (unfold lease_expired reclaimed in refl)
  | inr e ↦ rw (e, e) refl
]

-- Reclaimed tasks count as freshly running, so any CLAIMED or RUNNING task does.
held-fresh_running :
    (now : Time) (tasks : List JobTask)
    → any_of (λ t. is_held t.status) tasks ≡ true
    → is_empty (fresh_running now tasks) ≡ false
unfolding fresh_running
held-fresh_running now [] h = cc
held-fresh_running now (t ∷ tasks) h =
    ground (arith, held-fresh_running now tasks, after_reclaim-fresh now t)

-- A job with a CLAIMED or RUNNING task is left as it is by `reconcile`, also if the lease of that
-- task is over and the task has just been reclaimed: it is neither queued again nor failed.
pub settle_job-held :
    (now : Time) (job : ResearchJob) (tasks : List JobTask) (actions : Actions) (s : Scheduler)
    → any_of (λ t. is_held t.status) tasks ≡ true
    → settle_job now job tasks (actions, s) ≡ (actions, s)
unfolding settle_job
settle_job-held now job tasks actions s h = ground (arith, held-fresh_running now tasks h)
