-- ===== src/Scheduler/Stable.antt =====
-- Properties of the database that every operation of platform_db.py keeps are kept by every
-- operation of the scheduler, a whole turn of a worker included.
use ai_researcher_agent_loca.Prelude.{
  ℕ, String, Bool, true, false, Option, none, some, List, [], ◌∷◌, inl, inr, Option-cases,
  Bool-cases, ◌+◌, length, if◌then◌else◌,
}
use ai_researcher_agent_loca.Job.{Time, ResearchJob, JobTask}
use ai_researcher_agent_loca.PlatformDb.Rows.{Db}
use ai_researcher_agent_loca.PlatformDb.Jobs.{save_job, get_job, incomplete_jobs}
use ai_researcher_agent_loca.PlatformDb.Tasks.{add_task, tasks_for_job}
use ai_researcher_agent_loca.PlatformDb.Claim.{claim_next_task}
use ai_researcher_agent_loca.PlatformDb.Ownership.{Report, heartbeat, finish_task, release_task}
use ai_researcher_agent_loca.Scheduler.State.{
  Scheduler, Flag, set_control, for_each, store_job, store_task, publish,
}
use ai_researcher_agent_loca.Scheduler.Control.{
  submit_job, pause_job, resume_job, cancel_job, requeue_waiting, cancel_task,
}
use ai_researcher_agent_loca.Scheduler.Recovery.{
  stale_running, reclaimed, Actions, reconcile, reconcile_each, reconcile_job, settle_job,
}
use ai_researcher_agent_loca.Scheduler.Advance.{
  promote, promote_blocked, maybe_start_queued_job, move_on, start_or_move, advance_job,
  advance_jobs, advance_one, Counts, is_crowded,
}

pub record IsStable (P : Db → Type 0) : Type 0 where
  pub save : (now : Time) (job : ResearchJob) (db : Db) → P db → P (save_job now job db)
  pub write : (now : Time) (task : JobTask) (db : Db) → P db → P (add_task now task db)
  pub claim :
      (w : String) (profiles : List (String × ℕ)) (lease now : Time) (db : Db)
      → P db
      → P (claim_next_task w profiles lease now db).1
  pub beat :
      (k w : String) (lease : Time) (fence : Option ℕ) (now : Time) (db : Db)
      → P db
      → P (heartbeat k w lease fence now db).1
  pub finish :
      (k w : String) (report : Report) (now : Time) (db : Db)
      → P db
      → P (finish_task k w report now db).1
  pub release :
      (k w : String) (fence : Option ℕ) (now : Time) (db : Db)
      → P db
      → P (release_task k w fence now db).1

-- The predicate on the database of a state, and of the state that an operation returns.
pub record Holds (P : Db → Type 0) (s : Scheduler) : Type 0 where
  pub at : P s.db

pub record HoldsAfter (P : Db → Type 0) {A : Type 0} (r : A × Scheduler) : Type 0 where
  pub at : P r.1.db

module _ {P : Db → Type 0} (stable : IsStable P) where
  open stable use {save, write, claim, beat, finish, release}

  pub store_job-Holds :
      (now : Time) (job : ResearchJob) (s : Scheduler) → Holds P s → Holds P (store_job now job s)
  store_job-Holds now job s h = record { at = save now job s.db h.at }

  pub store_task-Holds :
      (now : Time) (task : JobTask) (s : Scheduler) → Holds P s → Holds P (store_task now task s)
  store_task-Holds now task s h = record { at = write now task s.db h.at }

  publish-Holds :
      (type : String) (job : ResearchJob) (s : Scheduler) → Holds P s → Holds P (publish type job s)
  publish-Holds type job s h = record { at = h.at }

  set_control-Holds :
      (k : String) (flag : Option Flag) (s : Scheduler) → Holds P s → Holds P (set_control k flag s)
  unfolding set_control
  set_control-Holds k none s h = record { at = h.at }
  set_control-Holds k (some flag) s h = record { at = h.at }

  pub if-Holds : (b : Bool) (x y : Scheduler) → Holds P x → Holds P y → Holds P (if b then x else y)
  if-Holds true x y hx hy = hx
  if-Holds false x y hx hy = hy

  pub if-HoldsAfter :
      {A : Type 0} (b : Bool) (x y : A × Scheduler)
      → HoldsAfter P x
      → HoldsAfter P y
      → HoldsAfter P (if b then x else y)
  if-HoldsAfter true x y hx hy = hx
  if-HoldsAfter false x y hx hy = hy

  pub after : {A : Type 0} (a : A) (s : Scheduler) → Holds P s → HoldsAfter P (a, s)
  after a s h = record { at = h.at }

  ruleset holds_rules = (
    store_job-Holds, store_task-Holds, publish-Holds, set_control-Holds, if-Holds, if-HoldsAfter,
    after,
  )

  pub for_each-Holds :
      {A : Type 0} (body : A → Scheduler → Scheduler) (xs : List A) (s : Scheduler)
      → ((x : A) (t : Scheduler) → Holds P t → Holds P (body x t))
      → Holds P s
      → Holds P (for_each body xs s)
  for_each-Holds body [] s keep p = p
  for_each-Holds body (x ∷ xs) s keep p = for_each-Holds body xs (body x s) keep (keep x s p)

  pub submit_job-Holds :
      (now : Time) (job : ResearchJob) (tasks : List JobTask) (s : Scheduler)
      → Holds P s
      → HoldsAfter P (submit_job now job tasks s)
  unfolding submit_job
  submit_job-Holds now job tasks s p = search (holds_rules, for_each-Holds) depth 8

  move_on-Holds :
      (now : Time) (c : Counts) (job : ResearchJob) (s : Scheduler)
      → Holds P s
      → Holds P (move_on now c job s)
  unfolding move_on
  move_on-Holds now c job s p = search holds_rules depth 8

  requeue_waiting-Holds :
      (now : Time) (t : JobTask) (s : Scheduler) → Holds P s → Holds P (requeue_waiting now t s)
  unfolding requeue_waiting
  requeue_waiting-Holds now t s p = search holds_rules

  pub cancel_task-Holds :
      (now : Time) (t : JobTask) (s : Scheduler) → Holds P s → Holds P (cancel_task now t s)
  unfolding cancel_task
  cancel_task-Holds now t s p = search holds_rules

  ruleset task_rules = (holds_rules, for_each-Holds, requeue_waiting-Holds, cancel_task-Holds)

  pub pause_job-Holds :
      (now : Time) (k : String) (s : Scheduler) → Holds P s → HoldsAfter P (pause_job now k s)
  unfolding pause_job
  pause_job-Holds now k s p = elim (Option-cases (get_job k s.db)) [
    | inl e ↦ rw (e, pause_job) (search task_rules)
    | inr (job, e) ↦ rw (e, pause_job) (search task_rules depth 8)
  ]

  pub resume_job-Holds :
      (now : Time) (k : String) (s : Scheduler) → Holds P s → HoldsAfter P (resume_job now k s)
  unfolding resume_job
  resume_job-Holds now k s p = elim (Option-cases (get_job k s.db)) [
    | inl e ↦ rw (e, resume_job) (search task_rules)
    | inr (job, e) ↦ rw (e, resume_job) (search task_rules depth 8)
  ]

  pub cancel_job-Holds :
      (now : Time) (k : String) (s : Scheduler) → Holds P s → HoldsAfter P (cancel_job now k s)
  unfolding cancel_job
  cancel_job-Holds now k s p = elim (Option-cases (get_job k s.db)) [
    | inl e ↦ rw (e, cancel_job) (search task_rules)
    | inr (job, e) ↦ rw (e, cancel_job) (search task_rules depth 8)
  ]

  settle_job-Holds :
      (now : Time) (job : ResearchJob) (tasks : List JobTask) (actions : Actions) (s : Scheduler)
      → Holds P s
      → HoldsAfter P (settle_job now job tasks (actions, s))
  unfolding settle_job
  settle_job-Holds now job tasks actions s p = search holds_rules depth 8

  pub reconcile_each-Holds :
      (now : Time) (jobs : List ResearchJob) (actions : Actions) (s : Scheduler)
      → Holds P s
      → HoldsAfter P (reconcile_each now jobs (actions, s))
  unfolding reconcile_each reconcile_job
  reconcile_each-Holds now [] actions s p = after actions s p
  reconcile_each-Holds now (job ∷ jobs) actions s p =
      let tasks = tasks_for_job job.id s.db in
      let stale = stale_running now tasks in
      let (actions', s') = settle_job now job tasks (
        record actions { stale_reclaimed = actions.stale_reclaimed + length stale },
        for_each (λ t. store_task now (reclaimed t)) stale s,
      ) in
      reconcile_each-Holds now jobs actions' s' (record {
        at =
            (settle_job-Holds now job tasks _ (for_each (λ t. store_task now (reclaimed t)) stale s)
              (for_each-Holds (λ t. store_task now (reclaimed t)) stale s
                (λ t u q. store_task-Holds now (reclaimed t) u q) p)).at;
      })

  pub reconcile-Holds : (now : Time) (s : Scheduler) → Holds P s → HoldsAfter P (reconcile now s)
  unfolding reconcile
  reconcile-Holds now s p = reconcile_each-Holds now (incomplete_jobs s.db) _ s p

  promote-Holds :
      (now : Time) (job : ResearchJob) (s : Scheduler) → Holds P s → Holds P (promote now job s)
  unfolding promote
  promote-Holds now job s p = search holds_rules

  pub promote_blocked-Holds :
      (now : Time) (s : Scheduler) → Holds P s → Holds P (promote_blocked now s)
  unfolding promote_blocked
  promote_blocked-Holds now s p = search (task_rules, promote-Holds)

  maybe_start-Holds :
      (now : Time) (trace : String) (job : ResearchJob) (s : Scheduler)
      → Holds P s
      → Holds P (maybe_start_queued_job now trace job s).2
  unfolding maybe_start_queued_job
  maybe_start-Holds now trace job s p = elim (Bool-cases (is_crowded job s)) [
    | inl e ↦ rw (e, maybe_start_queued_job) p
    | inr e ↦ rw (e, maybe_start_queued_job) (search holds_rules)
  ]

  start_or_move-Holds :
      (now : Time) (trace_for : String → String) (c : Counts) (job : ResearchJob) (s : Scheduler)
      → Holds P s
      → Holds P (start_or_move now trace_for c job s)
  unfolding start_or_move
  start_or_move-Holds now trace_for c job s p =
      search (holds_rules, move_on-Holds, maybe_start-Holds) depth 8

  advance_job-Holds :
      (now : Time) (trace_for : String → String) (job : ResearchJob) (s : Scheduler)
      → Holds P s
      → Holds P (advance_job now trace_for job s)
  unfolding advance_job
  advance_job-Holds now trace_for job s p = search (holds_rules, start_or_move-Holds) depth 8

  pub advance_jobs-Holds :
      (now : Time) (trace_for : String → String) (filter : Option String) (s : Scheduler)
      → Holds P s
      → Holds P (advance_jobs now trace_for filter s)
  unfolding advance_jobs
  advance_jobs-Holds now trace_for none s p = search (task_rules, advance_job-Holds)
  advance_jobs-Holds now trace_for (some k) s p = search (task_rules, advance_job-Holds)

  pub advance_one-Holds :
      (now : Time) (trace_for : String → String) (k : String) (s : Scheduler)
      → Holds P s
      → Holds P (advance_one now trace_for k s)
  unfolding advance_one
  advance_one-Holds now trace_for k s p = elim (Option-cases (get_job k s.db)) [
    | inl e ↦ rw (e, advance_one) p
    | inr (job, e) ↦ rw (e, advance_one) (search (holds_rules, advance_jobs-Holds))
  ]
