-- ===== src/Scheduler/Worker.antt =====
-- `_execute` and one turn of `_worker_loop` of scheduler.py. Other threads and processes act on
-- the same database at the points where this worker waits: they enter as functions on it.
use Prim.Native.String.{◌++◌}
use ai_researcher_agent_loca.Prelude.{
  ℕ, ◌-◌, String, Bool, true, false, not, ◌||◌, Option, none, some, List, [], ◌∷◌, str_eq, ltb,
  ◌==◌, if◌then◌else◌,
}
use ai_researcher_agent_loca.Prelude.Assoc.{get_entry}
use ai_researcher_agent_loca.Job.{Time, Dict, JobStatus, JobTask, is_terminal}
use ai_researcher_agent_loca.Errors.{ErrorCategory, Exception, other_error, TextTools, classify}
use ai_researcher_agent_loca.PlatformDb.Rows.{Db}
use ai_researcher_agent_loca.PlatformDb.Jobs.{get_job}
use ai_researcher_agent_loca.PlatformDb.Claim.{claim_next_task}
use ai_researcher_agent_loca.PlatformDb.Ownership.{
  Report, returned, raised, heartbeat, finish_task, release_task,
}
use ai_researcher_agent_loca.Scheduler.State.{Scheduler}
use ai_researcher_agent_loca.Scheduler.Advance.{promote_blocked, advance_jobs, advance_one}

unfoldable pub category_name : ErrorCategory → String
category_name ErrorCategory.network = "NETWORK"
category_name ErrorCategory.auth = "AUTH"
category_name ErrorCategory.rate_limit = "RATE_LIMIT"
category_name ErrorCategory.parsing = "PARSING"
category_name ErrorCategory.schema = "SCHEMA"
category_name ErrorCategory.model = "MODEL"
category_name ErrorCategory.database = "DATABASE"
category_name ErrorCategory.resource = "RESOURCE"
category_name ErrorCategory.security = "SECURITY"
category_name ErrorCategory.user = "USER"
category_name ErrorCategory.unknown = "UNKNOWN"

-- What a runner does with a task: a result dict, or an exception.
pub data RunResult : Type 0 where
  gives : Dict → RunResult
  throws : Exception → RunResult

abbrev pub Runner : Type 0
Runner = JobTask → RunResult

-- One interval of the renewal thread: what the others did, when it ends, and whether the
-- heartbeat then fails with an error of the database, which is logged and passed over.
pub record Beat : Type 0 where
  pub others : Db → Db
  pub now : Time
  pub broken : Bool

-- The thread `_renew` over its intervals: whether ownership was lost, and the database. The thread
-- runs only under a lease, and ends once ownership is lost; the others go on in either case.
unfoldable pub renew :
    JobTask → String → Time → (is_running is_lost : Bool) → List Beat → Db → Bool × Db
renew task worker_id lease is_running is_lost [] db = (is_lost, db)
renew task worker_id lease is_running is_lost (beat ∷ beats) db =
    let seen = beat.others db in
    let (ok, next) =
      if not is_running || (is_lost || beat.broken)
      then (true, seen)
      else heartbeat task.id worker_id lease (some task.attempts) beat.now seen in
    renew task worker_id lease is_running (is_lost || not ok) beats next

-- What the surroundings of a worker bring to one execution.
pub record Surroundings : Type 0 where
  pub tools : TextTools
  pub runners : List (String × Runner)
  pub lost_text : String → String
  pub trace_for : String → String
  pub beats : List Beat
  pub now : Time

abbrev pub failure_report : ErrorCategory → String → Option ℕ → Report
failure_report cat text fence = record {
  ok = false;
  result = none;
  error = text;
  error_category = category_name cat;
  fence = fence;
}

module _ (worker_id : String) (world : Surroundings) where
  -- `except Exception as exc`: the failure is classified and reported; a stale report is dropped.
  unfoldable pub report_failure : JobTask → Exception → Db → Db
  report_failure task exc db =
      (finish_task task.id worker_id
        (failure_report (classify world.tools exc) exc.text (some task.attempts)) world.now db).1

  -- The end of a run that gave a result: refused if ownership was lost meanwhile, stored if not.
  unfoldable pub report_result : JobTask → Dict → (is_lost : Bool) → Db → Db
  report_result task result is_lost db =
      if is_lost
      then report_failure task (record { kind = other_error; text = world.lost_text task.id }) db
      else (finish_task task.id worker_id
          (record {
            ok = true;
            result = some result;
            error = "";
            error_category = "";
            fence = some task.attempts;
          })
          world.now db).1

  -- The run itself, with the renewal thread beside it if the lease is longer than 0.
  unfoldable pub run_task : Time → JobTask → Db → Db
  run_task lease task db = elim (get_entry task.type world.runners) [
    | none ↦
        report_failure task
          (record { kind = other_error; text = "no runner registered for task type " ++ task.type })
          db
    | some runner ↦
        let (is_lost, after) = renew task worker_id lease (ltb 0 lease) false world.beats db in
        elim (runner task) [
          | gives result ↦ report_result task result is_lost after
          | throws exc ↦ report_failure task exc after
        ]
  ]

  -- `_execute`: whether an exception leaves it, and the state. Joining a renewal thread that was
  -- never started raises, which skips the last step.
  unfoldable pub execute : JobTask → Scheduler → Bool × Scheduler
  execute task s =
      let done = record s { db = run_task s.cfg.lease_seconds task s.db } in
      if s.cfg.lease_seconds == 0
      then (true, done)
      else if str_eq task.job_id ""
      then (false, done)
      else (false, advance_one world.now world.trace_for task.job_id done)

-- The variables of the worker loop.
pub record Loop : Type 0 where
  pub scheduler : Scheduler
  pub current_task : Option JobTask
  pub last_hb : Time

-- `status in (PAUSING, PAUSED, WAITING_FOR_USER)`
unfoldable pub hands_back : JobStatus → Bool
hands_back JobStatus.pausing = true
hands_back JobStatus.paused = true
hands_back JobStatus.waiting_for_user = true
hands_back _ = false

module _ (worker_id : String) (world : Surroundings) where
  -- The heartbeat for a task that an exception has left in `current_task`: it carries no fence.
  unfoldable pub beat_current : Time → Loop → Loop
  beat_current now loop = elim loop.current_task [
    | none ↦ loop
    | some task ↦
        let s = loop.scheduler in
        if ltb s.cfg.heartbeat_seconds (now - loop.last_hb)
        then (let (renewed, db) = heartbeat task.id worker_id s.cfg.lease_seconds none now s.db in
            let next : Loop = record {
              scheduler = record s { db = db };
              current_task = if renewed then some task else none;
              last_hb = now;
            } in
            next)
        else loop
  ]

  -- A claimed task is given up as failed. If the report is refused, its exception ends the turn
  -- before `current_task` is reset.
  unfoldable pub give_up : Time → JobTask → (error : String) → Loop → Loop
  give_up now task error loop =
      let s = loop.scheduler in
      let (outcome, db) =
        finish_task task.id worker_id (failure_report ErrorCategory.user error (some task.attempts))
          now s.db in
      elim outcome [
        | returned _ ↦ record loop { scheduler = record s { db = db }; current_task = none }
        | raised _ ↦ loop
      ]

  -- The task goes back to the queue; a refused release is logged. Then its job moves forward.
  unfoldable pub hand_back : Time → JobTask → Loop → Loop
  hand_back now task loop =
      let s = loop.scheduler in
      let db = (release_task task.id worker_id (some task.attempts) now s.db).1 in
      record loop { scheduler = advance_one now world.trace_for task.job_id (record s { db = db }) }

  -- An exception out of `_execute` leaves the task in `current_task`.
  unfoldable pub run_claimed : JobTask → Loop → Loop
  run_claimed task loop =
      let (escaped, s) = execute worker_id world task loop.scheduler in
      record loop { scheduler = s; current_task = if escaped then some task else none }

  unfoldable pub handle_claimed : Time → JobTask → Loop → Loop
  handle_claimed now task loop =
      if str_eq task.job_id ""
      then run_claimed task loop
      else elim (get_job task.job_id loop.scheduler.db) [
        | none ↦ give_up now task "job missing" loop
        | some job ↦
            if hands_back job.status
            then hand_back now task loop
            else if is_terminal job
            then give_up now task "job cancelled before start" loop
            else run_claimed task loop
      ]

  -- One turn; `promotes` is the outcome of `random_chance(0.05)`.
  unfoldable pub worker_turn : (promotes : Bool) (now : Time) → Loop → Loop
  worker_turn promotes now loop =
      let awake = beat_current now loop in
      let s = if promotes then promote_blocked now awake.scheduler else awake.scheduler in
      let (claimed, db) =
        claim_next_task worker_id s.cfg.profile_caps s.cfg.lease_seconds now s.db in
      let after = record s { db = db } in
      elim claimed [
        | none ↦ record awake { scheduler = advance_jobs now world.trace_for none after }
        | some task ↦ handle_claimed now task (record awake { scheduler = after })
      ]
