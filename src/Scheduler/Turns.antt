-- ===== src/Scheduler/Turns.antt =====
-- A property that every operation of platform_db.py keeps is kept by a whole turn of a worker,
-- with its execution of a task, if those keep it who act meanwhile.
use ai_researcher_agent_loca.Prelude.{
  String, Bool, true, false, none, some, List, [], ◌∷◌, ◌≡◌, ◌⊎◌, ◌-◌, refl, inl, inr, All,
  Option-cases, Bool-cases, ◌||◌, not, ltb, if◌then◌else◌,
}
use ai_researcher_agent_loca.Prelude.Assoc.{get_entry}
use ai_researcher_agent_loca.Job.{Time, Dict, JobTask}
use ai_researcher_agent_loca.Errors.{ErrorCategory, Exception}
use ai_researcher_agent_loca.PlatformDb.Rows.{Db}
use ai_researcher_agent_loca.PlatformDb.Jobs.{get_job}
use ai_researcher_agent_loca.PlatformDb.Claim.{claim_next_task}
use ai_researcher_agent_loca.PlatformDb.Ownership.{
  Outcome, returned, raised, StaleTaskOwner, finish_task,
}
use ai_researcher_agent_loca.Scheduler.State.{Scheduler}
use ai_researcher_agent_loca.Scheduler.Advance.{promote_blocked}
use ai_researcher_agent_loca.Scheduler.Worker.{
  Beat, renew, Surroundings, report_failure, report_result, run_task, execute, Loop, beat_current,
  give_up, hand_back, run_claimed, handle_claimed, worker_turn, failure_report, RunResult, gives,
  throws,
}
use ai_researcher_agent_loca.Scheduler.Stable.{
  IsStable, Holds, HoldsAfter, if-Holds, if-HoldsAfter, after, advance_one-Holds,
  advance_jobs-Holds, promote_blocked-Holds,
}

-- What others do between the heartbeats of an execution keeps `P`.
abbrev pub IsCalm : (Db → Type 0) → List Beat → Type 0
IsCalm P = All (λ b. (d : Db) → P d → P (b.others d))

Outcome-cases :
    {A : Type 0} (o : Outcome A)
    → ((a : A) × (o ≡ returned a)) ⊎ ((e : StaleTaskOwner) × (o ≡ raised e))
Outcome-cases (returned a) = inl (a, refl)
Outcome-cases (raised e) = inr (e, refl)

-- The property of the state in the variables of the loop.
pub record LoopHolds (P : Db → Type 0) (loop : Loop) : Type 0 where
  pub at : P loop.scheduler.db

module _ {P : Db → Type 0} (stable : IsStable P) where
  open stable use {save, write, claim, beat, finish, release}

  report_failure-keeps :
      (w : String) (world : Surroundings) (task : JobTask) (exc : Exception) (db : Db)
      → P db
      → P (report_failure w world task exc db)
  unfolding report_failure
  report_failure-keeps w world task exc db p = finish task.id w _ world.now db p

  report_result-keeps :
      (w : String) (world : Surroundings) (task : JobTask) (result : Dict) (is_lost : Bool)
      (db : Db)
      → P db
      → P (report_result w world task result is_lost db)
  unfolding report_result
  report_result-keeps w world task result true db p = report_failure-keeps w world task _ db p
  report_result-keeps w world task result false db p = finish task.id w _ world.now db p

  renew-keeps :
      (task : JobTask) (w : String) (lease : Time) (is_running : Bool) (beats : List Beat)
      (is_lost : Bool) (db : Db)
      → IsCalm P beats
      → P db
      → P (renew task w lease is_running is_lost beats db).1
  unfolding renew
  renew-keeps task w lease is_running [] is_lost db calm p = p
  renew-keeps task w lease is_running (b ∷ beats) is_lost db calm p =
      elim (Bool-cases (not is_running || (is_lost || b.broken))) [
        | inl e ↦ rw (e, renew) (renew-keeps task w lease is_running beats _ _ calm.1 (calm.0 db p))
        | inr e ↦
            rw (e, renew)
              (renew-keeps task w lease is_running beats _ _ calm.1
                (beat task.id w lease (some task.attempts) b.now _ (calm.0 db p)))
      ]

  run_task-keeps :
      (w : String) (world : Surroundings) (lease : Time) (task : JobTask) (db : Db)
      → IsCalm P world.beats
      → P db
      → P (run_task w world lease task db)
  unfolding run_task
  run_task-keeps w world lease task db calm p =
      elim (Option-cases (get_entry task.type world.runners)) [
        | inl e ↦ rw (e, run_task) (report_failure-keeps w world task _ db p)
        | inr (runner, e) ↦ rw (e, run_task) (answered (runner task))
      ]
    where
      ran : P (renew task w lease (ltb 0 lease) false world.beats db).1
      ran = renew-keeps task w lease (ltb 0 lease) world.beats false db calm p

      answered :
          (r : RunResult)
          → P (elim r [
            | gives result ↦
                report_result w world task result
                  (renew task w lease (ltb 0 lease) false world.beats db).0
                  (renew task w lease (ltb 0 lease) false world.beats db).1
            | throws exc ↦
                report_failure w world task exc
                  (renew task w lease (ltb 0 lease) false world.beats db).1
          ])
      answered (gives result) = report_result-keeps w world task result _ _ ran
      answered (throws exc) = report_failure-keeps w world task exc _ ran

  execute-Holds :
      (w : String) (world : Surroundings) (task : JobTask) (s : Scheduler)
      → IsCalm P world.beats
      → Holds P s
      → HoldsAfter P (execute w world task s)
  unfolding execute
  execute-Holds w world task s calm p =
      let done : Holds P (record s { db = run_task w world s.cfg.lease_seconds task s.db }) =
        record { at = run_task-keeps w world s.cfg.lease_seconds task s.db calm p.at } in
      search (if-HoldsAfter, after, advance_one-Holds)

  if-LoopHolds :
      (b : Bool) (x y : Loop) → LoopHolds P x → LoopHolds P y → LoopHolds P (if b then x else y)
  if-LoopHolds true x y hx hy = hx
  if-LoopHolds false x y hx hy = hy

  beat_current-LoopHolds :
      (w : String) (world : Surroundings) (now : Time) (loop : Loop)
      → LoopHolds P loop
      → LoopHolds P (beat_current w world now loop)
  unfolding beat_current
  beat_current-LoopHolds w world now loop p = elim (Option-cases loop.current_task) [
    | inl e ↦ rw (e, beat_current) p
    | inr (task, e) ↦
        let s = loop.scheduler in
        elim (Bool-cases (ltb s.cfg.heartbeat_seconds (now - loop.last_hb))) [
          | inl due ↦
              rw (e, beat_current, due)
                (record { at = beat task.id w s.cfg.lease_seconds none now s.db p.at })
          | inr early ↦ rw (e, beat_current, early) p
        ]
  ]

  give_up-LoopHolds :
      (w : String) (world : Surroundings) (now : Time) (task : JobTask) (error : String)
      (loop : Loop)
      → LoopHolds P loop
      → LoopHolds P (give_up w world now task error loop)
  unfolding give_up
  give_up-LoopHolds w world now task error loop p =
      let report = failure_report ErrorCategory.user error (some task.attempts) in
      let s = loop.scheduler in
      elim (Outcome-cases (finish_task task.id w report now s.db).0) [
        | inl (answer, e) ↦ rw (e, give_up) (record { at = finish task.id w report now s.db p.at })
        | inr (exc, e) ↦ rw (e, give_up) p
      ]

  hand_back-LoopHolds :
      (w : String) (world : Surroundings) (now : Time) (task : JobTask) (loop : Loop)
      → LoopHolds P loop
      → LoopHolds P (hand_back w world now task loop)
  unfolding hand_back
  hand_back-LoopHolds w world now task loop p = record {
    at =
        (advance_one-Holds stable now world.trace_for task.job_id _
          (record { at = release task.id w (some task.attempts) now _ p.at })).at;
  }

  run_claimed-LoopHolds :
      (w : String) (world : Surroundings) (task : JobTask) (loop : Loop)
      → IsCalm P world.beats
      → LoopHolds P loop
      → LoopHolds P (run_claimed w world task loop)
  unfolding run_claimed
  run_claimed-LoopHolds w world task loop calm p = record {
    at = (execute-Holds w world task loop.scheduler calm (record { at = p.at })).at;
  }

  handle_claimed-LoopHolds :
      (w : String) (world : Surroundings) (now : Time) (task : JobTask) (loop : Loop)
      → IsCalm P world.beats
      → LoopHolds P loop
      → LoopHolds P (handle_claimed w world now task loop)
  unfolding handle_claimed
  handle_claimed-LoopHolds w world now task loop calm p =
      let runs = run_claimed-LoopHolds w world task loop calm p in
      elim (Option-cases (get_job task.job_id loop.scheduler.db)) [
        | inl e ↦
            rw (e, handle_claimed)
              (if-LoopHolds _ _ _ runs (give_up-LoopHolds w world now task _ loop p))
        | inr (job, e) ↦
            rw (e, handle_claimed)
              (if-LoopHolds _ _ _ runs (
                if-LoopHolds _ _ _ (hand_back-LoopHolds w world now task loop p)
                  (if-LoopHolds _ _ _ (give_up-LoopHolds w world now task _ loop p) runs)))
      ]

  -- One turn of the worker loop keeps the property.
  pub worker_turn-LoopHolds :
      (w : String) (world : Surroundings) (promotes : Bool) (now : Time) (loop : Loop)
      → IsCalm P world.beats
      → LoopHolds P loop
      → LoopHolds P (worker_turn w world promotes now loop)
  unfolding worker_turn
  worker_turn-LoopHolds w world promotes now loop calm p =
      elim (Option-cases (claim_next_task w s.cfg.profile_caps s.cfg.lease_seconds now s.db).0) [
        | inl e ↦
            rw (e, worker_turn)
              (record { at = (advance_jobs-Holds stable now world.trace_for none _ claimed).at })
        | inr (task, e) ↦
            rw (e, worker_turn)
              (handle_claimed-LoopHolds w world now task _ calm (record { at = claimed.at }))
      ]
    where
      awake : Loop
      awake = beat_current w world now loop

      awake-Holds : Holds P awake.scheduler
      awake-Holds = record { at = (beat_current-LoopHolds w world now loop p).at }

      s : Scheduler
      s = if promotes then promote_blocked now awake.scheduler else awake.scheduler

      s-Holds : Holds P s
      s-Holds =
          if-Holds stable promotes _ _ (promote_blocked-Holds stable now _ awake-Holds) awake-Holds

      claimed :
          Holds P (record s {
            db = (claim_next_task w s.cfg.profile_caps s.cfg.lease_seconds now s.db).1;
          })
      claimed = record { at = claim w s.cfg.profile_caps s.cfg.lease_seconds now s.db s-Holds.at }
