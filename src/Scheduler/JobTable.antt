-- ===== src/Scheduler/JobTable.antt =====
-- What a request for a job is to make of its status and of its control flag, as a table: the
-- contract of pause_job, resume_job and cancel_job of scheduler.py.
use ai_researcher_agent_loca.Prelude.{
  String, true, false, Option, none, some, ◌≡◌, refl, map_option, if◌then◌else◌,
}
use ai_researcher_agent_loca.Job.{JobStatus, is_terminal_status}
use ai_researcher_agent_loca.PlatformDb.Rows.{Db, job_row}
use ai_researcher_agent_loca.Scheduler.State.{Scheduler, Flag, pause, cancel, control_flag}
use ai_researcher_agent_loca.Scheduler.Control.{is_paused, pauses_at_once}

pub data Request : Type 0 where
  to_pause to_resume to_cancel : Request

-- What a client sees of a job: its status in the table, and the control flag that its tasks read.
pub record View : Type 0 where
  pub status : Option JobStatus
  pub flag : Option Flag

abbrev pub status_in : String → Db → Option JobStatus
status_in k db = map_option (λ r. r.status) (job_row k db)

abbrev pub view : String → Scheduler → View
view k s = record { status = status_in k s.db; flag = control_flag k s }

-- A pause: ended jobs stay, a job that waits to run is PAUSED at once, any other is PAUSING.
abbrev pub pause_of : JobStatus → View → View
pause_of JobStatus.completed v = v
pause_of JobStatus.failed v = v
pause_of JobStatus.failed_partial v = v
pause_of JobStatus.cancelled v = v
pause_of JobStatus.queued v = record { status = some JobStatus.paused; flag = some pause }
pause_of JobStatus.blocked v = record { status = some JobStatus.paused; flag = some pause }
pause_of JobStatus.waiting_for_user v = record { status = some JobStatus.paused; flag = some pause }
pause_of _ v = record { status = some JobStatus.pausing; flag = some pause }

-- A resume: the flag is cleared, and only a PAUSED job goes on.
abbrev pub resume_of : JobStatus → View
resume_of JobStatus.paused = record { status = some JobStatus.resuming; flag = none }
resume_of status = record { status = some status; flag = none }

-- A cancellation: ended jobs stay.
abbrev pub cancel_of : JobStatus → View → View
cancel_of JobStatus.completed v = v
cancel_of JobStatus.failed v = v
cancel_of JobStatus.failed_partial v = v
cancel_of JobStatus.cancelled v = v
cancel_of _ v = record { status = some JobStatus.cancelled; flag = some cancel }

abbrev pub asked : Request → View → View
asked request v = elim v.status [
  | none ↦ v
  | some status ↦ elim request [
    | to_pause ↦ pause_of status v
    | to_resume ↦ resume_of status
    | to_cancel ↦ cancel_of status v
  ]
]

pub pause_of-ended :
    (status : JobStatus) (v : View) → is_terminal_status status ≡ true → pause_of status v ≡ v
unfolding is_terminal_status
pause_of-ended JobStatus.completed v h = refl
pause_of-ended JobStatus.failed v h = refl
pause_of-ended JobStatus.failed_partial v h = refl
pause_of-ended JobStatus.cancelled v h = refl
pause_of-ended _ v h = absurd (cc)

pub pause_of-open :
    (status : JobStatus) (v : View)
    → is_terminal_status status ≡ false
    → pause_of status v ≡ record {
      status = some (if pauses_at_once status then JobStatus.paused else JobStatus.pausing);
      flag = some pause;
    }
unfolding is_terminal_status pauses_at_once
pause_of-open JobStatus.completed v h = absurd (cc)
pause_of-open JobStatus.failed v h = absurd (cc)
pause_of-open JobStatus.failed_partial v h = absurd (cc)
pause_of-open JobStatus.cancelled v h = absurd (cc)
pause_of-open _ v h = refl

pub cancel_of-ended :
    (status : JobStatus) (v : View) → is_terminal_status status ≡ true → cancel_of status v ≡ v
unfolding is_terminal_status
cancel_of-ended JobStatus.completed v h = refl
cancel_of-ended JobStatus.failed v h = refl
cancel_of-ended JobStatus.failed_partial v h = refl
cancel_of-ended JobStatus.cancelled v h = refl
cancel_of-ended _ v h = absurd (cc)

pub cancel_of-open :
    (status : JobStatus) (v : View)
    → is_terminal_status status ≡ false
    → cancel_of status v ≡ record { status = some JobStatus.cancelled; flag = some cancel }
unfolding is_terminal_status
cancel_of-open JobStatus.completed v h = absurd (cc)
cancel_of-open JobStatus.failed v h = absurd (cc)
cancel_of-open JobStatus.failed_partial v h = absurd (cc)
cancel_of-open JobStatus.cancelled v h = absurd (cc)
cancel_of-open _ v h = refl

pub resume_of-paused :
    (status : JobStatus)
    → is_paused status ≡ true
    → (resume_of status ≡ record { status = some JobStatus.resuming; flag = none })
      × (is_terminal_status status ≡ false)
unfolding is_paused is_terminal_status
resume_of-paused JobStatus.paused h = (refl, refl)
resume_of-paused _ h = absurd (cc)

pub resume_of-other :
    (status : JobStatus)
    → is_paused status ≡ false
    → resume_of status ≡ record { status = some status; flag = none }
unfolding is_paused
resume_of-other JobStatus.paused h = absurd (cc)
resume_of-other _ h = refl
