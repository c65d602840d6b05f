-- ===== src/Job.antt =====
-- src/research_engine/models/job.py: the statuses of jobs and tasks, and their records.
-- A datetime is a number of microseconds. A `dict` of JSON values is an association list of texts.
use ai_researcher_agent_loca.Prelude.{
  ℕ, String, Bool, true, false, ◌&&◌, Option, none, some, List, leb,
}

abbrev pub Time : Type 0
Time = ℕ

abbrev pub Dict : Type 0
Dict = List (String × String)

pub data JobStatus : Type 0 where
  queued starting running pausing paused resuming completing : JobStatus
  completed failed failed_partial cancelled : JobStatus
  blocked waiting_for_user waiting_for_resource waiting_for_external_result : JobStatus

-- `status in ACTIVE_STATUSES`, and so on
unfoldable pub is_active_status : JobStatus → Bool
is_active_status JobStatus.queued = true
is_active_status JobStatus.starting = true
is_active_status JobStatus.running = true
is_active_status JobStatus.pausing = true
is_active_status JobStatus.resuming = true
is_active_status JobStatus.completing = true
is_active_status _ = false

unfoldable pub is_waiting_status : JobStatus → Bool
is_waiting_status JobStatus.paused = true
is_waiting_status JobStatus.blocked = true
is_waiting_status JobStatus.waiting_for_user = true
is_waiting_status JobStatus.waiting_for_resource = true
is_waiting_status JobStatus.waiting_for_external_result = true
is_waiting_status _ = false

unfoldable pub is_terminal_status : JobStatus → Bool
is_terminal_status JobStatus.completed = true
is_terminal_status JobStatus.failed = true
is_terminal_status JobStatus.failed_partial = true
is_terminal_status JobStatus.cancelled = true
is_terminal_status _ = false

pub data CompletionReason : Type 0 where
  converged budget_exhausted user_stopped failed : CompletionReason
  no_more_useful_research waiting_for_external_result : CompletionReason

pub data TaskStatus : Type 0 where
  created queued claimed running succeeded failed retrying dead_letter cancelled : TaskStatus

-- `status in (CLAIMED, RUNNING)`, and so on
unfoldable pub is_held : TaskStatus → Bool
is_held TaskStatus.claimed = true
is_held TaskStatus.running = true
is_held _ = false

unfoldable pub is_ready : TaskStatus → Bool
is_ready TaskStatus.queued = true
is_ready TaskStatus.retrying = true
is_ready _ = false

-- The `progress` dict that the scheduler writes; `none` is the empty dict.
pub record Progress : Type 0 where
  pub done : ℕ
  pub queued : ℕ
  pub dead_letter : ℕ

pub record ResearchJob : Type 0 where
  pub id : String
  pub project_id : String
  pub type : String
  pub status : JobStatus
  pub priority : ℕ
  pub completion_reason : Option CompletionReason
  pub current_task : String
  pub progress : Option Progress
  pub budget : Dict
  pub usage : Dict
  pub checkpoint_id : Option String
  pub depends_on : List String
  pub created_by : String
  pub config_snapshot : Dict
  pub error : String
  pub trace_id : String
  pub created_at : Time
  pub started_at : Option Time
  pub updated_at : Time
  pub completed_at : Option Time
  pub next_run_at : Option Time

unfoldable pub is_terminal : ResearchJob → Bool
unfolding is_terminal_status
is_terminal job = is_terminal_status job.status

pub record JobTask : Type 0 where
  pub id : String
  pub job_id : String
  pub project_id : String
  pub type : String
  pub idempotency_key : String
  pub status : TaskStatus
  pub priority : ℕ
  pub resource_profile : String
  pub payload : Dict
  pub result : Dict
  pub error : String
  pub error_category : String
  pub attempts : ℕ
  pub max_attempts : ℕ
  pub worker_id : String
  pub lease_expires_at : Option Time
  pub heartbeat_at : Option Time
  pub created_at : Time
  pub updated_at : Time

-- `t is not None and t <= now`
abbrev pub is_past : Option Time → Time → Bool
is_past none now = false
is_past (some t) now = leb t now

unfoldable pub lease_expired : JobTask → Time → Bool
unfolding is_held
lease_expired task now = is_held task.status && is_past task.lease_expires_at now
