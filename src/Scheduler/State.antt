-- ===== src/Scheduler/State.antt =====
-- The state of a `PersistentScheduler`: its configuration, the platform database that it shares
-- with other processes, its control flags, and the events that it has published, newest first.
use ai_researcher_agent_loca.Prelude.{ℕ, String, Option, none, some, List, ◌∷◌}
use ai_researcher_agent_loca.Prelude.Assoc.{get_entry, put_entry, drop_entry}
use ai_researcher_agent_loca.Job.{Time, ResearchJob, JobTask}
use ai_researcher_agent_loca.PlatformDb.Rows.{Db}
use ai_researcher_agent_loca.PlatformDb.Jobs.{save_job}
use ai_researcher_agent_loca.PlatformDb.Tasks.{add_task}

pub data Flag : Type 0 where
  pause cancel : Flag

pub record SchedulerConfig : Type 0 where
  pub max_jobs : ℕ
  pub worker_threads : ℕ
  pub lease_seconds : Time
  pub heartbeat_seconds : Time
  pub poll_interval : Time
  pub profile_caps : List (String × ℕ)

-- `DEFAULT_PROFILES`
unfoldable pub default_profiles : List (String × ℕ)
default_profiles =
    ("NETWORK_LIGHT", 5)
    ∷ ("NETWORK_HEAVY", 2)
    ∷ ("CPU_LIGHT", 3)
    ∷ ("CPU_HEAVY", 1)
    ∷ ("LLM_SMALL", 2)
    ∷ ("LLM_LARGE", 1)
    ∷ ("MEMORY_HEAVY", 1)
    ∷ ("EXPERIMENT_HEAVY", 1)
    ∷ List.[]

-- A `DomainEvent`: its type and the job that it is about.
pub record Event : Type 0 where
  pub type : String
  pub project_id : String
  pub job_id : String

pub record Scheduler : Type 0 where
  pub cfg : SchedulerConfig
  pub db : Db
  pub control : List (String × Flag)
  pub events : List Event

unfoldable pub control_flag : String → Scheduler → Option Flag
control_flag job_id s = get_entry job_id s.control

unfoldable pub set_control : String → Option Flag → Scheduler → Scheduler
set_control job_id none s = record s { control = drop_entry job_id s.control }
set_control job_id (some flag) s = record s { control = put_entry job_id flag s.control }

abbrev pub publish : String → ResearchJob → Scheduler → Scheduler
publish type job s = record s {
  events = record { type = type; project_id = job.project_id; job_id = job.id } ∷ s.events;
}

abbrev pub store_job : Time → ResearchJob → Scheduler → Scheduler
store_job now job s = record s { db = save_job now job s.db }

abbrev pub store_task : Time → JobTask → Scheduler → Scheduler
store_task now task s = record s { db = add_task now task s.db }

-- `for t in tasks: …`, each turn on the state that the one before left.
abbrev pub for_each : {A : Type 0} → (A → Scheduler → Scheduler) → List A → Scheduler → Scheduler
for_each body List.[] s = s
for_each body (x ∷ xs) s = for_each body xs (body x s)
