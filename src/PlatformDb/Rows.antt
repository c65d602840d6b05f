-- ===== src/PlatformDb/Rows.antt =====
-- The `jobs` and `tasks` tables of platform_db.py. The `data` column holds the JSON text of a
-- model; it stands here as the model, since `model_validate` reads back what `model_dump_json`
-- wrote. The other columns are copies that the UPDATE statements keep, or fail to keep, in step.
use ai_researcher_agent_loca.Prelude.{ℕ, String, Bool, ◌&&◌, ◌||◌, Option, List, ltb, leb, ◌==◌}
use ai_researcher_agent_loca.Prelude.Table.{find_row, update_row, matches_row}
use ai_researcher_agent_loca.Job.{Time, JobStatus, TaskStatus, ResearchJob, JobTask}

pub record JobRow : Type 0 where
  pub id : String
  pub project_id : String
  pub type : String
  pub status : JobStatus
  pub priority : ℕ
  pub content : ResearchJob
  pub created_at : Time
  pub updated_at : Time
  pub next_run_at : Option Time

pub record TaskRow : Type 0 where
  pub id : String
  pub job_id : String
  pub idempotency_key : String
  pub status : TaskStatus
  pub priority : ℕ
  pub resource_profile : String
  pub content : JobTask
  pub lease_expires_at : Option Time
  pub created_at : Time
  pub updated_at : Time

pub record Db : Type 0 where
  pub jobs : List JobRow
  pub tasks : List TaskRow

abbrev pub job_key : JobRow → String
job_key r = r.id

abbrev pub task_key : TaskRow → String
task_key r = r.id

-- The row with an id, and UPDATE … WHERE id = k AND test.
abbrev pub job_row : String → Db → Option JobRow
job_row k db = find_row job_key k db.jobs

abbrev pub task_row : String → Db → Option TaskRow
task_row k db = find_row task_key k db.tasks

abbrev pub update_tasks : String → (TaskRow → Bool) → (TaskRow → TaskRow) → Db → Db
update_tasks k test change db = record db { tasks = update_row task_key k test change db.tasks }

abbrev pub matches_task : String → (TaskRow → Bool) → Db → Bool
matches_task k test db = matches_row task_key k test db.tasks

-- ORDER BY priority ASC, created_at ASC
unfoldable pub in_order : (priority created_at other_priority other_created_at : ℕ) → Bool
in_order p c q d = ltb p q || (p == q && leb c d)
