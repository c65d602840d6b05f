-- ===== src/PlatformDb/Jobs.antt =====
-- The operations of platform_db.py on the `jobs` table.
use ai_researcher_agent_loca.Prelude.{
  ℕ, String, Bool, true, not, ◌||◌, Option, List, map, map_option, select, sort_by, take,
  if◌then◌else◌,
}
use ai_researcher_agent_loca.Prelude.Table.{upsert_row}
use ai_researcher_agent_loca.Job.{Time, JobStatus, is_terminal_status, ResearchJob}
use ai_researcher_agent_loca.PlatformDb.Rows.{JobRow, Db, job_key, job_row, in_order}

-- The row that `save_job` inserts.
unfoldable pub row_of_job : Time → ResearchJob → JobRow
row_of_job now job = record {
  id = job.id;
  project_id = job.project_id;
  type = job.type;
  status = job.status;
  priority = job.priority;
  content = record job { updated_at = now };
  created_at = job.created_at;
  updated_at = now;
  next_run_at = job.next_run_at;
}

-- ON CONFLICT(id) DO UPDATE … WHERE the row is not terminal, or the new status is.
unfoldable pub merge_job : JobRow → JobRow → JobRow
merge_job new old =
    if not (is_terminal_status old.status) || is_terminal_status new.status
    then record old {
      status = new.status;
      priority = new.priority;
      content = new.content;
      updated_at = new.updated_at;
      next_run_at = new.next_run_at;
    }
    else old

unfoldable pub save_job : Time → ResearchJob → Db → Db
unfolding row_of_job
save_job now job db =
    let new = row_of_job now job in
    record db { jobs = upsert_row job_key (merge_job new) new db.jobs }

unfoldable pub get_job : String → Db → Option ResearchJob
get_job job_id db = map_option (λ r. r.content) (job_row job_id db)

unfoldable pub job_before : JobRow → JobRow → Bool
unfolding in_order
job_before a b = in_order a.priority a.created_at b.priority b.created_at

-- `list_jobs(limit=…)` with no filter, and with `status=…`.
abbrev pub list_limit : ℕ
list_limit = 200

unfoldable pub list_rows : (JobRow → Bool) → ℕ → Db → List ResearchJob
unfolding job_before sort_by
list_rows test limit db =
    map (λ r. r.content) (take limit (sort_by job_before (select test db.jobs)))

unfoldable pub list_jobs : Db → List ResearchJob
unfolding list_rows
list_jobs = list_rows (λ r. true) list_limit

unfoldable pub list_jobs_with : (JobStatus → Bool) → Db → List ResearchJob
unfolding list_rows
list_jobs_with has_status = list_rows (λ r. has_status r.status) list_limit

unfoldable pub incomplete_jobs : Db → List ResearchJob
unfolding is_terminal_status
incomplete_jobs db = map (λ r. r.content) (select (λ r. not (is_terminal_status r.status)) db.jobs)
