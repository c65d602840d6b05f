-- ===== src/Examples/Samples.antt =====
-- A database with one research job and one queued task, and the runs that the examples use.
use ai_researcher_agent_loca.Prelude.{
  ℕ, String, none, some, List, [], ◌∷◌, ◌≡◌, refl, sort_by, insert_by,
}
use ai_researcher_agent_loca.Prelude.Table.{find_row, upsert_row, update_row}
use ai_researcher_agent_loca.Job.{
  JobStatus, TaskStatus, ResearchJob, JobTask, is_terminal_status, is_terminal, is_held, is_ready,
}
use ai_researcher_agent_loca.PlatformDb.Rows.{Db, in_order}
use ai_researcher_agent_loca.PlatformDb.Jobs.{
  row_of_job, merge_job, save_job, get_job, job_before, list_rows, list_jobs, incomplete_jobs,
}
use ai_researcher_agent_loca.PlatformDb.Tasks.{
  row_of_task, queued_if_created, merge_task, written, add_task, get_task, requeued, write_requeue,
  requeue_task, tasks_for_job, status_count,
}
use ai_researcher_agent_loca.PlatformDb.Claim.{
  is_live, running_count, withholds, is_withheld, is_claimable, task_before, next_row, claimed,
  is_open, write_claim, claim_from, claim_loop, claim_next_task,
}
use ai_researcher_agent_loca.PlatformDb.Ownership.{
  is_held_by, beats_for, beat, heartbeat, first_chars, finished_status, finished, check_owner,
  store_task, stale, finish_write, finish_task, released, release_task,
}
use ai_researcher_agent_loca.PlatformDb.Soundness.{IsSound}

-- Unfolding it unfolds the operations of the platform database.
unfoldable pub database : Unit {0}
unfolding find_row upsert_row update_row sort_by insert_by is_terminal_status is_terminal is_held
    is_ready in_order row_of_job merge_job save_job get_job job_before list_rows list_jobs
    incomplete_jobs row_of_task queued_if_created merge_task written add_task get_task requeued
    write_requeue requeue_task tasks_for_job status_count is_live running_count withholds
    is_withheld is_claimable task_before next_row claimed is_open write_claim claim_from claim_loop
    claim_next_task is_held_by beats_for beat heartbeat first_chars finished_status finished
    check_owner store_task stale finish_write finish_task released release_task
database = tt

abbrev pub research_job : JobStatus → ResearchJob
research_job status = record {
  id = "job_1";
  project_id = "proj";
  type = "deep_research";
  status = status;
  priority = 50;
  completion_reason = none;
  current_task = "";
  progress = none;
  budget = [];
  usage = [];
  checkpoint_id = none;
  depends_on = [];
  created_by = "local_user";
  config_snapshot = [];
  error = "";
  trace_id = "";
  created_at = 1;
  started_at = none;
  updated_at = 1;
  completed_at = none;
  next_run_at = none;
}

abbrev pub fetch_task : JobTask
fetch_task = record {
  id = "tk_1";
  job_id = "job_1";
  project_id = "proj";
  type = "FETCH_DOCUMENT";
  idempotency_key = "";
  status = TaskStatus.created;
  priority = 50;
  resource_profile = "CPU_LIGHT";
  payload = [];
  result = [];
  error = "";
  error_category = "";
  attempts = 0;
  max_attempts = 3;
  worker_id = "";
  lease_expires_at = none;
  heartbeat_at = none;
  created_at = 2;
  updated_at = 2;
}

abbrev pub empty : Db
empty = record { jobs = []; tasks = [] }

abbrev pub submitted : Db
submitted = add_task 4 fetch_task (save_job 3 (research_job JobStatus.running) empty)

abbrev pub caps : List (String × ℕ)
caps = ("NETWORK_LIGHT", 5) ∷ ("CPU_LIGHT", 3) ∷ []

abbrev pub queued_task : JobTask
queued_task = record fetch_task { status = TaskStatus.queued; updated_at = 4 }

-- "w1" claims at 10 for 60; its lease runs out and "w2" claims at 100.
abbrev pub first_claim : JobTask
first_claim = claimed "w1" 60 10 queued_task

abbrev pub claimed_once : Db
claimed_once = (claim_next_task "w1" caps 60 10 submitted).1

abbrev pub second_claim : JobTask
second_claim = claimed "w2" 60 100 first_claim

abbrev pub claimed_twice : Db
claimed_twice = (claim_next_task "w2" caps 60 100 claimed_once).1

pub claims_once : claim_next_task "w1" caps 60 10 submitted ≡ (some first_claim, claimed_once)
unfolding database
claims_once = refl

pub claims_twice :
    claim_next_task "w2" caps 60 100 claimed_once ≡ (some second_claim, claimed_twice)
unfolding database
claims_twice = refl

pub empty-IsSound : IsSound empty
empty-IsSound = record { jobs_keyed = tt; tasks_keyed = tt; jobs_agree = tt; tasks_agree = tt }
