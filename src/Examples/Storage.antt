-- ===== src/Examples/Storage.antt =====
-- The theorems about the platform database, at a task that two workers claim one after the other.
use ai_researcher_agent_loca.Prelude.{
  ℕ, suc, ◌≤◌, true, false, none, some, List, [], ◌∷◌, ◌≡◌, ◌⊎◌, refl, arith, All, In,
}
use ai_researcher_agent_loca.Job.{JobStatus, TaskStatus, JobTask, is_past, lease_expired}
use ai_researcher_agent_loca.PlatformDb.Rows.{Db, JobRow, TaskRow, task_row}
use ai_researcher_agent_loca.PlatformDb.Jobs.{save_job, row_of_job}
use ai_researcher_agent_loca.PlatformDb.Tasks.{written, requeue_task, requeued}
use ai_researcher_agent_loca.PlatformDb.Claim.{claim_next_task, running_count, claimed, withholds}
use ai_researcher_agent_loca.PlatformDb.Ownership.{
  Report, StaleTaskOwner, returned, raised, heartbeat, finish_task, finished,
}
use ai_researcher_agent_loca.PlatformDb.Selection.{
  Taken, claim_next_task-Taken, claim_next_task-none, NothingFor,
}
use ai_researcher_agent_loca.PlatformDb.Soundness.{
  IsSound, save_job-IsSound, add_task-IsSound, claim_next_task-IsSound,
}
use ai_researcher_agent_loca.PlatformDb.Fencing.{fence_of, claim-fence_of}
use ai_researcher_agent_loca.PlatformDb.History.{Reach, here, next, beat, save, Reach-fence_of}
use ai_researcher_agent_loca.PlatformDb.Rejection.{IsFencedOut, late_writer-IsFencedOut}
use ai_researcher_agent_loca.PlatformDb.Finishing.{
  Owns, Accepts, finish_task-decides, finish_task-ends,
}
use ai_researcher_agent_loca.PlatformDb.Caps.{claim-running_count, claim-withholds}
use ai_researcher_agent_loca.PlatformDb.Absorbing.{job_ends, Reach-job_ends}
use ai_researcher_agent_loca.PlatformDb.Settled.{
  WorkerOp, claim, finish, perform_all, is_settled, perform_all-settled,
}
use ai_researcher_agent_loca.PlatformDb.Divergence.{heartbeat-lease_expired, requeue-readmits}
use ai_researcher_agent_loca.Examples.Samples.{
  database, research_job, fetch_task, submitted, caps, first_claim, claimed_once, second_claim,
  claimed_twice, claims_once, claims_twice, empty-IsSound,
}

submitted-IsSound : IsSound submitted
submitted-IsSound =
    add_task-IsSound 4 fetch_task
      (save_job-IsSound 3 (research_job JobStatus.running) empty-IsSound)

claimed_once-IsSound : IsSound claimed_once
claimed_once-IsSound = claim_next_task-IsSound "w1" caps 60 10 submitted-IsSound

-- "w2" renews its lease.
abbrev renewed : Db
renewed = (heartbeat "tk_1" "w2" 60 (some 2) 110 claimed_twice).1

renewal : Reach claimed_twice renewed
renewal = next here (beat "tk_1" "w2" 60 (some 2) 110 refl)

late_writer-IsFencedOut_example : IsFencedOut "tk_1" "w1" 1 renewed
unfolding claimed
late_writer-IsFencedOut_example =
    late_writer-IsFencedOut submitted claimed_once claimed_once claimed_twice renewed "w1" "w2" caps
      caps 60 60 10 100 first_claim second_claim submitted-IsSound claims_once here claims_twice
      refl renewal

abbrev once_row : TaskRow
once_row = record (written 4 fetch_task) {
  status = TaskStatus.running;
  content = first_claim;
  lease_expires_at = some 70;
  updated_at = 10;
}

found_once : task_row "tk_1" claimed_once ≡ some once_row
unfolding database
found_once = refl

abbrev failure : Report
failure = record {
  ok = false;
  result = none;
  error = "timed out";
  error_category = "NETWORK";
  fence = some 1;
}

once_row-Owns : Owns "w1" (some 1) once_row
unfolding database
once_row-Owns = record { held = refl; worker = refl; token = refl }

-- The report without a token, from the worker that holds the task.
abbrev unfenced : Report
unfenced = record failure { fence = none }

unfenced_accepted :
    (finish_task "tk_1" "w1" unfenced 20 claimed_once).0
    ≡ returned (some (finished unfenced 20 once_row.content))
unfolding database claimed finish_task
unfenced_accepted = refl

finish_task-decides_example :
    (Accepts "w1" none once_row
      × ((task : JobTask) × ((finish_task "tk_1" "w1" unfenced 20 claimed_once).0
            ≡ returned (some task))))
    ⊎ ((¬ Accepts "w1" none once_row)
        × ((e : StaleTaskOwner) × (finish_task "tk_1" "w1" unfenced 20 claimed_once
              ≡ (raised e, claimed_once))
            × (e.expected_fence ≡ fence_of "tk_1" claimed_once)
            × (e.received_fence ≡ none)))
finish_task-decides_example =
    finish_task-decides "tk_1" "w1" unfenced 20 claimed_once once_row claimed_once-IsSound
      found_once

finish_task-ends_example :
    (r' : TaskRow) × (task_row "tk_1" (finish_task "tk_1" "w1" failure 20 claimed_once).1 ≡ some r')
    × (r'.status ≡ TaskStatus.retrying)
    × (r'.lease_expires_at ≡ none)
    × (r'.content.attempts ≡ 1)
unfolding claimed
finish_task-ends_example =
    finish_task-ends "tk_1" "w1" failure 20 claimed_once once_row claimed_once-IsSound found_once
      "tk_1" once_row-Owns

claim-running_count_example :
    (row : TaskRow) × (limit : ℕ) × (task_row first_claim.id submitted ≡ some row)
    × In (row.resource_profile, limit) caps
    × (running_count row.resource_profile 10 claimed_once ≤ limit)
claim-running_count_example =
    claim-running_count "w1" caps 60 10 submitted claimed_once first_claim submitted-IsSound
      claims_once

claim_next_task-Taken_example :
    (t : Taken "w1" 60 10 submitted first_claim claimed_once) × In (t.profile, t.limit) caps
claim_next_task-Taken_example =
    claim_next_task-Taken "w1" 60 10 caps submitted claimed_once first_claim claims_once

nothing_left : (claim_next_task "w2" caps 60 20 claimed_once).0 ≡ none
unfolding database
nothing_left = refl

claim_next_task-none_example :
    All (NothingFor "w2" 60 20 claimed_once) caps
    × ((claim_next_task "w2" caps 60 20 claimed_once).1 ≡ claimed_once)
claim_next_task-none_example = claim_next_task-none "w2" 60 20 caps claimed_once nothing_left

claim-fence_of_example :
    (fence_of first_claim.id claimed_once ≡ suc (fence_of first_claim.id submitted))
    × (first_claim.attempts ≡ fence_of first_claim.id claimed_once)
claim-fence_of_example =
    claim-fence_of "w1" caps 60 10 submitted claimed_once first_claim submitted-IsSound claims_once

claimed_twice-IsSound : IsSound claimed_twice
claimed_twice-IsSound = claim_next_task-IsSound "w2" caps 60 100 claimed_once-IsSound

Reach-fence_of_example : IsSound renewed × (fence_of "tk_1" claimed_twice ≤ fence_of "tk_1" renewed)
Reach-fence_of_example = Reach-fence_of "tk_1" renewal claimed_twice-IsSound

-- The job is cancelled, and then an older copy of it is written.
abbrev cancelled_db : Db
cancelled_db = save_job 20 (research_job JobStatus.cancelled) claimed_once

abbrev cancelled_row : JobRow
cancelled_row = record (row_of_job 20 (research_job JobStatus.cancelled)) { created_at = 1 }

older_copy : Reach cancelled_db (save_job 30 (research_job JobStatus.running) cancelled_db)
older_copy = next here (save 30 (research_job JobStatus.running) refl)

Reach-job_ends_example :
    job_ends "job_1" (save_job 30 (research_job JobStatus.running) cancelled_db) ≡ true
unfolding database job_ends
Reach-job_ends_example =
    Reach-job_ends "job_1" cancelled_db (save_job 30 (research_job JobStatus.running) cancelled_db)
      older_copy refl

abbrev success : Report
success = record failure { ok = true; error = ""; error_category = "" }

abbrev done_db : Db
done_db = (finish_task "tk_1" "w1" success 20 claimed_once).1

abbrev done_row : TaskRow
done_row = record once_row {
  status = TaskStatus.succeeded;
  content = finished success 20 first_claim;
  lease_expires_at = none;
  updated_at = 20;
}

abbrev late_ops : List WorkerOp
late_ops = claim "w2" caps 60 200 ∷ finish "tk_1" "w1" failure 210 ∷ []

perform_all-settled_example : task_row "tk_1" (perform_all late_ops done_db) ≡ some done_row
unfolding database is_settled
perform_all-settled_example = perform_all-settled late_ops "tk_1" done_db done_row refl refl

claim-withholds_example : withholds JobStatus.running ≡ false
unfolding database
claim-withholds_example =
    claim-withholds "w1" caps 60 10 submitted claimed_once first_claim (written 4 fetch_task)
      (row_of_job 3 (research_job JobStatus.running)) submitted-IsSound claims_once refl refl

heartbeat-lease_expired_example :
    (r' : TaskRow) × (task_row "tk_1" (heartbeat "tk_1" "w1" 60 (some 1) 60 claimed_once).1
      ≡ some r')
    × (is_past r'.lease_expires_at 80 ≡ false)
    × (lease_expired r'.content 80 ≡ true)
unfolding database
heartbeat-lease_expired_example =
    heartbeat-lease_expired "tk_1" "w1" 60 (some 1) 60 80 70 claimed_once once_row refl refl refl
      refl (omega arith) (omega arith)

-- The task is retried by hand at 80, and "w1" claims it once more.
abbrev retried_task : JobTask
retried_task = requeued 80 first_claim

abbrev claimed_again : Db
claimed_again = (claim_next_task "w1" caps 60 90 (requeue_task 80 "tk_1" claimed_once).1).1

requeue-readmits_example :
    ((claimed "w1" 60 90 retried_task).attempts ≡ 1)
    × ((finish_task "tk_1" "w1" (record failure { fence = some 1 }) 95 claimed_again).0
        ≡ returned (some (finished failure 95 (claimed "w1" 60 90 retried_task))))
unfolding database
requeue-readmits_example =
    requeue-readmits "tk_1" "w1" claimed_once claimed_again caps 60 90 80 95 retried_task
      (claimed "w1" 60 90 retried_task) failure claimed_once-IsSound refl refl refl
