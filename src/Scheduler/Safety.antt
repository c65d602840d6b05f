-- ===== src/Scheduler/Safety.antt =====
-- What no operation of the scheduler breaks: the soundness of the database, and the end of a job. A
-- turn of a worker is taken as a whole.
use ai_researcher_agent_loca.Prelude.{String, Bool, true, ◌≡◌}
use ai_researcher_agent_loca.Job.{Time}
use ai_researcher_agent_loca.PlatformDb.Soundness.{
  IsSound, save_job-IsSound, add_task-IsSound, claim_next_task-IsSound, heartbeat-IsSound,
  finish_task-IsSound, release_task-IsSound,
}
use ai_researcher_agent_loca.PlatformDb.Absorbing.{
  job_ends, save_job-terminal, add_task-job_ends, claim-job_ends, heartbeat-job_ends,
  finish-job_ends, release-job_ends,
}
use ai_researcher_agent_loca.Scheduler.Worker.{Surroundings, Loop, worker_turn}
use ai_researcher_agent_loca.Scheduler.Stable.{IsStable}
use ai_researcher_agent_loca.Scheduler.Turns.{IsCalm, worker_turn-LoopHolds}

pub IsSound-IsStable : IsStable IsSound
IsSound-IsStable = record {
  save = λ now job db s. save_job-IsSound now job s;
  write = λ now task db s. add_task-IsSound now task s;
  claim = λ w profiles lease now db s. claim_next_task-IsSound w profiles lease now s;
  beat = λ k w lease fence now db s. heartbeat-IsSound k w lease fence now s;
  finish = λ k w report now db s. finish_task-IsSound k w report now s;
  release = λ k w fence now db s. release_task-IsSound k w fence now s;
}

pub job_ends-IsStable : (k : String) → IsStable (λ db. job_ends k db ≡ true)
job_ends-IsStable k = record {
  save = λ now job db h. save_job-terminal now job db k h;
  write = add_task-job_ends k;
  claim = claim-job_ends k;
  beat = heartbeat-job_ends k;
  finish = finish-job_ends k;
  release = release-job_ends k;
}

-- A job in a terminal status is in one after any turn of a worker, if those who act on the
-- database during an execution do not bring it back.
pub worker_turn-job_ends :
    (k w : String) (world : Surroundings) (promotes : Bool) (now : Time) (loop : Loop)
    → IsCalm (λ db. job_ends k db ≡ true) world.beats
    → job_ends k loop.scheduler.db ≡ true
    → job_ends k (worker_turn w world promotes now loop).scheduler.db ≡ true
worker_turn-job_ends k w world promotes now loop calm h =
    (worker_turn-LoopHolds (job_ends-IsStable k) w world promotes now loop calm
      (record { at = h })).at
