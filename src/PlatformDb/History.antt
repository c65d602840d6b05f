-- ===== src/PlatformDb/History.antt =====
-- Histories of the platform database: what schedulers and clients do to it, in any order.
use ai_researcher_agent_loca.Prelude.{ℕ, ◌≤◌, String, Option, List, ◌≡◌, arith}
use ai_researcher_agent_loca.Job.{Time, ResearchJob, JobTask}
use ai_researcher_agent_loca.PlatformDb.Rows.{Db}
use ai_researcher_agent_loca.PlatformDb.Jobs.{save_job}
use ai_researcher_agent_loca.PlatformDb.Tasks.{add_task}
use ai_researcher_agent_loca.PlatformDb.Claim.{claim_next_task}
use ai_researcher_agent_loca.PlatformDb.Ownership.{Report, heartbeat, finish_task, release_task}
use ai_researcher_agent_loca.PlatformDb.Soundness.{
  IsSound, save_job-IsSound, add_task-IsSound, claim_next_task-IsSound, heartbeat-IsSound,
  finish_task-IsSound, release_task-IsSound,
}
use ai_researcher_agent_loca.PlatformDb.Fencing.{
  fence_of, fence_of-add_task, fence_of-claim, fence_of-heartbeat, fence_of-finish,
  fence_of-release,
}

-- One operation of any worker, with any arguments. `update_task` writes back a model that was
-- read before: it is a step while no newer claim has been made. `requeue_task`, the manual retry,
-- is no step here: it resets the token.
pub data Step (db : Db) (db' : Db) : Type 0 where
  save : (now : Time) (job : ResearchJob) → db' ≡ save_job now job db → Step db db'
  write :
      (now : Time) (task : JobTask)
      → fence_of task.id db ≤ task.attempts
      → db' ≡ add_task now task db
      → Step db db'
  claim :
      (w : String) (profiles : List (String × ℕ)) (lease now : Time)
      → db' ≡ (claim_next_task w profiles lease now db).1
      → Step db db'
  beat :
      (k w : String) (lease : Time) (fence : Option ℕ) (now : Time)
      → db' ≡ (heartbeat k w lease fence now db).1
      → Step db db'
  finish :
      (k w : String) (report : Report) (now : Time)
      → db' ≡ (finish_task k w report now db).1
      → Step db db'
  release :
      (k w : String) (fence : Option ℕ) (now : Time)
      → db' ≡ (release_task k w fence now db).1
      → Step db db'

pub data Reach (db : Db) : Db → Type 0 where
  here : Reach db db
  next : {mid last : Db} → Reach db mid → Step mid last → Reach db last

pub Step-IsSound : (db db' : Db) → Step db db' → IsSound db → IsSound db'
Step-IsSound db db' (save now job e) s = rw e (save_job-IsSound now job s)
Step-IsSound db db' (write now task h e) s = rw e (add_task-IsSound now task s)
Step-IsSound db db' (claim w profiles lease now e) s =
    rw e (claim_next_task-IsSound w profiles lease now s)
Step-IsSound db db' (beat k w lease fence now e) s = rw e (heartbeat-IsSound k w lease fence now s)
Step-IsSound db db' (finish k w report now e) s = rw e (finish_task-IsSound k w report now s)
Step-IsSound db db' (release k w fence now e) s = rw e (release_task-IsSound k w fence now s)

fence_of-save :
    (j : String) (now : Time) (job : ResearchJob) (db : Db)
    → fence_of j db ≤ fence_of j (save_job now job db)
unfolding fence_of save_job
fence_of-save j now job db = omega arith

pub fence_of-Step :
    (j : String) (db db' : Db) → Step db db' → IsSound db → fence_of j db ≤ fence_of j db'
fence_of-Step j db db' (save now job e) s = rw e (fence_of-save j now job db)
fence_of-Step j db db' (write now task h e) s = rw e (fence_of-add_task j now task db h)
fence_of-Step j db db' (claim w profiles lease now e) s =
    rw e (fence_of-claim j w profiles lease now db s)
fence_of-Step j db db' (beat k w lease fence now e) s =
    rw e (fence_of-heartbeat j k w lease fence now db)
fence_of-Step j db db' (finish k w report now e) s = rw e (fence_of-finish j k w report now db)
fence_of-Step j db db' (release k w fence now e) s = rw e (fence_of-release j k w fence now db)

-- Over any steps a sound database stays sound, and no token falls. A step is any operation but the
-- manual retry, and writes a task back only with a token that is not below the stored one.
pub Reach-fence_of :
    (j : String) {db db' : Db}
    → Reach db db'
    → IsSound db
    → IsSound db' × (fence_of j db ≤ fence_of j db')
Reach-fence_of j here s = (s, omega arith)
Reach-fence_of j (next {mid = mid} {last = last} r st) s =
    let (sound, grown) = Reach-fence_of j r s in
    (Step-IsSound mid last st sound, omega (arith, fence_of-Step j mid last st sound))
