-- ===== src/PlatformDb/Fencing.antt =====
-- The fencing token of platform_db.py: `attempts`, bumped by each claim.
use ai_researcher_agent_loca.Prelude.{
  ℕ, suc, ◌≤◌, String, Bool, true, Option, none, some, List, ◌≡◌, refl, inl, inr, arith, All-In,
  Option-cases, eq_iff, eq_refl,
}
use ai_researcher_agent_loca.Prelude.Table.{find_row-update_row, find_row-upsert_row, find_row-In}
use ai_researcher_agent_loca.Job.{Time, JobTask, is_held, is_ready}
use ai_researcher_agent_loca.PlatformDb.Rows.{TaskRow, Db, task_key, task_row, update_tasks}
use ai_researcher_agent_loca.PlatformDb.Tasks.{add_task, get_task, merge_task, written}
use ai_researcher_agent_loca.PlatformDb.Claim.{
  is_claimable, claimed, write_claim, is_open, claim_next_task,
}
use ai_researcher_agent_loca.PlatformDb.Ownership.{
  Report, heartbeat, beats_for, beat, finish_task, finish_write, is_held_by, finished, store_task,
  check_owner, release_task, released,
}
use ai_researcher_agent_loca.PlatformDb.Selection.{
  Taken, claim_next_task-Taken, claim_next_task-none,
}
use ai_researcher_agent_loca.PlatformDb.Soundness.{IsSound, TaskAgrees}

-- The stored token of a task; 0 for a task that is not there.
abbrev pub token : Option TaskRow → ℕ
token none = 0
token (some r) = r.content.attempts

unfoldable pub fence_of : String → Db → ℕ
fence_of k db = token (task_row k db)

-- An UPDATE that lowers no token lowers no task's token.
fence_of-update_tasks :
    (j k : String) (test : TaskRow → Bool) (change : TaskRow → TaskRow) (db : Db)
    → ((r : TaskRow) → (change r).id ≡ r.id)
    → ((r : TaskRow) → task_row k db ≡ some r → r.content.attempts ≤ (change r).content.attempts)
    → fence_of j db ≤ fence_of j (update_tasks k test change db)
unfolding fence_of
fence_of-update_tasks j k test change db keeps grows = elim (Option-cases (task_row j db)) [
  | inl e ↦ ground (arith, find_row-update_row task_key test change keeps k j db.tasks)
  | inr (r, e) ↦
      ground
        (arith, find_row-update_row task_key test change keeps k j db.tasks, eq_iff k j, grows r)
]

module _ (w : String) (lease now : Time) (db db' : Db) (task : JobTask) (s : IsSound db)
    (t : Taken w lease now db task db') where
  -- The row that was taken is the one with the task's id.
  pub Taken-row : task_row task.id db ≡ some t.row
  Taken-row =
      let agrees = All-In TaskAgrees t.row db.tasks s.tasks_agree t.listed in
      let named : task.id ≡ t.row.id = unfold claimed in cc (t.given, agrees.id) in
      rw named (find_row-In task_key t.row db.tasks s.tasks_keyed t.listed)

  pub Taken-open : is_open t.row.status ≡ true
  unfolding is_open is_claimable is_held is_ready
  Taken-open = ground (arith, t.claimable)

  -- After the claim the row holds the task that was handed out.
  pub Taken-stored : task_row task.id db' ≡ some (write_claim lease now task t.row)
  unfolding write_claim
  Taken-stored = rw t.stored (
      rw
        (find_row-update_row task_key (λ r. is_open r.status) (write_claim lease now task)
          (λ r. refl) task.id task.id db.tasks)
        (rw (eq_refl task.id, Taken-row, Taken-open) refl))

  pub Taken-attempts : task.attempts ≡ suc t.row.content.attempts
  unfolding claimed
  Taken-attempts = cc t.given

  Taken-fence_of : (j : String) → fence_of j db ≤ fence_of j db'
  Taken-fence_of j = rw t.stored (
      fence_of-update_tasks j task.id (λ r. is_open r.status) (write_claim lease now task) db
        (λ r. unfold write_claim in refl)
        (λ r e. unfold write_claim in ground (arith, Taken-attempts, Taken-row)))

-- A claim on a sound database bumps the task's token by one and hands the new token out.
pub claim-fence_of :
    (w : String) (profiles : List (String × ℕ)) (lease now : Time) (db db' : Db) (task : JobTask)
    → IsSound db
    → claim_next_task w profiles lease now db ≡ (some task, db')
    → (fence_of task.id db' ≡ suc (fence_of task.id db)) × (task.attempts ≡ fence_of task.id db')
unfolding fence_of
claim-fence_of w profiles lease now db db' task s h =
    let (t, _) = claim_next_task-Taken w lease now profiles db db' task h in
    let before = Taken-row w lease now db db' task s t in
    let after = Taken-stored w lease now db db' task s t in
    let bumped = Taken-attempts w lease now db db' task s t in
    (rw (before, after) (unfold write_claim in bumped), rw after (unfold write_claim in refl))

pub fence_of-claim :
    (j w : String) (profiles : List (String × ℕ)) (lease now : Time) (db : Db)
    → IsSound db
    → fence_of j db ≤ fence_of j (claim_next_task w profiles lease now db).1
fence_of-claim j w profiles lease now db s =
    elim (Option-cases (claim_next_task w profiles lease now db).0) [
      | inl e ↦ rw (claim_next_task-none w lease now profiles db e).1 (omega arith)
      | inr (task, e) ↦
          let db' = (claim_next_task w profiles lease now db).1 in
          let (t, _) = claim_next_task-Taken w lease now profiles db db' task (λ i. (e i, db')) in
          Taken-fence_of w lease now db db' task s t j
    ]

pub fence_of-heartbeat :
    (j k w : String) (lease : Time) (fence : Option ℕ) (now : Time) (db : Db)
    → fence_of j db ≤ fence_of j (heartbeat k w lease fence now db).1
unfolding heartbeat
fence_of-heartbeat j k w lease fence now db =
    let grows =
      fence_of-update_tasks j k (beats_for w fence) (beat lease now) db (λ r. unfold beat in refl)
        (λ r e. unfold beat in omega arith) in
    ground arith

pub get_task-row :
    (k : String) (db : Db) (r : TaskRow) → task_row k db ≡ some r → get_task k db ≡ some r.content
unfolding get_task
get_task-row k db r e = rw e

pub fence_of-finish :
    (j k w : String) (report : Report) (now : Time) (db : Db)
    → fence_of j db ≤ fence_of j (finish_task k w report now db).1
fence_of-finish j k w report now db = elim (Option-cases (get_task k db)) [
  | inl e ↦ unfold finish_task in rw (e, finish_task) (omega arith)
  | inr (task, e) ↦ elim (Option-cases (check_owner k w report.fence task)) [
    | inl c ↦
        let grows =
          fence_of-update_tasks j k (is_held_by w) (store_task (finished report now task) now) db
            (λ r. unfold store_task in refl)
            (λ r f. unfold store_task finished in ground (arith, e, get_task-row k db r f)) in
        unfold finish_task in rw (e, finish_task, c) (unfold finish_write in ground arith)
    | inr (reason, c) ↦ unfold finish_task in rw (e, finish_task, c) (omega arith)
  ]
]

pub fence_of-release :
    (j k w : String) (fence : Option ℕ) (now : Time) (db : Db)
    → fence_of j db ≤ fence_of j (release_task k w fence now db).1
fence_of-release j k w fence now db = elim (Option-cases (get_task k db)) [
  | inl e ↦ unfold release_task in rw (e, release_task) (omega arith)
  | inr (task, e) ↦
      let grows =
        fence_of-update_tasks j k (is_held_by w) (store_task (released now task) now) db
          (λ r. unfold store_task in refl)
          (λ r f. unfold store_task released in ground (arith, e, get_task-row k db r f)) in
      unfold release_task in rw (e, release_task) (ground arith)
]

-- A write of a model whose `attempts` is no older than the stored one.
pub fence_of-add_task :
    (j : String) (now : Time) (task : JobTask) (db : Db)
    → fence_of task.id db ≤ task.attempts
    → fence_of j db ≤ fence_of j (add_task now task db)
unfolding fence_of add_task
fence_of-add_task j now task db h = elim (Option-cases (task_row j db)) [
  | inl e ↦ rw e (omega arith)
  | inr (r, e) ↦ ground (
    arith,
    find_row-upsert_row task_key (merge_task (written now task)) (written now task) j db.tasks
        (λ r. refl),
    eq_iff task.id j,
  )
]
