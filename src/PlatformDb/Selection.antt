-- ===== src/PlatformDb/Selection.antt =====
-- What `claim_next_task` selects: a claimable task of a profile with room, the first in the order.
use ai_researcher_agent_loca.Prelude.{
  ℕ, ◌≤◌, ◌<◌, String, true, false, none, some, List, [], ◌∷◌, ◌≡◌, refl, inl, inr, ◌⊎◌, arith, All,
  In, All-weaken, Option-cases, Bool-cases, first-In, first-IsLeast, first-none, sort_by, str_leb,
  sym, In-sort_by, All-unsort,
}
use ai_researcher_agent_loca.Job.{Time, JobTask}
use ai_researcher_agent_loca.PlatformDb.Rows.{TaskRow, Db, update_tasks, in_order}
use ai_researcher_agent_loca.PlatformDb.Claim.{
  claimed, write_claim, is_open, is_claimable, task_before, running_count, claim_from, claim_loop,
  claim_next_task, next_row,
}

in_order-total : (a b c d : ℕ) → in_order a b c d ≡ false → in_order c d a b ≡ true
unfolding in_order
in_order-total a b c d h = ground arith

in_order_trans :
    (a b c d e f : ℕ) → in_order a b c d ≡ true → in_order c d e f ≡ true → in_order a b e f ≡ true
unfolding in_order
in_order_trans a b c d e f h k = ground arith

task_before-total : (a b : TaskRow) → task_before a b ≡ false → task_before b a ≡ true
unfolding task_before
task_before-total a b = in_order-total a.priority a.created_at b.priority b.created_at

task_before_trans :
    (a b c : TaskRow) → task_before a b ≡ true → task_before b c ≡ true → task_before a c ≡ true
unfolding task_before
task_before_trans a b c =
    in_order_trans a.priority a.created_at b.priority b.created_at c.priority c.created_at

-- The row that a claim in one profile takes, and what it does to it.
pub record Taken (w : String) (lease now : Time) (db : Db) (task : JobTask) (db' : Db)
    : Type 0 where
  pub profile : String
  pub limit : ℕ
  pub row : TaskRow
  pub room : running_count profile now db < limit
  pub listed : In row db.tasks
  pub claimable : is_claimable profile now db.jobs row ≡ true
  pub first :
      All (λ r. (is_claimable profile now db.jobs r ≡ false) ⊎ (task_before row r ≡ true)) db.tasks
  pub given : task ≡ claimed w lease now row.content
  pub stored : db' ≡ update_tasks task.id (λ r. is_open r.status) (write_claim lease now task) db

next_row-first :
    (profile : String) (now : Time) (db : Db) (row : TaskRow)
    → next_row profile now db ≡ some row
    → All (λ r. (is_claimable profile now db.jobs r ≡ false) ⊎ (task_before row r ≡ true)) db.tasks
unfolding next_row
next_row-first profile now db row e =
    let claimable = is_claimable profile now db.jobs in
    All-weaken (λ r f. elim (Bool-cases (claimable r)) [ inl c ↦ inr (f c) | inr c ↦ inl c ])
      db.tasks
      (first-IsLeast task_before task_before-total task_before_trans claimable db.tasks row e)

module _ (w : String) (lease now : Time) where
  pub claim_from-Taken :
      (profile : String) (limit : ℕ) (db db' : Db) (task : JobTask)
      → claim_from w lease now profile limit db ≡ some (task, db')
      → (t : Taken w lease now db task db') × (t.profile ≡ profile) × (t.limit ≡ limit)
  claim_from-Taken profile limit db db' task h = elim (Option-cases (next_row profile now db)) [
    | inl e ↦ absurd (unfold claim_from in ground arith)
    | inr (row, e) ↦
        let found : (is_claimable profile now db.jobs row ≡ true) × In row db.tasks =
          unfold next_row in
          first-In task_before (is_claimable profile now db.jobs) db.tasks row e in
        (
          record {
            profile = profile;
            limit = limit;
            row = row;
            room = unfold claim_from in ground arith;
            listed = found.1;
            claimable = found.0;
            first = next_row-first profile now db row e;
            given = unfold claim_from in ground arith;
            stored = unfold claim_from in ground arith;
          },
          refl,
          refl,
        )
  ]

  -- Nothing to take: the profile is full, or none of its tasks is claimable.
  pub claim_from-none :
      (profile : String) (limit : ℕ) (db : Db)
      → claim_from w lease now profile limit db ≡ none
      → (limit ≤ running_count profile now db)
        ⊎ All (λ r. is_claimable profile now db.jobs r ≡ false) db.tasks
  claim_from-none profile limit db h = elim (Option-cases (next_row profile now db)) [
    | inl e ↦
        inr
          (unfold next_row in first-none task_before (is_claimable profile now db.jobs) db.tasks e)
    | inr (row, e) ↦ inl (unfold claim_from in ground arith)
  ]

  claim_loop-Taken :
      (profiles : List (String × ℕ)) (db db' : Db) (task : JobTask)
      → claim_loop w lease now profiles db ≡ (some task, db')
      → (t : Taken w lease now db task db') × In (t.profile, t.limit) profiles
  unfolding claim_loop
  claim_loop-Taken [] db db' task h = absurd (cc)
  claim_loop-Taken ((profile, limit) ∷ rest) db db' task h =
      elim (Option-cases (claim_from w lease now profile limit db)) [
        | inl e ↦
            let (t, i) = claim_loop-Taken rest db db' task (rw (e, claim_loop) at h) in (t, inr i)
        | inr ((task', after), e) ↦
            let same : claim_from w lease now profile limit db ≡ some (task, db') = ground arith in
            let (t, p, l) = claim_from-Taken profile limit db db' task same in
            (t, inl (λ i. (sym p i, sym l i)))
      ]

  -- A claim that hands out a task takes it from a profile of the dict with room below its cap: the
  -- first claimable row of the profile in the order of priority and creation. The task is that
  -- row's, claimed, and the database is the one before with the claim written to the open row of
  -- the task.
  pub claim_next_task-Taken :
      (profiles : List (String × ℕ)) (db db' : Db) (task : JobTask)
      → claim_next_task w profiles lease now db ≡ (some task, db')
      → (t : Taken w lease now db task db') × In (t.profile, t.limit) profiles
  unfolding claim_next_task
  claim_next_task-Taken profiles db db' task h =
      let (t, i) = claim_loop-Taken (sort_by (λ a b. str_leb a.0 b.0) profiles) db db' task h in
      (t, In-sort_by (λ a b. str_leb a.0 b.0) (t.profile, t.limit) profiles i)

  abbrev pub NothingFor : Db → String × ℕ → Type 0
  NothingFor db p =
      (p.1 ≤ running_count p.0 now db) ⊎ All (λ r. is_claimable p.0 now db.jobs r ≡ false) db.tasks

  claim_loop-none :
      (profiles : List (String × ℕ)) (db : Db)
      → (claim_loop w lease now profiles db).0 ≡ none
      → All (NothingFor db) profiles × ((claim_loop w lease now profiles db).1 ≡ db)
  unfolding claim_loop
  claim_loop-none [] db h = (tt, refl)
  claim_loop-none ((profile, limit) ∷ rest) db h =
      elim (Option-cases (claim_from w lease now profile limit db)) [
        | inl e ↦
            let (none_left, same) = claim_loop-none rest db (rw (e, claim_loop) at h) in
            ((claim_from-none profile limit db e, none_left), rw (e, claim_loop) same)
        | inr ((task', after), e) ↦ absurd (ground arith)
      ]

  -- A claim that takes nothing leaves the database as it was, and then every profile is full or
  -- has no claimable task.
  pub claim_next_task-none :
      (profiles : List (String × ℕ)) (db : Db)
      → (claim_next_task w profiles lease now db).0 ≡ none
      → All (NothingFor db) profiles × ((claim_next_task w profiles lease now db).1 ≡ db)
  unfolding claim_next_task
  claim_next_task-none profiles db h =
      let sorted = sort_by (λ (a b : String × ℕ). str_leb a.0 b.0) profiles in
      let (all, same) = claim_loop-none sorted db h in
      (All-unsort (NothingFor db) (λ a b. str_leb a.0 b.0) profiles all, same)
