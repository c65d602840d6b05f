-- ===== src/PlatformDb/Finishing.antt =====
-- `finish_task` for the current owner, and what a task that has ended is immune to.
use ai_researcher_agent_loca.Prelude.{
  ℕ, String, true, Option, none, some, ◌≡◌, refl, inl, inr, ap, ◌⊎◌, arith, Option-cases, eq_iff,
  eq_refl, ltb, str_eq, if◌then◌else◌,
}
use ai_researcher_agent_loca.Prelude.Table.{find_row-update_row, All-find_row}
use ai_researcher_agent_loca.Job.{Time, JobTask, TaskStatus, is_held}
use ai_researcher_agent_loca.PlatformDb.Rows.{Db, TaskRow, task_key, task_row, update_tasks}
use ai_researcher_agent_loca.PlatformDb.Ownership.{
  Report, returned, raised, fence_fits, StaleReason, StaleTaskOwner, stale, finish_task,
  finish_write, finished, finished_status, is_held_by, store_task, check_owner,
}
use ai_researcher_agent_loca.PlatformDb.Soundness.{IsSound, TaskAgrees}
use ai_researcher_agent_loca.PlatformDb.Fencing.{fence_of, get_task-row}

-- `w` holds the task with the token that it reports.
pub record Owns (w : String) (fence : Option ℕ) (r : TaskRow) : Type 0 where
  pub held : is_held r.status ≡ true
  pub worker : r.content.worker_id ≡ w
  pub token : fence_fits fence r.content.attempts ≡ true

pub Owns-is_held_by :
    (w : String) (fence : Option ℕ) (r : TaskRow) → Owns w fence r → is_held_by w r ≡ true
unfolding is_held_by
Owns-is_held_by w fence r o = ground (arith, o.held, o.worker, eq_refl w)

-- The three conditions on the stored row under which a report is accepted.
pub record Accepts (w : String) (fence : Option ℕ) (r : TaskRow) : Type 0 where
  pub held : (r.status ≡ TaskStatus.claimed) ⊎ (r.status ≡ TaskStatus.running)
  pub worker : r.content.worker_id ≡ w
  pub token : (fence ≡ none) ⊎ (fence ≡ some r.content.attempts)

Accepts-Owns : (w : String) (fence : Option ℕ) (r : TaskRow) → Accepts w fence r → Owns w fence r
unfolding is_held
Accepts-Owns w fence r o = record {
  held = elim o.held [ inl e ↦ rw e refl | inr e ↦ rw e refl ];
  worker = o.worker;
  token = elim o.token [ inl e ↦ rw e refl | inr e ↦ rw e (ground arith) ];
}

is_held-cases :
    (s : TaskStatus) → is_held s ≡ true → (s ≡ TaskStatus.claimed) ⊎ (s ≡ TaskStatus.running)
unfolding is_held
is_held-cases TaskStatus.claimed h = inl refl
is_held-cases TaskStatus.running h = inr refl
is_held-cases _ h = absurd (cc)

fence_fits-cases :
    (fence : Option ℕ) (attempts : ℕ)
    → fence_fits fence attempts ≡ true
    → (fence ≡ none) ⊎ (fence ≡ some attempts)
fence_fits-cases none attempts h = inl refl
fence_fits-cases (some fence) attempts h =
    let e : attempts ≡ fence = ground arith in inr (rw e refl)

module _ (k w : String) (report : Report) (now : Time) (db : Db) (r : TaskRow) (s : IsSound db)
    (found : task_row k db ≡ some r) where
  agrees : TaskAgrees r
  agrees = All-find_row task_key TaskAgrees k db.tasks r s.tasks_agree found

  check_owner-none : Owns w report.fence r → check_owner k w report.fence r.content ≡ none
  unfolding check_owner
  check_owner-none o = ground (arith, o.held, o.worker, o.token, agrees.status, eq_refl w)

  finish_write-owner :
      is_held_by w r ≡ true
      → finish_write k w report now r.content db ≡ (
        returned (some (finished report now r.content)),
        update_tasks k (is_held_by w) (store_task (finished report now r.content) now) db,
      )
  unfolding finish_write
  finish_write-owner h = ground (arith, found)

  pub finish_task-owner :
      Owns w report.fence r
      → finish_task k w report now db ≡ (
        returned (some (finished report now r.content)),
        update_tasks k (is_held_by w) (store_task (finished report now r.content) now) db,
      )
  unfolding finish_task
  finish_task-owner o =
      rw (get_task-row k db r found, finish_task, check_owner-none o)
        (finish_write-owner (Owns-is_held_by w report.fence r o))

  check_owner-Accepts : check_owner k w report.fence r.content ≡ none → Accepts w report.fence r
  unfolding check_owner
  check_owner-Accepts c = record {
    held = is_held-cases r.status (ground (arith, agrees.status));
    worker = ground (arith, agrees.status, eq_iff r.content.worker_id w);
    token = fence_fits-cases report.fence r.content.attempts (ground arith);
  }

  check_owner-refuses :
      (reason : StaleReason)
      → check_owner k w report.fence r.content ≡ some reason
      → ¬ Accepts w report.fence r
  check_owner-refuses reason c o =
      absurd (cc (check_owner-none (Accepts-Owns w report.fence r o), c))

  -- For a task that a sound database holds there are two cases. Either the task is CLAIMED or RUNNING,
  -- the reporting worker holds it, and the report carries its token or none at all: then the report
  -- is accepted. Or one of these fails: then StaleTaskOwner is raised with the token of the task and
  -- that of the report, and the database stays as it was.
  pub finish_task-decides :
      (Accepts w report.fence r
        × ((task : JobTask) × ((finish_task k w report now db).0 ≡ returned (some task))))
      ⊎ ((¬ Accepts w report.fence r)
          × ((e : StaleTaskOwner) × (finish_task k w report now db ≡ (raised e, db))
              × (e.expected_fence ≡ fence_of k db)
              × (e.received_fence ≡ report.fence)))
  unfolding finish_task stale fence_of
  finish_task-decides = elim (Option-cases (check_owner k w report.fence r.content)) [
    | inl c ↦
        let accepts = check_owner-Accepts c in
        inl (
          accepts,
          (
            finished report now r.content,
            ap (λ p. p.0) (finish_task-owner (Accepts-Owns w report.fence r accepts)),
          ),
        )
    | inr (reason, c) ↦ inr (
      check_owner-refuses reason c,
      (
        stale k w r.content report.fence reason,
        rw (get_task-row k db r found, finish_task, c) refl,
        rw found refl,
        refl,
      ),
    )
  ]

  -- In a sound database the owner's report ends the attempt: the task is SUCCEEDED, or after a
  -- failure DEAD_LETTER if its attempts have reached `max_attempts` and RETRYING if not; its lease
  -- is cleared, its token stays, and no other task changes.
  pub finish_task-ends :
      (j : String)
      → Owns w report.fence r
      → (r' : TaskRow) × (task_row j (finish_task k w report now db).1
          ≡ (if str_eq k j then some r' else task_row j db))
        × (r'.status ≡ (
            if report.ok
            then TaskStatus.succeeded
            else if ltb r.content.attempts r.content.max_attempts
            then TaskStatus.retrying
            else TaskStatus.dead_letter))
        × (r'.lease_expires_at ≡ none)
        × (r'.content.attempts ≡ r.content.attempts)
  finish_task-ends j o =
      let change = store_task (finished report now r.content) now in
      let update =
        find_row-update_row task_key (is_held_by w) change (λ x. unfold store_task in refl) k j
          db.tasks in
      (
        change r,
        rw (finish_task-owner o)
            (ground (arith, update, eq_iff k j, found, Owns-is_held_by w report.fence r o)),
        (unfold store_task finished finished_status in ground arith),
        (unfold store_task finished in refl),
        (unfold store_task finished in refl),
      )
