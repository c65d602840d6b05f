-- ===== src/Review/Verdicts.antt =====
-- The verdict that counts: the latest decision on the target as it is now.
use ai_researcher_agent_loca.Prelude.{
  ◌≤◌, ◌<◌, String, true, false, none, some, List, [], ◌∷◌, ◌≡◌, refl, arith, inl, inr, All,
  All-select, All-self, All-unselect, All-weaken, All-In, In, select, Bool-cases, Option-cases,
  str_eq, eq_refl, eq_iff, ◌∙◌, any_of,
}
use ai_researcher_agent_loca.Prelude.Latest.{
  latest, IsNewest, latest-newest, latest-In, select-In, select-IsNewest,
}
use ai_researcher_agent_loca.Prelude.Table.{upsert_row}
use ai_researcher_agent_loca.Review.{
  ReviewDecision, review_verdicts, is_kind, Target, Archive, content_hash_for, is_stale, is_current,
  latest_row, verdict_for, current_verdict, ReviewRequest, reaffirmed, recorded, decision_of,
  save_decision, record_on, record_decision,
}

-- A saved decision stands in the table, and so does what stood there, if it is not replaced.
save_decision-In :
    (new : ReviewDecision) (rows : List ReviewDecision) → In new (save_decision new rows)
unfolding save_decision upsert_row
save_decision-In new [] = inl refl
save_decision-In new (r ∷ rows) =
    let ih = save_decision-In new rows in
    elim (Bool-cases (str_eq r.id new.id)) [ inl e ↦ rw e (inl refl) | inr e ↦ rw e (inr ih) ]

save_decision-IsNewest :
    (new : ReviewDecision) (rows : List ReviewDecision)
    → All (λ d. d.decided_at < new.decided_at) rows
    → All (IsNewest (λ d. d.decided_at) new) (save_decision new rows)
unfolding save_decision upsert_row
save_decision-IsNewest new [] h = (inl refl, tt)
save_decision-IsNewest new (r ∷ rows) h =
    let ih = save_decision-IsNewest new rows h.1 in
    let others : All (IsNewest (λ d. d.decided_at) new) rows = All-weaken (λ d e. inr e) rows h.1 in
    elim (Bool-cases (str_eq r.id new.id)) [
      | inl e ↦ rw e (inl refl, others)
      | inr e ↦ rw e (inr h.0, ih)
    ]

decision_of-is_current :
    (q : ReviewRequest) (h : String)
    → is_current q.project_id q.target_kind q.target_id h (decision_of q h) ≡ true
decision_of-is_current q h =
    rw (eq_refl q.project_id, eq_refl q.target_kind, eq_refl q.target_id, eq_refl h) refl

-- The target under review, with its content hash.
abbrev IsReviewable : Archive → ReviewRequest → Target → Type 0
IsReviewable a q target =
    (is_kind q.target_kind ≡ true)
    × ((any_of (str_eq q.verdict) (review_verdicts q.target_kind) ≡ true)
        × ((a.has_project q.project_id ≡ true)
            × ((a.load_target q.project_id q.target_kind q.target_id ≡ some target)
                × (target.project_id ≡ q.project_id))))

latest_row-saved :
    (q : ReviewRequest) (h : String) (rows : List ReviewDecision)
    → All (λ d. d.decided_at < q.now) rows
    → latest_row q.project_id q.target_kind q.target_id h (save_decision (decision_of q h) rows)
      ≡ some (decision_of q h)
unfolding latest_row
latest_row-saved q h rows earlier =
    let new = decision_of q h in
    let live = is_current q.project_id q.target_kind q.target_id h in
    latest-newest (λ d. d.decided_at) new (select live (save_decision new rows))
      (select-In (λ d. d.decided_at) live new (save_decision new rows) (decision_of-is_current q h)
        (save_decision-In new rows))
      (select-IsNewest (λ d. d.decided_at) live new (save_decision new rows)
        (save_decision-IsNewest new rows earlier))

record_on-current :
    (q : ReviewRequest) (h : String) (rows : List ReviewDecision)
    → All (λ d. d.decided_at < q.now) rows
    → verdict_for q.project_id q.target_kind q.target_id h (record_on q h rows).1 ≡ some q.verdict
unfolding record_on verdict_for
record_on-current q h rows earlier =
    let new = decision_of q h in
    let saved = latest_row-saved q h rows earlier in
    elim (Option-cases (latest_row q.project_id q.target_kind q.target_id h rows)) [
      | inl e ↦
          let eq : record_on q h rows ≡ (recorded new, save_decision new rows) =
            rw (e, record_on) refl in
          rw (eq, saved, verdict_for) refl
      | inr (d, e) ↦ elim (Bool-cases (str_eq d.verdict q.verdict)) [
        | inl same ↦
            let eq : record_on q h rows ≡ (reaffirmed d, rows) = rw (e, same, record_on) refl in
            rw (eq, e, verdict_for) (ground (arith, eq_iff d.verdict q.verdict))
        | inr other ↦
            let eq : record_on q h rows ≡ (recorded new, save_decision new rows) =
              rw (e, other, record_on) refl in
            rw (eq, saved, verdict_for) refl
      ]
    ]

-- Recording a legal verdict on a target of the project, at a time later than every decision there
-- is: whether the verdict is re-affirmed or a new row is saved, the current verdict of the target
-- is then the recorded one.
pub record_decision-current :
    (a : Archive) (q : ReviewRequest) (target : Target) (rows : List ReviewDecision)
    → IsReviewable a q target
    → All (λ d. d.decided_at < q.now) rows
    → current_verdict a q.project_id q.target_kind q.target_id (record_decision a q rows).1
      ≡ some q.verdict
unfolding record_decision current_verdict
record_decision-current a q target rows (kind, (legal, (project, (loaded, same)))) earlier =
    let h = content_hash_for a q.target_kind target in
    let same' : str_eq target.project_id q.project_id ≡ true =
      ground (arith, eq_iff target.project_id q.project_id) in
    let eq : record_decision a q rows ≡ record_on q h rows =
      rw (kind, legal, project, loaded, same', record_decision) refl in
    let now : current_verdict a q.project_id q.target_kind q.target_id (record_on q h rows).1
        ≡ verdict_for q.project_id q.target_kind q.target_id h (record_on q h rows).1 =
      rw (loaded, current_verdict) refl in
    rw eq (now ∙ record_on-current q h rows earlier)

live-parts :
    (project_id kind id h : String) (d : ReviewDecision)
    → is_current project_id kind id h d ≡ true
    → (d.target_kind ≡ kind) × ((d.target_id ≡ id) × (d.content_hash ≡ h))
live-parts project_id kind id h d e = (
  ground (arith, eq_iff d.target_kind kind),
  (ground (arith, eq_iff d.target_id id), ground (arith, eq_iff d.content_hash h)),
)

live-fresh :
    (a : Archive) (project_id kind id : String) (target : Target) (d : ReviewDecision)
    → a.load_target project_id kind id ≡ some target
    → is_current project_id kind id (content_hash_for a kind target) d ≡ true
    → is_stale a project_id d ≡ false
unfolding is_stale
live-fresh a project_id kind id target d loaded live =
    let (same_kind, (same_id, same_hash)) =
      live-parts project_id kind id (content_hash_for a kind target) d live in
    let found : a.load_target project_id d.target_kind d.target_id ≡ some target =
      rw (same_kind, same_id) loaded in
    let equal : str_eq d.content_hash (content_hash_for a d.target_kind target) ≡ true =
      rw (same_hash, same_kind, eq_refl (content_hash_for a kind target)) refl in
    rw (found, equal, is_stale) refl

-- A current verdict is that of a decision in the table which is not stale, and no decision on the
-- target as it is now is later.
pub current_verdict-fresh :
    (a : Archive) (project_id kind id : String) (target : Target) (rows : List ReviewDecision)
    (verdict : String)
    → a.load_target project_id kind id ≡ some target
    → current_verdict a project_id kind id rows ≡ some verdict
    → (d : ReviewDecision) × ((In d rows × (d.verdict ≡ verdict))
        × ((is_stale a project_id d ≡ false)
            × All
                (λ x.
                  is_current project_id kind id (content_hash_for a kind target) x ≡ true
                  → x.decided_at ≤ d.decided_at)
                rows))
unfolding current_verdict verdict_for latest_row
current_verdict-fresh a project_id kind id target rows verdict loaded current =
    let live = is_current project_id kind id (content_hash_for a kind target) in
    elim (Option-cases (latest (λ d. d.decided_at) (select live rows))) [
      | inl e ↦
          let wrong : none ≡ some verdict =
            rw (loaded, e, current_verdict, verdict_for, latest_row) at current in
          absurd cc
      | inr (d, e) ↦
          let same : some d.verdict ≡ some verdict =
            rw (loaded, e, current_verdict, verdict_for, latest_row) at current in
          let (there, greatest) = latest-In (λ d. d.decided_at) (select live rows) d e in
          let (is_live_d, in_rows) =
            All-In (λ x. (live x ≡ true) × In x rows) d (select live rows)
              (All-select (λ x. In x rows) live rows (All-self rows)) there in
          (
            d,
            (
              (in_rows, cc),
              (
                live-fresh a project_id kind id target d loaded is_live_d,
                All-unselect (λ x. x.decided_at ≤ d.decided_at) live rows greatest,
              ),
            ),
          )
    ]
