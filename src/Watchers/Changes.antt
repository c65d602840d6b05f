-- ===== src/Watchers/Changes.antt =====
-- What the change detector says of the hits of a search.
use ai_researcher_agent_loca.Prelude.{
  ℕ, suc, ◌+◌, ◌<◌, String, true, Option, none, some, List, [], ◌∷◌, ◌≡◌, refl, arith, inl, inr,
  All, In, length, select, str_eq, eq_refl, Bool-cases, if◌then◌else◌,
}
use ai_researcher_agent_loca.Prelude.Latest.{
  latest, IsNewest, latest-newest, select-In, select-IsNewest,
}
use ai_researcher_agent_loca.Job.{Time}
use ai_researcher_agent_loca.Watchers.{
  Hit, SourceVersion, is_version, known_hash, remember, Diff, sort_hit, diff,
}

remember-In :
    (now : Time) (project_id url digest : String) (versions : List SourceVersion)
    → In
        (record { project_id = project_id; url = url; observed_at = now; hash = digest })
        (remember now project_id url digest versions)
unfolding remember
remember-In now project_id url digest [] = inl refl
remember-In now project_id url digest (v ∷ versions) =
    inr (remember-In now project_id url digest versions)

remember-IsNewest :
    (now : Time) (project_id url digest : String) (versions : List SourceVersion)
    → All (λ v. v.observed_at < now) versions
    → All
        (IsNewest
          (λ v. v.observed_at)
          (record { project_id = project_id; url = url; observed_at = now; hash = digest }))
        (remember now project_id url digest versions)
unfolding remember
remember-IsNewest now project_id url digest [] h = (inl refl, tt)
remember-IsNewest now project_id url digest (v ∷ versions) h =
    (inr h.0, remember-IsNewest now project_id url digest versions h.1)

-- The hash that is remembered of a source, later than all there is, is the one that is known of it.
pub known_hash-remember :
    (now : Time) (project_id url digest : String) (versions : List SourceVersion)
    → All (λ v. v.observed_at < now) versions
    → known_hash project_id url (remember now project_id url digest versions) ≡ some digest
unfolding known_hash
known_hash-remember now project_id url digest versions earlier =
    let new : SourceVersion = record {
      project_id = project_id;
      url = url;
      observed_at = now;
      hash = digest;
    } in
    let p = is_version project_id url in
    let after = remember now project_id url digest versions in
    let holds : p new ≡ true = rw (eq_refl project_id, eq_refl url) refl in
    let found : latest (λ v. v.observed_at) (select p after) ≡ some new =
      latest-newest (λ v. v.observed_at) new (select p after)
        (select-In (λ v. v.observed_at) p new after holds
          (remember-In now project_id url digest versions))
        (select-IsNewest (λ v. v.observed_at) p new after
          (remember-IsNewest now project_id url digest versions earlier)) in
    rw found refl

-- A source seen again with the text it had is unchanged, and with a text of another hash changed:
-- two looks at one source, the first later than all there is.
pub diff-again :
    (sha256 : String → String) (project_id : String) (first second : Time) (seen again : Hit)
    (versions : List SourceVersion)
    → All (λ v. v.observed_at < first) versions
    → seen.url ≡ again.url
    → (diff sha256 project_id
        ((second, again) ∷ [])
        (diff sha256 project_id ((first, seen) ∷ []) versions).1).0
      ≡ (if str_eq (sha256 seen.snippet) (sha256 again.snippet)
          then record { new = []; changed = []; unchanged = again ∷ [] }
          else record { new = []; changed = again ∷ []; unchanged = [] })
unfolding diff sort_hit
diff-again sha256 project_id first second seen again versions earlier same =
    let known : known_hash project_id again.url
          (remember first project_id seen.url (sha256 seen.snippet) versions)
        ≡ some (sha256 seen.snippet) =
      rw⁻¹ same
        (known_hash-remember first project_id seen.url (sha256 seen.snippet) versions earlier) in
    elim (Bool-cases (str_eq (sha256 seen.snippet) (sha256 again.snippet))) [
      | inl e ↦ rw (known, e) refl
      | inr e ↦ rw (known, e) refl
    ]

sorted_hits : Diff → ℕ
sorted_hits d = length d.new + (length d.changed + length d.unchanged)

sort_hit-counts :
    (known : Option String) (digest : String) (h : Hit) (d : Diff)
    → sorted_hits (sort_hit known digest h d) ≡ suc (sorted_hits d)
unfolding sort_hit sorted_hits
sort_hit-counts none digest h d = omega arith
sort_hit-counts (some prev) digest h d = elim (Bool-cases (str_eq prev digest)) [
  | inl e ↦ rw e (omega arith)
  | inr e ↦ rw e (omega arith)
]

-- Every hit is reported once, as new, changed or unchanged.
pub diff-counts :
    (sha256 : String → String) (project_id : String) (hits : List (Time × Hit))
    (versions : List SourceVersion)
    → (let d = (diff sha256 project_id hits versions).0 in
        length d.new + (length d.changed + length d.unchanged))
      ≡ length hits
unfolding diff sorted_hits
diff-counts sha256 project_id [] versions = refl
diff-counts sha256 project_id ((now, h) ∷ hits) versions =
    let digest = sha256 h.snippet in
    let after = remember now project_id h.url digest versions in
    let ih = diff-counts sha256 project_id hits after in
    let counted =
      sort_hit-counts (known_hash project_id h.url versions) digest h
        (diff sha256 project_id hits after).0 in
    omega arith
