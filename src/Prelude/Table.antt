-- ===== src/Prelude/Table.antt =====
-- A table of an SQL database: rows in insertion order, found by a text key.
use ai_researcher_agent_loca.Prelude.Tests.{str_eq, if◌then◌else◌, Bool-cases, map_option}
use ai_researcher_agent_loca.Prelude.Lists.{All, In, any_of, count_where}
use Prim.Native.String.{String}
use mathlib.Core.Path.{◌≡◌, refl, subst}
use mathlib.Core.Logic.{inl, inr}
use Prim.Native.Nat.{suc, ◌≤◌}
use mathlib.Core.Bool.{Bool, true, false, ◌&&◌}
use mathlib.Core.Option.{Option, none, some}
use mathlib.Core.List.{List, [], ◌∷◌}
use native.Mathlib.Omega.{arith}
use text.Mathlib.TextEquality.{eq_iff}

module _ {R : Type 0} (key : R → String) where
  -- SELECT … WHERE id = k
  unfoldable pub find_row : String → List R → Option R
  find_row k [] = none
  find_row k (r ∷ rows) = if str_eq (key r) k then some r else find_row k rows

  -- INSERT … ON CONFLICT(id) DO UPDATE: `merge` takes the row that is there to the new one.
  unfoldable pub upsert_row : (merge : R → R) → R → List R → List R
  upsert_row merge new [] = new ∷ []
  upsert_row merge new (r ∷ rows) =
      if str_eq (key r) (key new) then merge r ∷ rows else r ∷ upsert_row merge new rows

  -- UPDATE … WHERE id = k AND test
  unfoldable pub update_row : String → (test : R → Bool) → (change : R → R) → List R → List R
  update_row k test change [] = []
  update_row k test change (r ∷ rows) =
      (if str_eq (key r) k then (if test r then change r else r) else r)
      ∷ update_row k test change rows

  abbrev on_row : (R → Bool) → (R → R) → R → R
  on_row test change r = if test r then change r else r

  module _ (test : R → Bool) (change : R → R) (keeps : (r : R) → key (change r) ≡ key r) where
    pub find_row-update_row :
        (k j : String) (rows : List R)
        → find_row j (update_row k test change rows) ≡ (
            if str_eq k j
            then map_option (on_row test change) (find_row j rows)
            else find_row j rows)
    unfolding find_row update_row
    find_row-update_row k j [] = ground arith
    find_row-update_row k j (r ∷ rows) = ground (
      arith,
      find_row-update_row k j rows,
      keeps r,
      eq_iff (key r) k,
      eq_iff (key r) j,
      eq_iff k j,
    )

  pub find_row-upsert_row :
      (merge : R → R) (new : R) (j : String) (rows : List R)
      → ((r : R) → key (merge r) ≡ key r)
      → find_row j (upsert_row merge new rows) ≡ (
          if str_eq (key new) j
          then elim (find_row j rows) [ none ↦ some new | some r ↦ some (merge r) ]
          else find_row j rows)
  unfolding find_row upsert_row
  find_row-upsert_row merge new j [] keeps = ground arith
  find_row-upsert_row merge new j (r ∷ rows) keeps = ground (
    arith,
    find_row-upsert_row merge new j rows keeps,
    keeps r,
    eq_iff (key r) (key new),
    eq_iff (key r) j,
    eq_iff (key new) j,
  )

  pub find_row-key : (k : String) (rows : List R) (r : R) → find_row k rows ≡ some r → key r ≡ k
  unfolding find_row
  find_row-key k [] r h = cc
  find_row-key k (x ∷ rows) r h = ground (arith, eq_iff (key x) k, find_row-key k rows r)

  -- Whether an UPDATE with this WHERE clause changes a row (`rowcount > 0`).
  abbrev pub matches_row : String → (test : R → Bool) → List R → Bool
  matches_row k test rows = elim (find_row k rows) [ none ↦ false | some r ↦ test r ]

  -- PRIMARY KEY: no two rows have the same id.
  abbrev pub IsKeyed : List R → Type 0
  IsKeyed [] = Unit
  IsKeyed (r ∷ rows) = (find_row (key r) rows ≡ none) × IsKeyed rows

  -- An UPDATE or an upsert keeps what it keeps on the rows that it changes.
  module _ {ℓ} (P : R → Type ℓ) where
    pub All-update_row :
        (k : String) (test : R → Bool) (change : R → R) (rows : List R)
        → ((r : R) → P r → key r ≡ k → test r ≡ true → P (change r))
        → All P rows
        → All P (update_row k test change rows)
    unfolding update_row
    All-update_row k test change [] keep h = tt
    All-update_row k test change (r ∷ rows) keep h = (
      elim (Bool-cases (str_eq (key r) k)) [
        | inl e ↦ elim (Bool-cases (test r)) [
          | inl t ↦ rw e (rw t (keep r h.0 ((eq_iff (key r) k).0 e) t))
          | inr t ↦ rw e (rw t h.0)
        ]
        | inr e ↦ rw e h.0
      ],
      All-update_row k test change rows keep h.1,
    )

    pub All-upsert_row :
        (merge : R → R) (new : R) (rows : List R)
        → ((r : R) → P r → key r ≡ key new → P (merge r))
        → P new
        → All P rows
        → All P (upsert_row merge new rows)
    unfolding upsert_row
    All-upsert_row merge new [] keep pn h = (pn, tt)
    All-upsert_row merge new (r ∷ rows) keep pn h = elim (Bool-cases (str_eq (key r) (key new))) [
      | inl e ↦ rw e (keep r h.0 ((eq_iff (key r) (key new)).0 e), h.1)
      | inr e ↦ rw e (h.0, All-upsert_row merge new rows keep pn h.1)
    ]

    pub All-find_row :
        (k : String) (rows : List R) (r : R) → All P rows → find_row k rows ≡ some r → P r
    unfolding find_row
    All-find_row k [] r h e = absurd (cc)
    All-find_row k (x ∷ rows) r h e = elim (Bool-cases (str_eq (key x) k)) [
      | inl t ↦ let g : x ≡ r = cc in subst P g h.0
      | inr t ↦ All-find_row k rows r h.1 (rw t at e)
    ]

  pub IsKeyed-update_row :
      (k : String) (test : R → Bool) (change : R → R) (rows : List R)
      → ((r : R) → key (change r) ≡ key r)
      → IsKeyed rows
      → IsKeyed (update_row k test change rows)
  unfolding update_row
  IsKeyed-update_row k test change [] keeps h = tt
  IsKeyed-update_row k test change (r ∷ rows) keeps h = (
    ground (
      arith,
      keeps r,
      h.0,
      find_row-update_row test change keeps k (key r) rows,
      find_row-update_row test change keeps k (key (change r)) rows,
    ),
    IsKeyed-update_row k test change rows keeps h.1,
  )

  pub IsKeyed-upsert_row :
      (merge : R → R) (new : R) (rows : List R)
      → ((r : R) → key (merge r) ≡ key r)
      → IsKeyed rows
      → IsKeyed (upsert_row merge new rows)
  unfolding upsert_row find_row
  IsKeyed-upsert_row merge new [] keeps h = (refl, tt)
  IsKeyed-upsert_row merge new (r ∷ rows) keeps h = elim (Bool-cases (str_eq (key r) (key new))) [
    | inl e ↦ rw (e, keeps r) h
    | inr e ↦
        rw (e, find_row-upsert_row merge new (key r) rows keeps)
          (
            ground (arith, eq_iff (key r) (key new), eq_iff (key new) (key r)),
            IsKeyed-upsert_row merge new rows keeps h.1,
          )
  ]

  -- With no row of that id, an UPDATE changes nothing.
  update_row-absent :
      (k : String) (test : R → Bool) (change : R → R) (rows : List R)
      → find_row k rows ≡ none
      → update_row k test change rows ≡ rows
  unfolding update_row find_row
  update_row-absent k test change [] h = refl
  update_row-absent k test change (r ∷ rows) h =
      ground (arith, update_row-absent k test change rows)

  -- An UPDATE by id changes at most one row, so a count grows by one at most.
  pub count_where-update_row :
      (p : R → Bool) (k : String) (test : R → Bool) (change : R → R) (rows : List R)
      → IsKeyed rows
      → count_where p (update_row k test change rows) ≤ suc (count_where p rows)
  unfolding update_row
  count_where-update_row p k test change [] h = omega arith
  count_where-update_row p k test change (r ∷ rows) h = ground (
    arith,
    count_where-update_row p k test change rows h.1,
    eq_iff (key r) k,
    update_row-absent k test change rows,
    h.0,
  )

  -- A row of the table is the one that its id finds.
  pub find_row-In :
      (r : R) (rows : List R) → IsKeyed rows → In r rows → find_row (key r) rows ≡ some r
  unfolding find_row
  find_row-In r [] h i = absurd i
  find_row-In r (x ∷ rows) h (inl e) = ground (arith, eq_iff (key x) (key r))
  find_row-In r (x ∷ rows) h (inr i) =
      ground (arith, eq_iff (key x) (key r), find_row-In r rows h.1 i)

  pub any_of-find_row :
      (p : R → Bool) (k : String) (rows : List R) (r : R)
      → find_row k rows ≡ some r
      → p r ≡ true
      → any_of (λ x. str_eq (key x) k && p x) rows ≡ true
  unfolding find_row
  any_of-find_row p k [] r h e = absurd (cc)
  any_of-find_row p k (x ∷ rows) r h e = ground (arith, any_of-find_row p k rows r)

  pub absent-All :
      (k : String) (rows : List R)
      → find_row k rows ≡ none
      → All (λ r. str_eq (key r) k ≡ false) rows
  unfolding find_row
  absent-All k [] h = tt
  absent-All k (r ∷ rows) h = elim (Bool-cases (str_eq (key r) k)) [
    | inl e ↦ absurd (ground arith)
    | inr e ↦ (e, absent-All k rows (rw e at h))
  ]

  -- An upsert turns `P` into `Q`, where the row of that id does and no other row needs it.
  module _ {P Q : R → Type 0} (merge : R → R) (new : R)
      (at_row : (r : R) → P r → key r ≡ key new → Q (merge r))
      (at_other : (r : R) → P r → str_eq (key r) (key new) ≡ false → Q r) where
    others-All :
        (rows : List R) → All P rows → All (λ r. str_eq (key r) (key new) ≡ false) rows → All Q rows
    others-All [] h o = tt
    others-All (r ∷ rows) h o = (at_other r h.0 o.0, others-All rows h.1 o.1)

    pub All-upsert_row_keyed :
        (rows : List R) → IsKeyed rows → Q new → All P rows → All Q (upsert_row merge new rows)
    unfolding upsert_row
    All-upsert_row_keyed [] keyed qn h = (qn, tt)
    All-upsert_row_keyed (r ∷ rows) keyed qn h = elim (Bool-cases (str_eq (key r) (key new))) [
      | inl e ↦
          let same = (eq_iff (key r) (key new)).0 e in
          rw e (
            at_row r h.0 same,
            others-All rows h.1 (absent-All (key new) rows (rw same at keyed.0)),
          )
      | inr e ↦ rw e (at_other r h.0 e, All-upsert_row_keyed rows keyed.1 qn h.1)
    ]
