-- ===== src/Prelude/Latest.antt =====
-- The element of a list with the greatest time, the first of them if there are several.
use ai_researcher_agent_loca.Prelude.Tests.{ltb, if◌then◌else◌, Bool-cases}
use ai_researcher_agent_loca.Prelude.Lists.{All, In, All-In, All-weaken, All-select, select}
use Prim.Native.Nat.{ℕ, ◌≤◌, ◌<◌}
use mathlib.Core.Path.{◌≡◌, refl, sym, ap, subst, ◌∙◌}
use mathlib.Core.Logic.{◌⊎◌, inl, inr}
use mathlib.Core.Bool.{Bool, true}
use mathlib.Core.Option.{Option, none, some}
use mathlib.Core.List.{List, [], ◌∷◌}
use native.Mathlib.Omega.{arith}

module _ {A : Type 0} (time : A → ℕ) where
  unfoldable pub later_of : A → A → A
  later_of best d = if ltb (time best) (time d) then d else best

  unfoldable pub latest_from : A → List A → A
  latest_from best [] = best
  latest_from best (d ∷ ds) = latest_from (later_of best d) ds

  unfoldable pub latest : List A → Option A
  latest [] = none
  latest (d ∷ ds) = some (latest_from d ds)

  later_of-greatest : (a b : A) → (time a ≤ time (later_of a b)) × (time b ≤ time (later_of a b))
  unfolding later_of
  later_of-greatest a b = elim (Bool-cases (ltb (time a) (time b))) [
    | inl e ↦ rw e (ground arith, ground arith)
    | inr e ↦ rw e (ground arith, ground arith)
  ]

  later_of-either : (a b : A) → (later_of a b ≡ a) ⊎ (later_of a b ≡ b)
  unfolding later_of
  later_of-either a b = elim (Bool-cases (ltb (time a) (time b))) [
    | inl e ↦ inr (rw e refl)
    | inr e ↦ inl (rw e refl)
  ]

  latest_from-greatest :
      (best : A) (ds : List A)
      → (time best ≤ time (latest_from best ds)) × All (λ d. time d ≤ time (latest_from best ds)) ds
  unfolding latest_from
  latest_from-greatest best [] = (omega arith, tt)
  latest_from-greatest best (d ∷ ds) =
      let (least, all) = latest_from-greatest (later_of best d) ds in
      let (one, other) = later_of-greatest best d in (omega arith, (omega arith, all))

  latest_from-In :
      (best : A) (ds : List A) → (best ≡ latest_from best ds) ⊎ In (latest_from best ds) ds
  unfolding latest_from
  latest_from-In best [] = inl refl
  latest_from-In best (d ∷ ds) = elim (latest_from-In (later_of best d) ds) [
    | inr h ↦ inr (inr h)
    | inl h ↦ elim (later_of-either best d) [
      | inl e ↦ inl (sym e ∙ h)
      | inr e ↦ inr (inl (sym e ∙ h))
    ]
  ]

  abbrev pub IsNewest : A → A → Type 0
  IsNewest new d = (d ≡ new) ⊎ (time d < time new)

  -- The latest of decisions one of which is later than all the others.
  pub latest-newest :
      (new : A) (ds : List A) → In new ds → All (IsNewest new) ds → latest ds ≡ some new
  unfolding latest
  latest-newest new [] there all = elim there [ ]
  latest-newest new (d ∷ ds) there all =
      let (first, rest) = latest_from-greatest d ds in
      let found = latest_from d ds in
      let below : time new ≤ time found =
        All-In (λ x. time x ≤ time found) new (d ∷ ds) (first, rest) there in
      let newest : IsNewest new found =
        All-In (IsNewest new) found (d ∷ ds) all (latest_from-In d ds) in
      elim newest [ inl e ↦ ap some e | inr below_new ↦ absurd (omega arith) ]

  pub latest-In :
      (ds : List A) (d : A) → latest ds ≡ some d → In d ds × All (λ x. time x ≤ time d) ds
  unfolding latest
  latest-In [] d h = absurd cc
  latest-In (x ∷ ds) d h =
      let e : latest_from x ds ≡ d = cc in
      let (first, rest) = latest_from-greatest x ds in
      subst (λ y. In y (x ∷ ds) × All (λ z. time z ≤ time y) (x ∷ ds)) e
        (latest_from-In x ds, (first, rest))

  pub select-In : (p : A → Bool) (d : A) (ds : List A) → p d ≡ true → In d ds → In d (select p ds)
  select-In p d [] ok there = elim there [ ]
  select-In p d (x ∷ ds) ok (inl e) = let ok' : p x ≡ true = rw e ok in rw ok' (inl e)
  select-In p d (x ∷ ds) ok (inr there) =
      let ih = select-In p d ds ok there in
      elim (Bool-cases (p x)) [ inl e ↦ rw e (inr ih) | inr e ↦ rw e ih ]

  pub select-IsNewest :
      (p : A → Bool) (new : A) (ds : List A)
      → All (IsNewest new) ds
      → All (IsNewest new) (select p ds)
  select-IsNewest p new ds h =
      All-weaken (λ d e. e.1) (select p ds) (All-select (IsNewest new) p ds h)
