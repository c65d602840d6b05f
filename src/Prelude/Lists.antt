-- ===== src/Prelude/Lists.antt =====
-- Lists measured by native numbers, tests over lists, and a stable sort.
use native.Mathlib.Omega.{arith}
use Prim.Native.Nat.{ℕ, zero, suc, ◌≤◌}
use mathlib.Core.Path.{◌≡◌, refl, sym, ap, subst}
use mathlib.Core.Logic.{◌⊎◌, inl, inr}
use mathlib.Core.Bool.{Bool, true, false, ◌&&◌, ◌||◌}
use mathlib.Core.Option.{Option, none, some}
use mathlib.Core.List.{List, [], ◌∷◌, map}
use ai_researcher_agent_loca.Prelude.Tests.{if◌then◌else◌, Bool-cases}

-- A predicate by recursion computes to tuples, which the tactics read and build.
abbrev pub All {ℓ κ} : {A : Type ℓ} → (A → Type κ) → List A → Type κ
All P [] = Unit
All P (x ∷ xs) = P x × All P xs

-- The value stands in the list.
abbrev pub In : {A : Type 0} → A → List A → Type 0
In a [] = ⊥
In a (x ∷ xs) = (x ≡ a) ⊎ In a xs

module _ {ℓ} {A : Type ℓ} where
  abbrev pub length : List A → ℕ
  length [] = 0
  length (x ∷ xs) = suc (length xs)

  abbrev pub head? : List A → Option A
  head? [] = none
  head? (x ∷ xs) = some x

  abbrev pub take : ℕ → List A → List A
  take zero xs = []
  take (suc n) [] = []
  take (suc n) (x ∷ xs) = x ∷ take n xs

  abbrev pub all_of : (A → Bool) → List A → Bool
  all_of p [] = true
  all_of p (x ∷ xs) = p x && all_of p xs

  abbrev pub any_of : (A → Bool) → List A → Bool
  any_of p [] = false
  any_of p (x ∷ xs) = p x || any_of p xs

  -- The elements that pass a test, and how many there are.
  abbrev pub select : (A → Bool) → List A → List A
  select p [] = []
  select p (x ∷ xs) = let rest = select p xs in if p x then x ∷ rest else rest

  abbrev pub count_where : (A → Bool) → List A → ℕ
  count_where p [] = 0
  count_where p (x ∷ xs) = let n = count_where p xs in if p x then suc n else n

  -- Insertion sort by an order test: equal elements keep their order.
  unfoldable pub insert_by : (A → A → Bool) → A → List A → List A
  insert_by le x [] = x ∷ []
  insert_by le x (y ∷ ys) = if le x y then x ∷ y ∷ ys else y ∷ insert_by le x ys

  unfoldable pub sort_by : (A → A → Bool) → List A → List A
  unfolding insert_by
  sort_by le [] = []
  sort_by le (x ∷ xs) = insert_by le x (sort_by le xs)

pub All-weaken {ℓ κ μ} :
    {A : Type ℓ} {P : A → Type κ} {Q : A → Type μ} (f : (x : A) → P x → Q x) (xs : List A)
    → All P xs
    → All Q xs
All-weaken f [] h = tt
All-weaken f (x ∷ xs) h = (f x h.0, All-weaken f xs h.1)

module _ {ℓ κ} {A : Type ℓ} (P : A → Type κ) where
  pub All-insert_by :
      (le : A → A → Bool) (x : A) (xs : List A) → P x → All P xs → All P (insert_by le x xs)
  unfolding insert_by
  All-insert_by le x [] px h = (px, tt)
  All-insert_by le x (y ∷ ys) px h =
      elim (le x y) as (λ b. All P (if b then x ∷ y ∷ ys else y ∷ insert_by le x ys)) [
        | true ↦ (px, h)
        | false ↦ (h.0, All-insert_by le x ys px h.1)
      ]

  pub All-sort_by : (le : A → A → Bool) (xs : List A) → All P xs → All P (sort_by le xs)
  unfolding sort_by
  All-sort_by le [] h = tt
  All-sort_by le (x ∷ xs) h = All-insert_by le x (sort_by le xs) h.0 (All-sort_by le xs h.1)

  pub All-unsort_insert :
      (le : A → A → Bool) (x : A) (xs : List A) → All P (insert_by le x xs) → P x × All P xs
  unfolding insert_by
  All-unsort_insert le x [] h = h
  All-unsort_insert le x (y ∷ ys) h = elim (Bool-cases (le x y)) [
    | inl e ↦ rw e at h
    | inr e ↦
        let g : P y × All P (insert_by le x ys) = rw e at h in
        let r = All-unsort_insert le x ys g.1 in (r.0, (g.0, r.1))
  ]

  pub All-unsort : (le : A → A → Bool) (xs : List A) → All P (sort_by le xs) → All P xs
  unfolding sort_by
  All-unsort le [] h = tt
  All-unsort le (x ∷ xs) h =
      let r = All-unsort_insert le x (sort_by le xs) h in (r.0, All-unsort le xs r.1)

  -- What is selected passes the test and was there; what passes the test is selected.
  pub All-select :
      (p : A → Bool) (xs : List A) → All P xs → All (λ x. (p x ≡ true) × P x) (select p xs)
  All-select p [] h = tt
  All-select p (x ∷ xs) h = elim (Bool-cases (p x)) [
    | inl e ↦ rw e ((e, h.0), All-select p xs h.1)
    | inr e ↦ rw e (All-select p xs h.1)
  ]

  pub All-unselect :
      (p : A → Bool) (xs : List A) → All P (select p xs) → All (λ x. p x ≡ true → P x) xs
  All-unselect p [] h = tt
  All-unselect p (x ∷ xs) h = elim (Bool-cases (p x)) [
    | inl e ↦ let g : P x × All P (select p xs) = rw e at h in (λ _. g.0, All-unselect p xs g.1)
    | inr e ↦ let g : All P (select p xs) = rw e at h in (λ t. absurd (cc), All-unselect p xs g)
  ]

pub All-In {ℓ} : {A : Type 0} (P : A → Type ℓ) (a : A) (xs : List A) → All P xs → In a xs → P a
All-In P a [] h i = absurd i
All-In P a (x ∷ xs) h (inl e) = subst P e h.0
All-In P a (x ∷ xs) h (inr i) = All-In P a xs h.1 i

-- Every element stands in its list.
pub All-self : {A : Type 0} (xs : List A) → All (λ x. In x xs) xs
All-self [] = tt
All-self {A} (x ∷ xs) = (inl refl, All-weaken (λ y i. inr i) xs (All-self xs))

-- The head of a sorted list is before all of it.
module _ {ℓ} {A : Type ℓ} (le : A → A → Bool) (total : (a b : A) → le a b ≡ false → le b a ≡ true)
    (trans : (a b c : A) → le a b ≡ true → le b c ≡ true → le a c ≡ true) where
  abbrev pub IsLeast : A → List A → Type 0
  IsLeast a xs = All (λ x. le a x ≡ true) xs

  IsLeast-trans : (a b : A) (xs : List A) → le a b ≡ true → IsLeast b xs → IsLeast a xs
  IsLeast-trans a b [] h k = tt
  IsLeast-trans a b (x ∷ xs) h k = (trans a b x h k.0, IsLeast-trans a b xs h k.1)

  abbrev IsOrdered : List A → Type 0
  IsOrdered [] = Unit
  IsOrdered (x ∷ xs) = IsLeast x xs × IsOrdered xs

  insert_by-IsOrdered : (x : A) (xs : List A) → IsOrdered xs → IsOrdered (insert_by le x xs)
  unfolding insert_by
  insert_by-IsOrdered x [] h = (tt, tt)
  insert_by-IsOrdered x (y ∷ ys) h = elim (Bool-cases (le x y)) [
    | inl e ↦ rw e ((e, IsLeast-trans x y ys e h.0), h)
    | inr e ↦
        rw e (
          All-insert_by (λ z. le y z ≡ true) le x ys (total x y e) h.0,
          insert_by-IsOrdered x ys h.1,
        )
  ]

  pub sort_by-IsOrdered : (xs : List A) → IsOrdered (sort_by le xs)
  unfolding sort_by
  sort_by-IsOrdered [] = tt
  sort_by-IsOrdered (x ∷ xs) = insert_by-IsOrdered x (sort_by le xs) (sort_by-IsOrdered xs)

  least-head :
      (r : A) (ys : List A) → head? ys ≡ some r → IsOrdered ys → All (λ x. le r x ≡ true) ys
  least-head r [] h o = tt
  least-head r (y ∷ ys) h o =
      let e : y ≡ r = cc in
      (elim (Bool-cases (le r y)) [ inl t ↦ t | inr f ↦ absurd (cc (total r y f)) ], rw e at o.0)

  -- The first of the selected elements in the order is before all that are selected.
  pub first-IsLeast :
      (p : A → Bool) (xs : List A) (r : A)
      → head? (sort_by le (select p xs)) ≡ some r
      → All (λ x. p x ≡ true → le r x ≡ true) xs
  first-IsLeast p xs r h =
      All-unselect (λ x. le r x ≡ true) p xs
        (All-unsort (λ x. le r x ≡ true) le (select p xs)
          (least-head r (sort_by le (select p xs)) h (sort_by-IsOrdered (select p xs))))

module _ {A : Type 0} (le : A → A → Bool) (p : A → Bool) (xs : List A) where
  head-All : (P : A → Type 0) (r : A) (ys : List A) → head? ys ≡ some r → All P ys → P r
  head-All P r [] h k = absurd (cc)
  head-All P r (y ∷ ys) h k = let e : y ≡ r = cc in subst P e k.0

  -- The first of the selected elements stands in the list and passes the test.
  pub first-In : (r : A) → head? (sort_by le (select p xs)) ≡ some r → (p r ≡ true) × In r xs
  first-In r h =
      head-All (λ x. (p x ≡ true) × In x xs) r (sort_by le (select p xs)) h
        (All-sort_by (λ x. (p x ≡ true) × In x xs) le (select p xs)
          (All-select (λ x. In x xs) p xs (All-self xs)))

  nil-All : (P : A → Type 0) (ys : List A) → head? ys ≡ none → All P ys
  nil-All P [] h = tt
  nil-All P (y ∷ ys) h = absurd (cc)

  -- With no first element, nothing passes the test.
  pub first-none : head? (sort_by le (select p xs)) ≡ none → All (λ x. p x ≡ false) xs
  first-none h =
      All-weaken (λ x f. elim (Bool-cases (p x)) [ inl t ↦ absurd (f t) | inr e ↦ e ]) xs
        (All-unselect (λ x. ⊥) p xs
          (All-unsort (λ x. ⊥) le (select p xs) (nil-All (λ x. ⊥) (sort_by le (select p xs)) h)))

pub In-sort_by :
    {A : Type 0} (le : A → A → Bool) (a : A) (xs : List A) → In a (sort_by le xs) → In a xs
In-sort_by le a xs =
    All-In (λ x. In x xs) a (sort_by le xs) (All-sort_by (λ x. In x xs) le xs (All-self xs))

pub In-map : {A B : Type 0} (f : A → B) (a : A) (xs : List A) → In a xs → In (f a) (map f xs)
In-map f a [] i = i
In-map f a (x ∷ xs) (inl e) = inl (ap f e)
In-map f a (x ∷ xs) (inr i) = inr (In-map f a xs i)

-- What passes the test stands in the sorted selection.
pub In-sort_by-select :
    {A : Type 0} (le : A → A → Bool) (p : A → Bool) (xs : List A)
    → All (λ x. p x ≡ true → In x (sort_by le (select p xs))) xs
In-sort_by-select le p xs =
    let sorted = sort_by le (select p xs) in
    All-unselect (λ x. In x sorted) p xs
      (All-unsort (λ x. In x sorted) le (select p xs) (All-self sorted))

pub All-zip {ℓ κ μ ν} :
    {A : Type ℓ} {P : A → Type κ} {Q : A → Type μ} {S : A → Type ν} (f : (x : A) → P x → Q x → S x)
    (xs : List A)
    → All P xs
    → All Q xs
    → All S xs
All-zip f [] h k = tt
All-zip f (x ∷ xs) h k = (f x h.0 k.0, All-zip f xs h.1 k.1)

pub count_where-In :
    {A : Type 0} (p : A → Bool) (a : A) (xs : List A) → In a xs → p a ≡ true → 1 ≤ count_where p xs
count_where-In p a [] i e = absurd i
count_where-In p a (x ∷ xs) (inl same) e =
    let t : p x ≡ true = subst (λ y. p y ≡ true) (sym same) e in rw t (omega arith)
count_where-In p a (x ∷ xs) (inr i) e = ground (arith, count_where-In p a xs)
