-- ===== src/Questions/Gate.antt =====
-- What passes the gate on candidate questions.
use ai_researcher_agent_loca.Prelude.{
  ℕ, suc, ◌+◌, ◌≤◌, ◌<◌, max, String, true, false, List, [], ◌∷◌, ◌≡◌, refl, arith, ◌⊎◌, inl, inr,
  All-weaken, All-self, subst, sym, ap, str_eq, leb, any_of, eq_iff, Bool-cases, All, In, length,
  map,
}
use ai_researcher_agent_loca.Questions.{
  Question, TextForms, is_blank, normal_text, is_dropped, valid_from, filter_valid_questions,
}

module _ (tools : TextForms) where
  -- Each question has a text and says what its answer changes, and its text is none of those seen
  -- or of the questions before it.
  abbrev pub AreAdmitted : (seen_texts : List String) → List Question → Type 0
  AreAdmitted seen [] = Unit
  AreAdmitted seen (q ∷ qs) =
      (is_blank tools q.text ≡ false)
      × ((is_blank tools q.changes ≡ false)
          × ((any_of (str_eq (normal_text tools q)) seen ≡ false)
              × AreAdmitted (normal_text tools q ∷ seen) qs))

  module _ (limit count : ℕ) (seen : List String) (q : Question) (qs : List Question) where
    valid_from-dropped :
        is_dropped tools seen q ≡ true
        → valid_from tools limit count seen (q ∷ qs) ≡ valid_from tools limit count seen qs
    unfolding valid_from
    valid_from-dropped e = rw (e, valid_from) refl

    valid_from-full :
        is_dropped tools seen q ≡ false
        → leb limit (suc count) ≡ true
        → valid_from tools limit count seen (q ∷ qs) ≡ q ∷ []
    unfolding valid_from
    valid_from-full e full = rw (e, full, valid_from) refl

    valid_from-kept :
        is_dropped tools seen q ≡ false
        → leb limit (suc count) ≡ false
        → valid_from tools limit count seen (q ∷ qs)
          ≡ q ∷ valid_from tools limit (suc count) (normal_text tools q ∷ seen) qs
    unfolding valid_from
    valid_from-kept e more = rw (e, more, valid_from) refl

    not_dropped :
        is_dropped tools seen q ≡ false
        → (is_blank tools q.text ≡ false)
          × ((is_blank tools q.changes ≡ false)
              × (any_of (str_eq (normal_text tools q)) seen ≡ false))
    unfolding is_dropped
    not_dropped e = grind arith

  valid_from-AreAdmitted :
      (limit count : ℕ) (seen : List String) (qs : List Question)
      → AreAdmitted seen (valid_from tools limit count seen qs)
  unfolding valid_from
  valid_from-AreAdmitted limit count seen [] = tt
  valid_from-AreAdmitted limit count seen (q ∷ qs) =
      let same = valid_from-AreAdmitted limit count seen qs in
      let next = valid_from-AreAdmitted limit (suc count) (normal_text tools q ∷ seen) qs in
      elim (Bool-cases (is_dropped tools seen q)) [
        | inl e ↦ subst (AreAdmitted seen) (sym (valid_from-dropped limit count seen q qs e)) same
        | inr e ↦
            let (text, (changes, new)) = not_dropped limit count seen q qs e in
            elim (Bool-cases (leb limit (suc count))) [
              | inl full ↦
                  subst (AreAdmitted seen) (sym (valid_from-full limit count seen q qs e full))
                    (text, (changes, (new, tt)))
              | inr more ↦
                  subst (AreAdmitted seen) (sym (valid_from-kept limit count seen q qs e more))
                    (text, (changes, (new, next)))
            ]
      ]

  valid_from-length :
      (limit count : ℕ) (seen : List String) (qs : List Question)
      → count + length (valid_from tools limit count seen qs) ≤ max limit (suc count)
  unfolding valid_from
  valid_from-length limit count seen [] = omega arith
  valid_from-length limit count seen (q ∷ qs) =
      let same = valid_from-length limit count seen qs in
      let next = valid_from-length limit (suc count) (normal_text tools q ∷ seen) qs in
      elim (Bool-cases (is_dropped tools seen q)) [
        | inl e ↦ rw (valid_from-dropped limit count seen q qs e, length) same
        | inr e ↦ elim (Bool-cases (leb limit (suc count))) [
          | inl full ↦ rw (valid_from-full limit count seen q qs e full, length) (omega arith)
          | inr more ↦ rw (valid_from-kept limit count seen q qs e more, length) (ground arith)
        ]
      ]

  any_of-In : (text : String) (seen : List String) → any_of (str_eq text) seen ≡ true → In text seen
  any_of-In text [] e = absurd (cc)
  any_of-In text (s ∷ seen) e = elim (Bool-cases (str_eq text s)) [
    | inl same ↦ inl (ground (arith, eq_iff text s))
    | inr other ↦ inr (any_of-In text seen (ground arith))
  ]

  seen_before :
      (seen : List String) (q : Question)
      → is_dropped tools seen q ≡ true
      → is_blank tools q.text ≡ false
      → is_blank tools q.changes ≡ false
      → In (normal_text tools q) seen
  unfolding is_dropped
  seen_before seen q e text changes = any_of-In (normal_text tools q) seen (grind arith)

  -- The text of the question was seen, or one of the questions kept has it.
  abbrev IsAsked : List String → List Question → Question → Type 0
  IsAsked seen kept q =
      In (normal_text tools q) seen ⊎ In (normal_text tools q) (map (normal_text tools) kept)

  IsAsked-later :
      (seen : List String) (kept : List Question) (q c : Question)
      → IsAsked (normal_text tools q ∷ seen) kept c
      → IsAsked seen (q ∷ kept) c
  IsAsked-later seen kept q c (inl (inl same)) = inr (inl same)
  IsAsked-later seen kept q c (inl (inr before)) = inl before
  IsAsked-later seen kept q c (inr later) = inr (inr later)

  valid_from-IsAsked :
      (limit count : ℕ) (seen : List String) (qs : List Question) (c : Question)
      → count + length (valid_from tools limit count seen qs) < limit
      → In c qs
      → is_blank tools c.text ≡ false
      → is_blank tools c.changes ≡ false
      → IsAsked seen (valid_from tools limit count seen qs) c
  valid_from-IsAsked limit count seen [] c room stands text changes = elim stands [ ]
  valid_from-IsAsked limit count seen (q ∷ qs) c room stands text changes =
      elim (Bool-cases (is_dropped tools seen q)) [
        | inl e ↦
            let step = valid_from-dropped limit count seen q qs e in
            let room' : count + length (valid_from tools limit count seen qs) < limit =
              rw step at room in
            subst (λ kept. IsAsked seen kept c) (sym step)
              (elim stands [
                | inl same ↦ inl (
                    seen_before seen c (subst (λ x. is_dropped tools seen x ≡ true) same e) text
                      changes)
                | inr later ↦ valid_from-IsAsked limit count seen qs c room' later text changes
              ])
        | inr e ↦ elim (Bool-cases (leb limit (suc count))) [
          | inl full ↦
              let step = valid_from-full limit count seen q qs e full in
              let room' : count + 1 < limit = rw (step, length) at room in absurd (ground arith)
          | inr more ↦
              let new = normal_text tools q ∷ seen in
              let rest = valid_from tools limit (suc count) new qs in
              let step = valid_from-kept limit count seen q qs e more in
              let room' : suc count + length rest < limit =
                let r : count + suc (length rest) < limit = rw (step, length) at room in
                omega arith in
              subst (λ kept. IsAsked seen kept c) (sym step)
                (elim stands [
                  | inl same ↦ inr (inl (ap (normal_text tools) same))
                  | inr later ↦
                      IsAsked-later seen rest q c
                        (valid_from-IsAsked limit (suc count) new qs c room' later text changes)
                ])
        ]
      ]

  valid_from-In :
      (limit count : ℕ) (seen : List String) (qs : List Question) (c : Question)
      → In c (valid_from tools limit count seen qs)
      → In c qs
  unfolding valid_from
  valid_from-In limit count seen [] c stands = stands
  valid_from-In limit count seen (q ∷ qs) c stands = elim (Bool-cases (is_dropped tools seen q)) [
    | inl e ↦ inr (
        valid_from-In limit count seen qs c
          (subst (In c) (valid_from-dropped limit count seen q qs e) stands))
    | inr e ↦ elim (Bool-cases (leb limit (suc count))) [
      | inl full ↦ elim (subst (In c) (valid_from-full limit count seen q qs e full) stands) [
        | inl same ↦ inl same
        | inr none_left ↦ elim none_left [ ]
      ]
      | inr more ↦ elim (subst (In c) (valid_from-kept limit count seen q qs e more) stands) [
        | inl same ↦ inl same
        | inr later ↦ inr (valid_from-In limit (suc count) (normal_text tools q ∷ seen) qs c later)
      ]
    ]
  ]

  -- The gate lets through candidates that have a text and say what their answer changes, no two of
  -- the same text, and at most as many as the cap, or one if the cap is 0.
  pub filter_valid_questions-AreAdmitted :
      (limit : ℕ) (candidates : List Question)
      → AreAdmitted [] (filter_valid_questions tools limit candidates)
        × (All (λ q. In q candidates) (filter_valid_questions tools limit candidates)
            × (length (filter_valid_questions tools limit candidates) ≤ max limit 1))
  unfolding filter_valid_questions
  filter_valid_questions-AreAdmitted limit candidates =
      let kept = valid_from tools limit 0 [] candidates in
      let bound = valid_from-length limit 0 [] candidates in
      (
        valid_from-AreAdmitted limit 0 [] candidates,
        (All-weaken (valid_from-In limit 0 [] candidates) kept (All-self kept), omega arith),
      )

  -- No question is lost below the cap: if fewer questions than the cap pass, each candidate with a
  -- text and a change is asked, by itself or by a candidate of the same text that passes.
  pub filter_valid_questions-asks :
      (limit : ℕ) (candidates : List Question) (c : Question)
      → length (filter_valid_questions tools limit candidates) < limit
      → In c candidates
      → is_blank tools c.text ≡ false
      → is_blank tools c.changes ≡ false
      → In
          (normal_text tools c)
          (map (normal_text tools) (filter_valid_questions tools limit candidates))
  unfolding filter_valid_questions
  filter_valid_questions-asks limit candidates c room stands text changes =
      elim (valid_from-IsAsked limit 0 [] candidates c (omega arith) stands text changes) [
        | inl seen ↦ elim seen [ ]
        | inr asked ↦ asked
      ]
