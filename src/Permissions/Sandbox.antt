-- ===== src/Permissions/Sandbox.antt =====
-- Which paths the sandbox lets through.
use ai_researcher_agent_loca.Prelude.{
  String, true, false, ◌⊎◌, List, [], ◌∷◌, ◌++◌, ◌≡◌, refl, arith, any_of, In, inl, inr, eq_iff,
  Bool-cases,
}
use ai_researcher_agent_loca.Permissions.{
  Parts, is_relative_to, is_forbidden, inside, outside_sandbox, forbidden_component, validate_read,
  validate_write,
}
use ai_researcher_agent_loca.Permissions.Grants.{any_of-found}

-- The path lies below a root: it is the root's parts followed by others.
abbrev pub IsBelow : Parts → List Parts → Type 0
IsBelow p roots = (root : Parts) × In root roots × ((tail : Parts) × (p ≡ root ++ tail))

relative-tail :
    (p root : Parts) → is_relative_to p root ≡ true → (tail : Parts) × (p ≡ root ++ tail)
unfolding is_relative_to
relative-tail p [] h = (p, refl)
relative-tail [] (r ∷ root) h = absurd (ground arith)
relative-tail (x ∷ p) (r ∷ root) h =
    let rest : is_relative_to p root ≡ true = ground arith in
    let same : x ≡ r = ground (arith, eq_iff x r) in
    let (tail, e) = relative-tail p root rest in (tail, rw (same, e) refl)

module _ (resolve : String → Parts) (roots : List Parts) (path : String) where
  -- A path that is let through for reading is resolved, lies below a root, and has no forbidden
  -- part.
  pub validate_read-IsBelow :
      (p : Parts)
      → validate_read resolve roots path ≡ inside p
      → (p ≡ resolve path) × IsBelow p roots × (any_of is_forbidden p ≡ false)
  unfolding validate_read
  validate_read-IsBelow p h = elim (Bool-cases (any_of (is_relative_to (resolve path)) roots)) [
    | inr away ↦ let end : outside_sandbox ≡ inside p = rw away at h in absurd cc
    | inl below ↦ elim (Bool-cases (any_of is_forbidden (resolve path))) [
      | inl bad ↦ let end : forbidden_component ≡ inside p = rw (below, bad) at h in absurd cc
      | inr fine ↦
          let end : inside (resolve path) ≡ inside p = rw (below, fine) at h in
          let same : p ≡ resolve path = cc end in
          let (root, i, relative) = any_of-found (is_relative_to (resolve path)) roots below in
          let (tail, e) = relative-tail (resolve path) root relative in
          (same, (root, i, (tail, cc (same, e))), rw same fine)
    ]
  ]

  read_cases :
      (validate_read resolve roots path ≡ outside_sandbox)
      ⊎ ((validate_read resolve roots path ≡ forbidden_component)
          ⊎ ((validate_read resolve roots path ≡ inside (resolve path))
              × (any_of (is_relative_to (resolve path)) roots ≡ true)))
  unfolding validate_read
  read_cases = elim (Bool-cases (any_of (is_relative_to (resolve path)) roots)) [
    | inr away ↦ inl (rw away refl)
    | inl below ↦ elim (Bool-cases (any_of is_forbidden (resolve path))) [
      | inl bad ↦ inr (inl (rw (below, bad) refl))
      | inr fine ↦ inr (inr (rw (below, fine) refl, below))
    ]
  ]

  -- A path is let through for writing exactly as for reading: the second test never fails.
  pub validate_write-validate_read :
      validate_write resolve roots path ≡ validate_read resolve roots path
  unfolding validate_write
  validate_write-validate_read = elim read_cases [
    | inl e ↦ rw (e, validate_write) refl
    | inr (inl e) ↦ rw (e, validate_write) refl
    | inr (inr (e, below)) ↦ rw (e, validate_write, below) refl
  ]
