-- ===== src/Permissions/Grants.antt =====
-- Which permissions an engine has.
use ai_researcher_agent_loca.Prelude.{
  Bool, true, List, [], ◌∷◌, ◌++◌, ◌≡◌, ◌↔◌, inl, inr, refl, arith, any_of, In, ◌==◌, Bool-cases,
  subst, sym,
}
use ai_researcher_agent_loca.Permissions.{
  Permission, read, research, write, execute_experiment, admin, contains, rank, implied,
  PermissionEngine, grant, has,
}

-- A permission covers itself and READ; ADMIN covers all, and EXECUTE_EXPERIMENT also WRITE.
pub data Covers : Permission → Permission → Type 0 where
  itself : (p : Permission) → Covers p p
  reading : (p : Permission) → Covers p read
  all : (p : Permission) → Covers admin p
  writing : Covers execute_experiment write

abbrev IsCovered : Permission → List Permission → Type 0
IsCovered required granted = (g : Permission) × In g granted × Covers g required

implied-Covers : (g p : Permission) → contains p (implied g) ≡ true → Covers g p
unfolding implied
implied-Covers read read h = itself read
implied-Covers read research h = absurd (ground arith)
implied-Covers read write h = absurd (ground arith)
implied-Covers read execute_experiment h = absurd (ground arith)
implied-Covers read admin h = absurd (ground arith)
implied-Covers research read h = reading research
implied-Covers research research h = itself research
implied-Covers research write h = absurd (ground arith)
implied-Covers research execute_experiment h = absurd (ground arith)
implied-Covers research admin h = absurd (ground arith)
implied-Covers write read h = reading write
implied-Covers write research h = absurd (ground arith)
implied-Covers write write h = itself write
implied-Covers write execute_experiment h = absurd (ground arith)
implied-Covers write admin h = absurd (ground arith)
implied-Covers execute_experiment read h = reading execute_experiment
implied-Covers execute_experiment research h = absurd (ground arith)
implied-Covers execute_experiment write h = writing
implied-Covers execute_experiment execute_experiment h = itself execute_experiment
implied-Covers execute_experiment admin h = absurd (ground arith)
implied-Covers admin p h = all p

Covers-implied : (g p : Permission) → Covers g p → contains p (implied g) ≡ true
unfolding implied
Covers-implied read read (itself read) = refl
Covers-implied research research (itself research) = refl
Covers-implied write write (itself write) = refl
Covers-implied execute_experiment execute_experiment (itself execute_experiment) = refl
Covers-implied admin admin (itself admin) = refl
Covers-implied read read (reading read) = refl
Covers-implied research read (reading research) = refl
Covers-implied write read (reading write) = refl
Covers-implied execute_experiment read (reading execute_experiment) = refl
Covers-implied admin read (reading admin) = refl
Covers-implied admin read (all read) = refl
Covers-implied admin research (all research) = refl
Covers-implied admin write (all write) = refl
Covers-implied admin execute_experiment (all execute_experiment) = refl
Covers-implied admin admin (all admin) = refl
Covers-implied execute_experiment write writing = refl
Covers-implied read research c = elim c [ ]
Covers-implied read write c = elim c [ ]
Covers-implied read execute_experiment c = elim c [ ]
Covers-implied read admin c = elim c [ ]
Covers-implied research write c = elim c [ ]
Covers-implied research execute_experiment c = elim c [ ]
Covers-implied research admin c = elim c [ ]
Covers-implied write research c = elim c [ ]
Covers-implied write execute_experiment c = elim c [ ]
Covers-implied write admin c = elim c [ ]
Covers-implied execute_experiment research c = elim c [ ]
Covers-implied execute_experiment admin c = elim c [ ]

module _ {A : Type 0} (f : A → Bool) where
  pub any_of-found : (xs : List A) → any_of f xs ≡ true → (x : A) × In x xs × (f x ≡ true)
  any_of-found [] h = absurd (ground arith)
  any_of-found (x ∷ xs) h = elim (Bool-cases (f x)) [
    | inl e ↦ (x, inl refl, e)
    | inr e ↦ let (y, i, e') = any_of-found xs (rw e at h) in (y, inr i, e')
  ]

  any_of-In : (xs : List A) (x : A) → In x xs → f x ≡ true → any_of f xs ≡ true
  any_of-In [] x i h = absurd i
  any_of-In (y ∷ xs) x (inl same) h = rw (same, h) refl
  any_of-In (y ∷ xs) x (inr i) h = ground (arith, any_of-In xs x i h)

admin_only : (q : Permission) → (rank admin == rank q) ≡ true → q ≡ admin
admin_only q h = ground arith

In-append : {A : Type 0} (x : A) (xs ys : List A) → In x ys → In x (xs ++ ys)
In-append x [] ys i = i
In-append x (y ∷ xs) ys i = inr (In-append x xs ys i)

-- An engine has a permission exactly if one of its granted permissions covers it: the permission
-- itself, any for READ, ADMIN for all, or EXECUTE_EXPERIMENT for WRITE.
pub has-IsCovered :
    (required : Permission) (engine : PermissionEngine)
    → (has required engine ≡ true) ↔ IsCovered required engine.granted
unfolding has
has-IsCovered required engine = (covered, had)
  where
    covered : has required engine ≡ true → IsCovered required engine.granted
    covered h = elim (Bool-cases (contains admin engine.granted)) [
      | inl e ↦
          let (q, i, same) = any_of-found (λ q. rank admin == rank q) engine.granted e in
          (q, i, subst (λ x. Covers x required) (sym (admin_only q same)) (all required))
      | inr e ↦
          let (g, i, c) =
            any_of-found (λ g. contains required (implied g)) engine.granted (rw e at h) in
          (g, i, implied-Covers g required c)
    ]

    had : IsCovered required engine.granted → has required engine ≡ true
    had (g, i, c) = elim (Bool-cases (contains admin engine.granted)) [
      | inl e ↦ rw e refl
      | inr e ↦ rw e (
          any_of-In (λ g. contains required (implied g)) engine.granted g i
            (Covers-implied g required c))
    ]

-- What an engine has it keeps when more is granted.
pub has-grant :
    (required : Permission) (perms : List Permission) (engine : PermissionEngine)
    → has required engine ≡ true
    → has required (grant perms engine) ≡ true
unfolding grant
has-grant required perms engine h =
    let (g, i, c) = (has-IsCovered required engine).0 h in
    (has-IsCovered required (grant perms engine)).1 (g, In-append g perms engine.granted i, c)
