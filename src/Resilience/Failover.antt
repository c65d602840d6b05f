-- ===== src/Resilience/Failover.antt =====
-- Which operations the failover executor calls, and whose answer it gives.
use ai_researcher_agent_loca.Prelude.{
  ℕ, String, Bool, false, List, [], ◌∷◌, ◌≡◌, ◌⊎◌, inl, inr, refl, reverse, In, Bool-cases,
}
use ai_researcher_agent_loca.Retry.{Attempt-cases, Attempt, value}
use ai_researcher_agent_loca.Resilience.{
  allow, breaker_for, set_breaker, Acquired, granted, refused, zero_division, asleep, acquire_for,
  Executor, Visit, answered, all_failed, crashed, unfinished, newest, run_chain, run,
}

-- The provider stands in the chain, and its operation gives this value there.
abbrev pub IsAnswer : {A : Type 0} → A → List (String × Visit A) → Type 0
IsAnswer {A} a chain = (step : String × Visit A) × In step chain × (step.1.answer ≡ value a)

Acquired-cases :
    (r : Acquired) → (r ≡ granted) ⊎ ((r ≡ refused) ⊎ ((r ≡ zero_division) ⊎ (r ≡ asleep)))
Acquired-cases granted = inl refl
Acquired-cases refused = inr (inl refl)
Acquired-cases zero_division = inr (inr (inl refl))
Acquired-cases asleep = inr (inr (inr refl))

module _ (one second : ℕ) {A : Type 0} (domain : String) (wait_rate : Bool) where
  -- A provider whose breaker does not let the call through is passed over: what its operation would
  -- have done makes no difference.
  pub run_chain-passes :
      (name : String) (visit : Visit A) (other : Attempt A String) (rest : List (String × Visit A))
      (errors : List String) (e : Executor)
      → (allow visit.asked (breaker_for one second name e)).0 ≡ false
      → run_chain one second domain wait_rate ((name, visit) ∷ rest) errors e
        ≡ run_chain one second domain wait_rate
            ((name, record visit { answer = other }) ∷ rest)
            errors
            e
  unfolding run_chain
  run_chain-passes name visit other rest errors e h = rw (h, run_chain) refl

  later-IsAnswer :
      (a : A) (step : String × Visit A) (rest : List (String × Visit A))
      → IsAnswer a rest
      → IsAnswer a (step ∷ rest)
  later-IsAnswer a step rest (found, i, e) = (found, inr i, e)

  run_chain-answered :
      (chain : List (String × Visit A)) (errors : List String) (e : Executor) (a : A)
      → (run_chain one second domain wait_rate chain errors e).0 ≡ answered a
      → IsAnswer a chain
  unfolding run_chain
  run_chain-answered [] errors e a h =
      let end : all_failed (reverse (newest 3 errors)) ≡ answered a = h in absurd cc
  run_chain-answered ((name, visit) ∷ rest) errors e a h =
      elim (Bool-cases (allow visit.asked (breaker_for one second name e)).0) [
        | inr tripped ↦
            later-IsAnswer a _ rest (run_chain-answered rest _ _ a (rw (tripped, run_chain) at h))
        | inl allowed ↦
            elim (Acquired-cases
              (acquire_for one second name domain wait_rate visit.readings (
                set_breaker one second name (allow visit.asked (breaker_for one second name e)).1
                  e)).0) [
                    | inl taken ↦ elim (Attempt-cases visit.answer) [
                      | inl (b, gave) ↦
                          let same : answered b ≡ answered a =
                            rw (allowed, run_chain, taken, gave) at h in
                          let value_same : b ≡ a = cc same in
                          ((name, visit), inl refl, cc (gave, value_same))
                      | inr (text, failed) ↦ later-IsAnswer a _ rest (
                          run_chain-answered rest _ _ a
                            (rw (allowed, run_chain, taken, failed) at h))
                    ]
                    | inr (inl held) ↦
                        later-IsAnswer a _ rest
                          (run_chain-answered rest _ _ a (rw (allowed, run_chain, held) at h))
                    | inr (inr (inl divided)) ↦
                        let end : crashed ≡ answered a = rw (allowed, run_chain, divided) at h in
                        absurd cc
                    | inr (inr (inr sleeping)) ↦
                        let end : unfinished ≡ answered a =
                          rw (allowed, run_chain, sleeping) at h in
                        absurd cc
                  ]
      ]

  -- A value that `run` returns is what the operation of a provider of the chain gave.
  pub run-answered :
      (chain : List (String × Visit A)) (e : Executor) (a : A)
      → (run one second domain wait_rate chain e).0 ≡ answered a
      → IsAnswer a chain
  unfolding run
  run-answered chain e a h = run_chain-answered chain [] e a h
