-- ===== src/Retry/Attempts.antt =====
-- Which attempt of `run_with_retries` decides how it ends.
use ai_researcher_agent_loca.Prelude.{
  ℕ, zero, suc, ◌+◌, ◌<◌, true, false, Option, none, some, ◌≡◌, refl, arith, if◌then◌else◌, ◌∙◌,
  ◌-◌,
}
use ai_researcher_agent_loca.Retry.{
  Attempt, value, error, returned, raised, defaulted, Settings, gives_up, conclude, retry_loop,
  run_with_retries,
}

module _ {A E : Type 0} (settings : Settings E) (call : ℕ → Attempt A E) where
  -- A failure after which the loop goes on.
  pub record IsPassing (exc : E) : Type 0 where
    pub caught : settings.retry_on exc ≡ true
    pub repeated : gives_up settings.is_retryable exc ≡ false

  -- The attempts from `first` on, as many as the first argument, fail and the loop goes on.
  abbrev pub AllPass : (many first : ℕ) → Type 0
  AllPass zero first = Unit {0}
  AllPass (suc many) first =
      ((exc : E) × (call first ≡ error exc) × IsPassing exc) × AllPass many (suc first)

  -- The exception that the loop holds after those attempts.
  abbrev pub held_after : (many first : ℕ) → Option E → AllPass many first → Option E
  held_after zero first last passes = last
  held_after (suc many) first last ((exc, _, _), passes) =
      held_after many (suc first) (some exc) passes

  turn_passes :
      (left first : ℕ) (last : Option E) (exc : E)
      → call first ≡ error exc
      → IsPassing exc
      → retry_loop settings call (suc left) first last
        ≡ retry_loop settings call left (suc first) (some exc)
  unfolding retry_loop
  turn_passes left first last exc e p = rw (e, retry_loop, p.caught, p.repeated) refl

  loop_passes :
      (many left first total later : ℕ) (last : Option E) (passes : AllPass many first)
      → total ≡ many + left
      → later ≡ many + first
      → retry_loop settings call total first last
        ≡ retry_loop settings call left later (held_after many first last passes)
  loop_passes zero left first total later last passes t l =
      let same_total : total ≡ left = omega arith in
      let same_later : later ≡ first = omega arith in rw (same_total, same_later) refl
  loop_passes (suc many) left first total later last ((exc, e, p), passes) t l =
      let one_less : total ≡ suc (many + left) = omega arith in
      rw one_less (
        turn_passes (many + left) first last exc e p
        ∙ loop_passes many left (suc first) (many + left) later (some exc) passes refl
            (omega arith))

  -- The loop at an attempt that follows passing ones.
  run_to :
      (many left : ℕ) (passes : AllPass many 1)
      → settings.max_attempts ≡ many + left
      → run_with_retries settings call
        ≡ retry_loop settings call left (suc many) (held_after many 1 none passes)
  unfolding run_with_retries
  run_to many left passes enough =
      loop_passes many left 1 settings.max_attempts (suc many) none passes enough (omega arith)

  turn_value :
      (left attempt : ℕ) (last : Option E) (a : A)
      → call attempt ≡ value a
      → retry_loop settings call (suc left) attempt last ≡ returned a
  unfolding retry_loop
  turn_value left attempt last a e = rw (e, retry_loop) refl

  turn_ends :
      (left attempt : ℕ) (last : Option E) (exc : E)
      → call attempt ≡ error exc
      → settings.retry_on exc ≡ true
      → gives_up settings.is_retryable exc ≡ true
      → retry_loop settings call (suc left) attempt last ≡ conclude settings call last
  unfolding retry_loop
  turn_ends left attempt last exc e caught ends = rw (e, retry_loop, caught, ends) refl

  -- The first attempt that succeeds gives the answer, if the failures before it are caught and
  -- repeated and the attempts suffice.
  pub run_with_retries-value :
      (many : ℕ) (a : A)
      → AllPass many 1
      → call (suc many) ≡ value a
      → many < settings.max_attempts
      → run_with_retries settings call ≡ returned a
  run_with_retries-value many a passes e enough =
      run_to many (suc (settings.max_attempts - suc many)) passes (omega arith)
      ∙ turn_value (settings.max_attempts - suc many) (suc many) _ a e

  -- If all the attempts fail and are repeated, the exception of the last one is raised; with another `on_failure`, the answer is the default.
  pub run_with_retries-exhausted :
      (many : ℕ) (exc : E) (passes : AllPass many 1)
      → settings.max_attempts ≡ suc many
      → call (suc many) ≡ error exc
      → IsPassing exc
      → run_with_retries settings call ≡ (if settings.raises then raised exc else defaulted)
  unfolding retry_loop conclude
  run_with_retries-exhausted many exc passes max e p =
      run_to many 1 passes (omega arith) ∙ turn_passes 0 (suc many) _ exc e p

  -- If the first attempt fails with an exception that is caught but not retryable, nothing is
  -- raised, whatever `on_failure` says: the answer is the default.
  pub run_with_retries-swallows :
      (exc : E)
      → call 1 ≡ error exc
      → settings.retry_on exc ≡ true
      → gives_up settings.is_retryable exc ≡ true
      → 0 < settings.max_attempts
      → run_with_retries settings call ≡ defaulted
  unfolding conclude
  run_with_retries-swallows exc e caught ends some_attempt =
      run_to 0 (suc (settings.max_attempts - 1)) tt (omega arith)
      ∙ turn_ends (settings.max_attempts - 1) 1 none exc e caught ends
