-- ===== src/Resilience/Bucket.antt =====
-- How many calls a token bucket grants.
use ai_researcher_agent_loca.Prelude.{
  ℕ, ◌+◌, ◌-◌, ◌*◌, ◌≤◌, Bool, true, false, not, ◌||◌, List, [], ◌∷◌, ◌≡◌, refl, sym, ap, ◌∙◌,
  arith, leb, ltb, ◌==◌, if◌then◌else◌,
}
use native.Mathlib.Nat.{add-mul}
use ai_researcher_agent_loca.Job.{Time}
use ai_researcher_agent_loca.Resilience.{
  TokenBucket, Acquired, granted, refused, zero_division, refill, acquire,
}

-- The readings are those of a clock that does not go back, from the given time on.
abbrev pub IsAscending : Time → List Time → Type 0
IsAscending t [] = Unit {0}
IsAscending t (now ∷ later) = (t ≤ now) × IsAscending now later

-- 1 for a granted call, 0 for another.
abbrev pub grants : Acquired → ℕ
grants granted = 1
grants _ = 0

gap : (u now r : ℕ) → u ≤ now → (now - u) * r + u * r ≡ now * r
gap u now r h = sym (add-mul (now - u) u r) ∙ ap (λ n. n * r) (omega arith)

module _ (one : ℕ) where
  -- What a bucket holds and has given away, against what it held and the time that has passed.
  pub record Spends (b c : TokenBucket) (given : ℕ) : Type 0 where
    pub balance : given * one + c.tokens + b.updated * b.rate ≤ b.tokens + c.updated * b.rate
    pub rate : c.rate ≡ b.rate
    pub burst : c.burst ≡ b.burst

  refill-Spends : (now : Time) (b : TokenBucket) → b.updated ≤ now → Spends b (refill one now b) 0
  unfolding refill
  refill-Spends now b h =
      let passed = gap b.updated now b.rate h in
      record { balance = omega (arith, passed); rate = refl; burst = refl }

  Spends-trans :
      (b c d : TokenBucket) (m n total : ℕ)
      → total ≡ m + n
      → Spends b c m
      → Spends c d n
      → Spends b d total
  Spends-trans b c d m n total sum p q =
      let later = rw p.rate at q.balance in
      let first = p.balance in
      let parts : total * one ≡ m * one + n * one = ap (λ k. k * one) sum ∙ add-mul m n one in
      record {
        balance = omega (arith, later, first, parts);
        rate = q.rate ∙ p.rate;
        burst = q.burst ∙ p.burst;
      }

  take-Spends :
      (b : TokenBucket)
      → leb one b.tokens ≡ true
      → Spends b (record b { tokens = b.tokens - one }) 1
  take-Spends b h = record { balance = ground arith; rate = refl; burst = refl }

  -- The same of the answer of a call.
  pub record SpendsAfter (b : TokenBucket) (r : Acquired × TokenBucket) : Type 0 where
    pub at : Spends b r.1 (grants r.0)

  if-SpendsAfter :
      (b : TokenBucket) (test : Bool) (x y : Acquired × TokenBucket)
      → (test ≡ true → SpendsAfter b x)
      → SpendsAfter b y
      → SpendsAfter b (if test then x else y)
  if-SpendsAfter b true x y f h = f refl
  if-SpendsAfter b false x y f h = h

  acquire-SpendsAfter :
      (wait : Bool) (timeout : Time) (readings : List Time) (b : TokenBucket)
      → IsAscending b.updated readings
      → SpendsAfter b (acquire one wait timeout readings b)
  unfolding acquire
  acquire-SpendsAfter wait timeout [] b up = record {
    at = record { balance = omega arith; rate = refl; burst = refl };
  }
  acquire-SpendsAfter wait timeout (now ∷ later) b up =
      let rest = acquire-SpendsAfter wait timeout later full (rw full_updated up.1) in
      let slept : SpendsAfter b (acquire one wait timeout later full) = record {
        at = Spends-trans b full _ 0 _ _ (omega arith) filled rest.at;
      } in
      let sleeps =
        if-SpendsAfter b (not wait || ltb (timeout * full.rate) (one - full.tokens)) (refused, full)
          (acquire one wait timeout later full) (λ _. record { at = filled }) slept in
      let waits =
        if-SpendsAfter b (full.rate == 0) (zero_division, full)
          (if not wait || ltb (timeout * full.rate) (one - full.tokens)
            then (refused, full)
            else acquire one wait timeout later full)
          (λ _. record { at = filled }) sleeps in
      if-SpendsAfter b (leb one full.tokens) (granted, record full { tokens = full.tokens - one })
        (if full.rate == 0
          then (zero_division, full)
          else if not wait || ltb (timeout * full.rate) (one - full.tokens)
          then (refused, full)
          else acquire one wait timeout later full)
        (λ enough. record {
          at = Spends-trans b full _ 0 1 1 refl filled (take-Spends full enough);
        })
        waits
    where
      full : TokenBucket
      full = refill one now b

      filled : Spends b full 0
      filled = refill-Spends now b up.0

      full_updated : full.updated ≡ now
      full_updated = unfold refill in refl

  -- Calls of `acquire`, each with its arguments and the readings that it makes.
  pub record Call : Type 0 where
    pub wait : Bool
    pub timeout : Time
    pub readings : List Time

  abbrev pub after_call : Call → TokenBucket → Acquired × TokenBucket
  after_call call b = acquire one call.wait call.timeout call.readings b

  abbrev pub after_calls : List Call → TokenBucket → TokenBucket
  after_calls [] b = b
  after_calls (call ∷ calls) b = after_calls calls (after_call call b).1

  abbrev pub granted_calls : List Call → TokenBucket → ℕ
  granted_calls [] b = 0
  granted_calls (call ∷ calls) b =
      grants (after_call call b).0 + granted_calls calls (after_call call b).1

  -- The clock does not go back from one call to the next.
  abbrev pub InOrder : List Call → TokenBucket → Type 0
  InOrder [] b = Unit {0}
  InOrder (call ∷ calls) b =
      IsAscending b.updated call.readings × InOrder calls (after_call call b).1

  calls-Spends :
      (calls : List Call) (b : TokenBucket)
      → InOrder calls b
      → Spends b (after_calls calls b) (granted_calls calls b)
  calls-Spends [] b ordered = record { balance = omega arith; rate = refl; burst = refl }
  calls-Spends (call ∷ calls) b ordered =
      Spends-trans b (after_call call b).1 _ _ _ _ refl
        (acquire-SpendsAfter call.wait call.timeout call.readings b ordered.0).at
        (calls-Spends calls (after_call call b).1 ordered.1)

  -- Over any sequence of calls, waiting or not, a bucket grants at most the tokens that it held and
  -- what its rate has brought since, if the clock does not go back.
  pub granted_calls-bound :
      (calls : List Call) (b : TokenBucket)
      → InOrder calls b
      → granted_calls calls b * one + b.updated * b.rate
        ≤ b.tokens + (after_calls calls b).updated * b.rate
  granted_calls-bound calls b ordered =
      let spends = (calls-Spends calls b ordered).balance in omega (arith, spends)
