-- ===== src/Events/Counting.antt =====
-- Every event that is sent is either in a queue or counted as dropped.
use ai_researcher_agent_loca.Prelude.{
  ℕ, suc, ◌+◌, String, Bool, true, false, List, [], ◌∷◌, none, some, ◌≡◌, refl, arith, All, length,
  str_eq, Bool-cases, Option-cases, inl, inr, if◌then◌else◌,
}
use ai_researcher_agent_loca.Prelude.Assoc.{get_entry, put_entry, get_entry-put_entry}
use ai_researcher_agent_loca.Events.{
  DomainEvent, EventBus, targets, is_full, offered, offer, offer_all, publish, persist_one, drain,
  EventPersister,
}
use ai_researcher_agent_loca.Events.Queues.{length-append}

-- The events that wait in all queues.
abbrev pub waiting : List (String × List DomainEvent) → ℕ
waiting [] = 0
waiting ((k, q) ∷ queues) = length q + waiting queues

abbrev pub has_queue : String → List (String × List DomainEvent) → Bool
has_queue i queues = elim (get_entry i queues) [ none ↦ false | some q ↦ true ]

-- The subscriptions have queues.
abbrev pub AreWired : List String → EventBus → Type 0
AreWired ids bus = All (λ i. has_queue i bus.queues ≡ true) ids

waiting-put :
    (i : String) (q q' : List DomainEvent) (queues : List (String × List DomainEvent))
    → get_entry i queues ≡ some q
    → waiting (put_entry i q' queues) + length q ≡ waiting queues + length q'
unfolding get_entry put_entry
waiting-put i q q' [] h = absurd cc
waiting-put i q q' ((k, r) ∷ queues) h = ground (arith, waiting-put i q q' queues)

length-offered :
    (n : ℕ) (e : DomainEvent) (q : List DomainEvent)
    → length (offered n e q) + (if is_full n q then 1 else 0) ≡ suc (length q)
unfolding offered is_full
length-offered n e [] = ground arith
length-offered n e (x ∷ q) =
    ground (arith, length-append (x ∷ q) (e ∷ []), length-append q (e ∷ []))

-- One offer: the event waits, or one more is counted as dropped.
offer-counts :
    (e : DomainEvent) (i : String) (bus : EventBus)
    → has_queue i bus.queues ≡ true
    → (offer e i bus).dropped_events + waiting (offer e i bus).queues
      ≡ suc (bus.dropped_events + waiting bus.queues)
unfolding offer
offer-counts e i bus h = elim (Option-cases (get_entry i bus.queues)) [
  | inl missing ↦ let none_there : false ≡ true = rw (missing, has_queue) at h in absurd cc
  | inr (q, found) ↦
      let balance = waiting-put i q (offered bus.queue_size e q) bus.queues found in
      let longer = length-offered bus.queue_size e q in
      rw (found, offer) (ground (arith, balance, longer))
]

offer-wired :
    (e : DomainEvent) (i j : String) (bus : EventBus)
    → has_queue j bus.queues ≡ true
    → has_queue j (offer e i bus).queues ≡ true
unfolding offer
offer-wired e i j bus h = elim (Option-cases (get_entry i bus.queues)) [
  | inl missing ↦ rw (missing, offer) h
  | inr (q, found) ↦
      rw (found, offer)
        (elim (Bool-cases (str_eq i j)) [
          | inl same ↦
              rw (get_entry-put_entry i j (offered bus.queue_size e q) bus.queues, has_queue, same)
                refl
          | inr other ↦
              rw (get_entry-put_entry i j (offered bus.queue_size e q) bus.queues, has_queue, other)
                h
        ])
]

wired-offer :
    (e : DomainEvent) (i : String) (ids : List String) (bus : EventBus)
    → AreWired ids bus
    → AreWired ids (offer e i bus)
wired-offer e i [] bus h = tt
wired-offer e i (j ∷ ids) bus (here, rest) =
    (offer-wired e i j bus here, wired-offer e i ids bus rest)

offer_all-counts :
    (e : DomainEvent) (ids : List String) (bus : EventBus)
    → AreWired ids bus
    → (offer_all e ids bus).dropped_events + waiting (offer_all e ids bus).queues
      ≡ bus.dropped_events + waiting bus.queues + length ids
unfolding offer_all
offer_all-counts e [] bus h = omega arith
offer_all-counts e (i ∷ ids) bus (here, rest) =
    let later = offer_all-counts e ids (offer e i bus) (wired-offer e i ids bus rest) in
    let first = offer-counts e i bus here in omega (arith, later, first)

-- No event is lost in silence: if the subscriptions that an event goes to have their queues, then
-- after its publication the events that wait and those counted as dropped are as many more as it
-- has targets.
pub publish-counts :
    (e : DomainEvent) (bus : EventBus)
    → AreWired (targets bus e) bus
    → (publish e bus).dropped_events + waiting (publish e bus).queues
      ≡ bus.dropped_events + waiting bus.queues + length (targets bus e)
unfolding publish
publish-counts e bus h = offer_all-counts e (targets bus e) bus h

persist_one-counts :
    (fails : DomainEvent → Bool) (e : DomainEvent) (p : EventPersister)
    → length (persist_one fails e p).rows + (persist_one fails e p).persistence_errors
      ≡ suc (length p.rows + p.persistence_errors)
unfolding persist_one
persist_one-counts fails e p = ground arith

-- Every pending event that the persister drains is either stored or counted as an error.
pub drain-counts :
    (fails : DomainEvent → Bool) (pending : List DomainEvent) (p : EventPersister)
    → length (drain fails pending p).rows + (drain fails pending p).persistence_errors
      ≡ length p.rows + p.persistence_errors + length pending
unfolding drain
drain-counts fails [] p = omega arith
drain-counts fails (e ∷ pending) p =
    let later = drain-counts fails pending (persist_one fails e p) in
    let one = persist_one-counts fails e p in omega (arith, later, one)
