-- ===== src/Events/Queues.antt =====
-- What a subscriber finds in its queue, against a list that is cut to its newest events whenever one
-- is added.
use ai_researcher_agent_loca.Prelude.{
  ℕ, suc, ◌+◌, ◌≤◌, ◌<◌, String, true, false, List, [], ◌∷◌, ◌++◌, Option, some, ◌≡◌, refl, ◌∙◌, ap,
  arith, length, leb, str_eq, eq_iff, Bool-cases, Option-cases, inl, inr, if◌then◌else◌,
}
use ai_researcher_agent_loca.Prelude.Assoc.{get_entry, get_entry-put_entry}
use ai_researcher_agent_loca.Events.{
  DomainEvent, EventBus, add_subs, wanted, subscribe, without, unsubscribe, ids_for, targets,
  is_full, offered, offer, offer_all, publish, take_event,
}

-- The longest end of the list that holds at most `n` events.
abbrev pub keep : ℕ → List DomainEvent → List DomainEvent
keep n [] = []
keep n (e ∷ es) = if leb (suc (length es)) n then e ∷ es else keep n es

pub length-append : (xs ys : List DomainEvent) → length (xs ++ ys) ≡ length xs + length ys
length-append [] ys = omega arith
length-append (x ∷ xs) ys = ground (arith, length-append xs ys)

length-keep : (n : ℕ) (xs : List DomainEvent) → length (keep n xs) ≤ n
length-keep n [] = omega arith
length-keep n (x ∷ xs) = ground (arith, length-keep n xs)

keep_short : (n : ℕ) (xs : List DomainEvent) → length xs ≤ n → keep n xs ≡ xs
keep_short n [] h = refl
keep_short n (x ∷ xs) h = ground arith

keep-append : (n : ℕ) (xs ys : List DomainEvent) → keep n (keep n xs ++ ys) ≡ keep n (xs ++ ys)
keep-append n [] ys = refl
keep-append n (x ∷ xs) ys = elim (Bool-cases (leb (suc (length xs)) n)) [
  | inl short ↦ rw short refl
  | inr long ↦
      let more : leb (suc (length (xs ++ ys))) n ≡ false = ground (arith, length-append xs ys) in
      rw (long, more) (keep-append n xs ys)
]

-- An event offered to a queue that is not longer than its size.
offered-keep :
    (n : ℕ) (e : DomainEvent) (q : List DomainEvent)
    → 0 < n
    → length q ≤ n
    → offered n e q ≡ keep n (q ++ (e ∷ []))
unfolding offered is_full
offered-keep n e [] pos h = ground arith
offered-keep n e (x ∷ q) pos h =
    let total = length-append q (e ∷ []) in
    let kept = keep_short n (q ++ (e ∷ [])) in ground (arith, total, kept)

-- What a client does with the bus.
pub data BusOp : Type 0 where
  publishing : DomainEvent → BusOp
  taking : (sub_id : String) → BusOp
  subscribing : (sub_id : String) → Option (List String) → BusOp
  unsubscribing : (sub_id : String) → BusOp

unfoldable pub perform : BusOp → EventBus → EventBus
perform (publishing e) bus = publish e bus
perform (taking j) bus = (take_event j bus).1
perform (subscribing j types) bus = subscribe j types bus
perform (unsubscribing j) bus = unsubscribe j bus

abbrev pub perform_all : List BusOp → EventBus → EventBus
perform_all [] bus = bus
perform_all (op ∷ ops) bus = perform_all ops (perform op bus)

-- The same for one subscription: the table of subscriptions, and a mailbox to which each event
-- that is sent to it is added before the mailbox is cut to the newest `n` events.
pub record Mailbox : Type 0 where
  pub subs : List (String × List String)
  pub content : List DomainEvent

abbrev pub rest_of : List DomainEvent → List DomainEvent
rest_of [] = []
rest_of (e ∷ es) = es

length-rest_of : (q : List DomainEvent) (n : ℕ) → length q ≤ n → length (rest_of q) ≤ n
length-rest_of [] n h = h
length-rest_of (e ∷ q) n h = omega arith

take_keeps :
    (j : String) (bus : EventBus)
    → ((take_event j bus).1.queue_size ≡ bus.queue_size) × ((take_event j bus).1.subs ≡ bus.subs)
unfolding take_event
take_keeps j bus = elim (Option-cases (get_entry j bus.queues)) [
  | inl missing ↦ rw (missing, take_event) (refl, refl)
  | inr ([], found) ↦ rw (found, take_event) (refl, refl)
  | inr (e ∷ rest, found) ↦ rw (found, take_event) (refl, refl)
]

take_mine :
    (i j : String) (bus : EventBus) (q : List DomainEvent)
    → get_entry j bus.queues ≡ some q
    → str_eq j i ≡ true
    → get_entry i (take_event j bus).1.queues ≡ some (rest_of q)
unfolding take_event
take_mine i j bus [] found mine =
    let same : j ≡ i = ground (arith, eq_iff j i) in rw (found, take_event) (rw same at found)
take_mine i j bus (e ∷ rest) found mine =
    rw (found, take_event) (rw (get_entry-put_entry j i rest bus.queues, mine) refl)

take_other :
    (i j : String) (bus : EventBus)
    → str_eq j i ≡ false
    → get_entry i (take_event j bus).1.queues ≡ get_entry i bus.queues
unfolding take_event
take_other i j bus other = elim (Option-cases (get_entry j bus.queues)) [
  | inl missing ↦ rw (missing, take_event) refl
  | inr ([], found) ↦ rw (found, take_event) refl
  | inr (e ∷ rest, found) ↦
      rw (found, take_event) (rw (get_entry-put_entry j i rest bus.queues, other) refl)
]

module _ (n : ℕ) (i : String) where
  -- One copy for each time that the subscription stands among the targets.
  abbrev pub mailed : DomainEvent → (sub_ids : List String) → List DomainEvent → List DomainEvent
  mailed e [] q = q
  mailed e (j ∷ sub_ids) q = mailed e sub_ids (if str_eq j i then keep n (q ++ (e ∷ [])) else q)

  unfoldable pub mail : BusOp → Mailbox → Mailbox
  mail (publishing e) m = record m {
    content = mailed e (ids_for "*" m.subs ++ ids_for e.type m.subs) m.content;
  }
  mail (taking j) m = if str_eq j i then record m { content = rest_of m.content } else m
  mail (subscribing j types) m = record m {
    subs = add_subs j (wanted types) m.subs;
    content = if str_eq j i then [] else m.content;
  }
  mail (unsubscribing j) m = record m { subs = without j m.subs }

  abbrev pub mail_all : List BusOp → Mailbox → Mailbox
  mail_all [] m = m
  mail_all (op ∷ ops) m = mail_all ops (mail op m)

  -- The bus holds the mailbox: the queue of the subscription is its content.
  pub record Holds (bus : EventBus) (m : Mailbox) : Type 0 where
    pub size : bus.queue_size ≡ n
    pub table : bus.subs ≡ m.subs
    pub queue : get_entry i bus.queues ≡ some m.content
    pub bounded : length m.content ≤ n

  module _ (pos : 0 < n) where
    offer-Holds :
        (e : DomainEvent) (j : String) (bus : EventBus) (m : Mailbox)
        → Holds bus m
        → Holds (offer e j bus) (record m {
          content = if str_eq j i then keep n (m.content ++ (e ∷ [])) else m.content;
        })
    unfolding offer
    offer-Holds e j bus m h = elim (Bool-cases (str_eq j i)) [
      | inl mine ↦
          let same : j ≡ i = ground (arith, eq_iff j i) in
          let found : get_entry j bus.queues ≡ some m.content = rw same h.queue in
          let fits = offered-keep n e m.content pos h.bounded in
          rw (mine, found, offer)
            (record {
              size = h.size;
              table = h.table;
              queue =
                  rw
                    (
                      get_entry-put_entry j i (offered bus.queue_size e m.content) bus.queues,
                      mine,
                      h.size,
                      fits,
                    )
                    refl;
              bounded = length-keep n (m.content ++ (e ∷ []));
            })
      | inr other ↦ elim (Option-cases (get_entry j bus.queues)) [
        | inl missing ↦ rw (other, missing, offer) h
        | inr (q, found) ↦
            rw (other, found, offer)
              (record {
                size = h.size;
                table = h.table;
                queue =
                    rw (get_entry-put_entry j i (offered bus.queue_size e q) bus.queues, other)
                      h.queue;
                bounded = h.bounded;
              })
      ]
    ]

    offer_all-Holds :
        (e : DomainEvent) (sub_ids : List String) (bus : EventBus) (m : Mailbox)
        → Holds bus m
        → Holds (offer_all e sub_ids bus) (record m { content = mailed e sub_ids m.content })
    unfolding offer_all
    offer_all-Holds e [] bus m h = h
    offer_all-Holds e (j ∷ sub_ids) bus m h =
        offer_all-Holds e sub_ids (offer e j bus) _ (offer-Holds e j bus m h)

    take-Holds :
        (j : String) (bus : EventBus) (m : Mailbox)
        → Holds bus m
        → Holds (take_event j bus).1 (mail (taking j) m)
    unfolding mail
    take-Holds j bus m h = elim (Bool-cases (str_eq j i)) [
      | inl mine ↦
          let same : j ≡ i = ground (arith, eq_iff j i) in
          let found : get_entry j bus.queues ≡ some m.content = rw same h.queue in
          rw mine (record {
            size = (take_keeps j bus).0 ∙ h.size;
            table = (take_keeps j bus).1 ∙ h.table;
            queue = take_mine i j bus m.content found mine;
            bounded = length-rest_of m.content n h.bounded;
          })
      | inr other ↦ rw other (record {
        size = (take_keeps j bus).0 ∙ h.size;
        table = (take_keeps j bus).1 ∙ h.table;
        queue = take_other i j bus other ∙ h.queue;
        bounded = h.bounded;
      })
    ]

    subscribe-Holds :
        (j : String) (types : Option (List String)) (bus : EventBus) (m : Mailbox)
        → Holds bus m
        → Holds (subscribe j types bus) (mail (subscribing j types) m)
    unfolding subscribe mail
    subscribe-Holds j types bus m h = record {
      size = h.size;
      table = ap (λ subs. add_subs j (wanted types) subs) h.table;
      queue = rw (get_entry-put_entry j i [] bus.queues) (ground (arith, h.queue));
      bounded = ground (arith, h.bounded);
    }

    same_targets :
        (e : DomainEvent) (bus : EventBus) (m : Mailbox)
        → bus.subs ≡ m.subs
        → targets bus e ≡ ids_for "*" m.subs ++ ids_for e.type m.subs
    unfolding targets
    same_targets e bus m t = ap (λ subs. ids_for "*" subs ++ ids_for e.type subs) t

    perform-Holds :
        (op : BusOp) (bus : EventBus) (m : Mailbox)
        → Holds bus m
        → Holds (perform op bus) (mail op m)
    unfolding perform mail publish unsubscribe
    perform-Holds (publishing e) bus m h =
        rw (← same_targets e bus m h.table) (offer_all-Holds e (targets bus e) bus m h)
    perform-Holds (taking j) bus m h = take-Holds j bus m h
    perform-Holds (subscribing j types) bus m h = subscribe-Holds j types bus m h
    perform-Holds (unsubscribing j) bus m h = record {
      size = h.size;
      table = ap (λ subs. without j subs) h.table;
      queue = h.queue;
      bounded = h.bounded;
    }

    -- Over any operations of a bus with queues of a size `n` above 0, the queue of a subscription
    -- holds what its mailbox holds: each event sent to the subscription is added to the end of the
    -- mailbox, which is then cut to its newest `n` events, a take removes the oldest that is left,
    -- and a new subscription under the same id empties it.
    pub perform_all-Holds :
        (ops : List BusOp) (bus : EventBus) (m : Mailbox)
        → Holds bus m
        → Holds (perform_all ops bus) (mail_all ops m)
    perform_all-Holds [] bus m h = h
    perform_all-Holds (op ∷ ops) bus m h =
        perform_all-Holds ops (perform op bus) (mail op m) (perform-Holds op bus m h)
