-- ===== src/Events.antt =====
-- src/research_engine/platform/events.py: `EventBus`, whose subscribers have bounded queues, and
-- `EventPersister`. A queue is one object that may stand under several event types, so it is held
-- once, under the id of its subscription, and the table of types holds ids. The random ids and
-- times are arguments.
pub mod Queues
pub mod Counting
use ai_researcher_agent_loca.Prelude.{
  ℕ, suc, ◌+◌, String, Bool, true, false, not, ◌&&◌, List, [], ◌∷◌, ◌++◌, Option, none, some,
  length, leb, ltb, str_eq, or_else, select, if◌then◌else◌,
}
use ai_researcher_agent_loca.Prelude.Assoc.{get_entry, put_entry}
use ai_researcher_agent_loca.Job.{Dict}

pub record DomainEvent : Type 0 where
  pub type : String
  pub project_id : String
  pub job_id : String
  pub payload : Dict
  pub event_id : String
  pub ts : String

-- `__post_init__`: a missing id and a missing time are filled in.
unfoldable pub filled_in : (fresh_id now : String) → DomainEvent → DomainEvent
filled_in fresh_id now e = record e {
  event_id = if str_eq e.event_id "" then fresh_id else e.event_id;
  ts = if str_eq e.ts "" then now else e.ts;
}

pub record EventBus : Type 0 where
  pub subs : List (String × List String)
  pub queues : List (String × List DomainEvent)
  pub queue_size : ℕ
  pub dropped_events : ℕ

-- `self._subs.setdefault(t, []).append(…)`
unfoldable pub add_sub :
    (sub_id type : String) → List (String × List String) → List (String × List String)
add_sub sub_id type subs = put_entry type (or_else (get_entry type subs) [] ++ (sub_id ∷ [])) subs

unfoldable pub add_subs :
    (sub_id : String)
    → (types : List String) → List (String × List String)
    → List (String × List String)
unfolding add_sub
add_subs sub_id [] subs = subs
add_subs sub_id (t ∷ types) subs = add_subs sub_id types (add_sub sub_id t subs)

-- `types or ["*"]`
unfoldable pub wanted : Option (List String) → List String
wanted none = "*" ∷ []
wanted (some []) = "*" ∷ []
wanted (some (t ∷ types)) = t ∷ types

unfoldable pub subscribe : (sub_id : String) → Option (List String) → EventBus → EventBus
subscribe sub_id types bus = record bus {
  subs = add_subs sub_id (wanted types) bus.subs;
  queues = put_entry sub_id [] bus.queues;
}

abbrev is_nonempty : List String → Bool
is_nonempty [] = false
is_nonempty (x ∷ xs) = true

-- The subscriptions that stay; a type without any is deleted. The queue stays with its owner.
unfoldable pub without :
    (sub_id : String) → List (String × List String) → List (String × List String)
without sub_id [] = []
without sub_id ((t, ids) ∷ subs) =
    let rest = without sub_id subs in
    let left = select (λ i. not (str_eq i sub_id)) ids in
    if is_nonempty left then (t, left) ∷ rest else rest

unfoldable pub unsubscribe : (sub_id : String) → EventBus → EventBus
unsubscribe sub_id bus = record bus { subs = without sub_id bus.subs }

abbrev pub ids_for : (type : String) → List (String × List String) → List String
ids_for type subs = or_else (get_entry type subs) []

-- The subscriptions that an event goes to, those to all types first.
unfoldable pub targets : EventBus → DomainEvent → List String
targets bus e = ids_for "*" bus.subs ++ ids_for e.type bus.subs

abbrev drop_oldest : List DomainEvent → List DomainEvent
drop_oldest [] = []
drop_oldest (e ∷ rest) = rest

-- `queue.Full`: a queue whose size is not positive has no bound.
unfoldable pub is_full : (size : ℕ) → List DomainEvent → Bool
is_full size q = ltb 0 size && leb size (length q)

-- What becomes of one queue: at the end of a full one the oldest event makes room.
unfoldable pub offered : (size : ℕ) → DomainEvent → List DomainEvent → List DomainEvent
unfolding is_full
offered size e q = (if is_full size q then drop_oldest q else q) ++ (e ∷ [])

unfoldable pub offer : DomainEvent → (sub_id : String) → EventBus → EventBus
offer e sub_id bus = elim (get_entry sub_id bus.queues) [
  | none ↦ bus
  | some q ↦ record bus {
    queues = put_entry sub_id (offered bus.queue_size e q) bus.queues;
    dropped_events =
        if is_full bus.queue_size q then suc bus.dropped_events else bus.dropped_events;
  }
]

unfoldable pub offer_all : DomainEvent → (sub_ids : List String) → EventBus → EventBus
offer_all e [] bus = bus
offer_all e (i ∷ sub_ids) bus = offer_all e sub_ids (offer e i bus)

unfoldable pub publish : DomainEvent → EventBus → EventBus
publish e bus = offer_all e (targets bus e) bus

-- `q.get_nowait()` of a subscriber.
unfoldable pub take_event : (sub_id : String) → EventBus → Option DomainEvent × EventBus
take_event sub_id bus = elim (get_entry sub_id bus.queues) [
  | none ↦ (none, bus)
  | some [] ↦ (none, bus)
  | some (e ∷ rest) ↦ (some e, record bus { queues = put_entry sub_id rest bus.queues })
]

-- The persister and its store: the rows that `persist_event` has written, the newest first.
pub record EventPersister : Type 0 where
  pub rows : List DomainEvent
  pub persistence_errors : ℕ

-- `_persist_one`; `fails` says of which events the store raises.
unfoldable pub persist_one :
    (fails : DomainEvent → Bool) → DomainEvent → EventPersister → EventPersister
persist_one fails e p =
    if fails e
    then record p { persistence_errors = suc p.persistence_errors }
    else record p { rows = e ∷ p.rows }

-- The loop of `stop` over the pending events, of which it takes all if the time suffices.
unfoldable pub drain :
    (fails : DomainEvent → Bool) → List DomainEvent → EventPersister → EventPersister
drain fails [] p = p
drain fails (e ∷ pending) p = drain fails pending (persist_one fails e p)
