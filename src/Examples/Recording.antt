-- ===== src/Examples/Recording.antt =====
-- The theorems about the events, the reviews, the cache and the watchers, at small data.
use ai_researcher_agent_loca.Prelude.{
  ◌+◌, ◌≤◌, String, true, false, none, some, List, [], ◌∷◌, ◌≡◌, refl, arith, All, In,
  if◌then◌else◌, ltb,
}
use ai_researcher_agent_loca.Events.{DomainEvent, EventBus, publish, targets}
use ai_researcher_agent_loca.Events.Queues.{
  BusOp, publishing, taking, perform_all, Mailbox, mail_all, Holds, perform_all-Holds,
}
use ai_researcher_agent_loca.Events.Counting.{waiting, publish-counts}
use ai_researcher_agent_loca.Review.{
  Archive, Target, ReviewRequest, ReviewDecision, current_verdict, record_decision, is_stale,
  is_current, content_hash_for, review_verdicts, decision_of, verdict_for, latest_row,
}
use ai_researcher_agent_loca.Review.Verdicts.{record_decision-current, current_verdict-fresh}
use ai_researcher_agent_loca.Prelude.Latest.{latest, latest_from}
use ai_researcher_agent_loca.Prelude.Assoc.{get_entry}
use ai_researcher_agent_loca.Cache.{Json, get, put}
use ai_researcher_agent_loca.Cache.Expiry.{get-put}

abbrev an_event : DomainEvent
an_event = record {
  type = "JobCreated";
  project_id = "p1";
  job_id = "j1";
  payload = [];
  event_id = "e1";
  ts = "2026-01-01";
}

abbrev a_bus : EventBus
a_bus = record {
  subs = ("*", "s1" ∷ []) ∷ [];
  queues = ("s1", []) ∷ [];
  queue_size = 2;
  dropped_events = 0;
}

abbrev a_mailbox : Mailbox
a_mailbox = record { subs = ("*", "s1" ∷ []) ∷ []; content = [] }

abbrev bus_ops : List BusOp
bus_ops = publishing an_event ∷ publishing an_event ∷ publishing an_event ∷ taking "s1" ∷ []

a_bus-Holds : Holds 2 "s1" a_bus a_mailbox
unfolding get_entry
a_bus-Holds = record { size = refl; table = refl; queue = refl; bounded = omega arith }

perform_all-Holds_example :
    Holds 2 "s1" (perform_all bus_ops a_bus) (mail_all 2 "s1" bus_ops a_mailbox)
perform_all-Holds_example =
    perform_all-Holds 2 "s1" (omega arith) bus_ops a_bus a_mailbox a_bus-Holds

publish-counts_example :
    (publish an_event a_bus).dropped_events + waiting (publish an_event a_bus).queues ≡ 0 + 0 + 1
unfolding targets get_entry
publish-counts_example = publish-counts an_event a_bus (refl, tt)

abbrev a_claim : Target
a_claim = record { project_id = "p1"; first = "Cats purr."; second = "" }

abbrev an_archive : Archive
an_archive = record {
  norm = λ s. s;
  sha256 = λ s. s;
  has_project = λ p. true;
  load_target = λ p kind id. some a_claim;
}

abbrev a_request : ReviewRequest
a_request = record {
  project_id = "p1";
  target_kind = "claim";
  target_id = "c1";
  verdict = "REJECTED";
  note = "";
  reviewer_label = "";
  actor_kind = "os_user";
  new_id = "rev_2";
  now = 500;
}

-- An earlier decision on the text as it is.
abbrev earlier : ReviewDecision
earlier =
    decision_of (record a_request { verdict = "APPROVED"; new_id = "rev_1"; now = 400 })
      "Cats purr."

record_decision-current_example :
    current_verdict an_archive "p1" "claim" "c1"
      (record_decision an_archive a_request (earlier ∷ [])).1
    ≡ some "REJECTED"
unfolding review_verdicts
record_decision-current_example =
    record_decision-current an_archive a_request a_claim (earlier ∷ [])
      (refl, (refl, (refl, (refl, refl)))) (omega arith, tt)

current_verdict-fresh_example :
    (d : ReviewDecision) × ((In d (earlier ∷ []) × (d.verdict ≡ "APPROVED"))
      × ((is_stale an_archive "p1" d ≡ false)
          × All
              (λ x.
                is_current "p1" "claim" "c1" (content_hash_for an_archive "claim" a_claim) x ≡ true
                → x.decided_at ≤ d.decided_at)
              (earlier ∷ [])))
unfolding current_verdict content_hash_for verdict_for latest_row latest latest_from
current_verdict-fresh_example =
    current_verdict-fresh an_archive "p1" "claim" "c1" a_claim (earlier ∷ []) "APPROVED" refl refl

abbrev plain : Json String
plain = record { dumps = λ v. v; loads = λ s. some s }

get-put_example :
    (get plain 90 "k" (put plain 10 "k" "v" 60 [])).0
    ≡ (if ltb (10 + 60) 90 then none else some "v")
get-put_example = get-put plain "k" "v" 60 10 [] 90 refl (omega arith)
