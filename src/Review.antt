-- ===== src/Review.antt =====
-- src/research_engine/services/review_service.py, with models/review.py and the queries of
-- storage/review_repos.py: an analyst's decisions on claims, contradictions and validation plans,
-- kept as rows beside what they are about. The times are numbers in the order of the texts that the
-- source compares. Normalising, hashing, and the entities of the other repositories are parameters.
pub mod Verdicts
use Prim.Native.String.{◌++◌}
use ai_researcher_agent_loca.Prelude.{
  ℕ, String, Bool, true, false, not, ◌&&◌, ◌||◌, Option, none, some, List, [], ◌∷◌, select, sort_by,
  any_of, str_eq, leb, ltb, map_option, if◌then◌else◌,
}
use ai_researcher_agent_loca.Prelude.Latest.{latest}
use ai_researcher_agent_loca.Prelude.Table.{upsert_row}
use ai_researcher_agent_loca.Job.{Time}

pub record ReviewDecision : Type 0 where
  pub id : String
  pub project_id : String
  pub target_kind : String
  pub target_id : String
  pub verdict : String
  pub note : String
  pub reviewer_label : String
  pub actor_kind : String
  pub decided_at : Time
  pub content_hash : String

-- `REVIEW_VERDICTS`; the keys of ALLOWED_REVIEW_TRANSITIONS are the same.
unfoldable pub review_verdicts : (target_kind : String) → List String
review_verdicts kind =
    if str_eq kind "claim"
    then "APPROVED" ∷ "REJECTED" ∷ []
    else if str_eq kind "contradiction"
    then "CONFIRMED" ∷ "DISMISSED" ∷ []
    else if str_eq kind "validation_plan"
    then "ACCEPTED" ∷ "REVISION_REQUESTED" ∷ []
    else []

abbrev pub is_kind : String → Bool
is_kind kind = any_of (str_eq kind) ("claim" ∷ "contradiction" ∷ "validation_plan" ∷ [])

-- A reviewed entity: its project and the texts that are hashed, of which a claim has one.
pub record Target : Type 0 where
  pub project_id : String
  pub first : String
  pub second : String

-- `re.sub` with `strip` and `lower`, SHA-256, the projects there are, and the entities of a project.
pub record Archive : Type 0 where
  pub norm : String → String
  pub sha256 : String → String
  pub has_project : (project_id : String) → Bool
  pub load_target : (project_id kind id : String) → Option Target

-- `content_hash_for` over `_target_fields`
unfoldable pub content_hash_for : Archive → (kind : String) → Target → String
content_hash_for a kind target =
    if str_eq kind "claim"
    then a.sha256 (a.norm target.first)
    else a.sha256 (a.norm target.first ++ ("\0" ++ a.norm target.second))

-- `for_target`
abbrev pub is_for : (project_id kind id : String) → ReviewDecision → Bool
is_for project_id kind id d =
    str_eq d.project_id project_id && (str_eq d.target_kind kind && str_eq d.target_id id)

-- A decision on the target as it is now.
abbrev pub is_current : (project_id kind id content_hash : String) → ReviewDecision → Bool
is_current project_id kind id content_hash d =
    is_for project_id kind id d && str_eq d.content_hash content_hash

-- `_latest_row`; `max` takes the first of the greatest.
unfoldable pub latest_row :
    (project_id kind id content_hash : String) → List ReviewDecision → Option ReviewDecision
latest_row project_id kind id content_hash rows =
    latest (λ d. d.decided_at) (select (is_current project_id kind id content_hash) rows)

-- `_current_verdict`
unfoldable pub verdict_for :
    (project_id kind id content_hash : String) → List ReviewDecision → Option String
verdict_for project_id kind id content_hash rows =
    map_option (λ d. d.verdict) (latest_row project_id kind id content_hash rows)

-- `current_verdict`, for a project that exists and a kind that is known
unfoldable pub current_verdict :
    Archive → (project_id kind id : String) → List ReviewDecision → Option String
current_verdict a project_id kind id rows = elim (a.load_target project_id kind id) [
  | none ↦ none
  | some target ↦ verdict_for project_id kind id (content_hash_for a kind target) rows
]

-- What a caller asks to record; the source draws the id and reads the time when it needs them.
pub record ReviewRequest : Type 0 where
  pub project_id : String
  pub target_kind : String
  pub target_id : String
  pub verdict : String
  pub note : String
  pub reviewer_label : String
  pub actor_kind : String
  pub new_id : String
  pub now : Time

pub data Recorded : Type 0 where
  illegal_verdict not_found : Recorded
  reaffirmed recorded : ReviewDecision → Recorded

abbrev pub decision_of : ReviewRequest → (content_hash : String) → ReviewDecision
decision_of q content_hash = record {
  id = q.new_id;
  project_id = q.project_id;
  target_kind = q.target_kind;
  target_id = q.target_id;
  verdict = q.verdict;
  note = q.note;
  reviewer_label = q.reviewer_label;
  actor_kind = q.actor_kind;
  decided_at = q.now;
  content_hash = content_hash;
}

-- `repo.save`
unfoldable pub save_decision : ReviewDecision → List ReviewDecision → List ReviewDecision
save_decision d rows = upsert_row (λ r. r.id) (λ _. d) d rows

abbrev pub is_verdict : String → Option ReviewDecision → Bool
is_verdict verdict none = false
is_verdict verdict (some d) = str_eq d.verdict verdict

-- The part of `record_decision` with the target at hand.
unfoldable pub record_on :
    ReviewRequest → (content_hash : String) → List ReviewDecision → Recorded × List ReviewDecision
record_on q content_hash rows =
    let new = decision_of q content_hash in
    elim (latest_row q.project_id q.target_kind q.target_id content_hash rows) [
      | none ↦ (recorded new, save_decision new rows)
      | some d ↦
          if str_eq d.verdict q.verdict
          then (reaffirmed d, rows)
          else (recorded new, save_decision new rows)
    ]

unfoldable pub record_decision :
    Archive → ReviewRequest → List ReviewDecision → Recorded × List ReviewDecision
record_decision a q rows =
    if not (is_kind q.target_kind)
    then (illegal_verdict, rows)
    else if not (any_of (str_eq q.verdict) (review_verdicts q.target_kind))
    then (illegal_verdict, rows)
    else if not (a.has_project q.project_id)
    then (not_found, rows)
    else elim (a.load_target q.project_id q.target_kind q.target_id) [
      | none ↦ (not_found, rows)
      | some target ↦
          if not (str_eq target.project_id q.project_id)
          then (not_found, rows)
          else record_on q (content_hash_for a q.target_kind target) rows
    ]

unfoldable pub apply_validation_plan_revision :
    Archive → ReviewRequest → List ReviewDecision → Recorded × List ReviewDecision
apply_validation_plan_revision a q rows =
    record_decision a (record q { target_kind = "validation_plan"; verdict = "REVISION_REQUESTED" })
      rows

-- A listed decision with its staleness: the target is gone or has changed.
unfoldable pub is_stale : Archive → (project_id : String) → ReviewDecision → Bool
is_stale a project_id d = elim (a.load_target project_id d.target_kind d.target_id) [
  | none ↦ true
  | some target ↦ not (str_eq d.content_hash (content_hash_for a d.target_kind target))
]

-- A filter that is not given, or is empty, lets every decision through.
abbrev pub passes : Option String → String → Bool
passes none x = true
passes (some filter) x = str_eq filter "" || str_eq x filter

-- `list_decisions`, for a project that exists; the rows hold known kinds.
unfoldable pub list_decisions :
    Archive
    → (project_id : String) → (kind id : Option String) → List ReviewDecision
    → List (ReviewDecision × Bool)
list_decisions a project_id kind id rows =
    sort_by (λ x y. leb x.0.decided_at y.0.decided_at) (annotated rows)
  where
    annotated : List ReviewDecision → List (ReviewDecision × Bool)
    annotated [] = []
    annotated (d ∷ ds) =
        let rest = annotated ds in
        if str_eq d.project_id project_id && (passes kind d.target_kind && passes id d.target_id)
        then (d, is_stale a project_id d) ∷ rest
        else rest
