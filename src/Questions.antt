-- ===== src/Questions.antt =====
-- src/research_engine/pipeline/questions.py: `filter_valid_questions`, with the record of
-- models/questions.py. A cap below 0 is the cap 0, which is what `max(0, max_questions)` makes of it.
-- Python's `strip` and `lower` are parameters, and the two times
-- that every entity carries are left out. Asking a language model for candidates, storing the
-- questions and answering them are not modelled.
pub mod Gate
use ai_researcher_agent_loca.Prelude.{
  ℕ, suc, String, Bool, true, false, ◌||◌, Option, List, [], ◌∷◌, str_eq, leb, any_of,
}

pub record Question : Type 0 where
  pub id : String
  pub project_id : String
  pub text : String
  pub why_asking : String
  pub changes : String
  pub options : List String
  pub default_assumption : String
  pub blocking : Bool
  pub status : String
  pub answer : String
  pub answered_at : Option String
  pub trigger_source : String
  pub assumption_id : String
  pub source_id : String
  pub evidence_id : String
  pub iteration : ℕ

pub record TextForms : Type 0 where
  pub strip : String → String
  pub lower : String → String

module _ (tools : TextForms) where
  -- `not text or not text.strip()`.
  unfoldable pub is_blank : (text : String) → Bool
  is_blank text = str_eq text "" || str_eq (tools.strip text) ""

  -- `norm`.
  unfoldable pub normal_text : Question → String
  normal_text q = tools.lower (tools.strip q.text)

  -- What the loop passes over: an empty text, an empty `changes`, and a text that was seen.
  unfoldable pub is_dropped : (seen_texts : List String) → Question → Bool
  is_dropped seen q = is_blank q.text || is_blank q.changes || any_of (str_eq (normal_text q)) seen

  -- The loop over the candidates, with the number of questions kept so far.
  unfoldable pub valid_from :
      (max_questions count : ℕ) (seen_texts : List String) → List Question → List Question
  valid_from cap count seen [] = []
  valid_from cap count seen (q ∷ qs) = elim (is_dropped seen q) [
    | true ↦ valid_from cap count seen qs
    | false ↦ q ∷ (elim (leb cap (suc count)) [
      | true ↦ []
      | false ↦ valid_from cap (suc count) (normal_text q ∷ seen) qs
    ])
  ]

  unfoldable pub filter_valid_questions : (max_questions : ℕ) → List Question → List Question
  filter_valid_questions cap candidates = valid_from cap 0 [] candidates
