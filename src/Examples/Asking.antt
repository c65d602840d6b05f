-- ===== src/Examples/Asking.antt =====
-- The theorems about the gate on questions, at four candidates.
use ai_researcher_agent_loca.Prelude.{
  ◌≤◌, ◌<◌, max, String, false, none, List, [], ◌∷◌, ◌≡◌, refl, arith, inl, inr, All, In, length,
  str_eq, if◌then◌else◌, map,
}
use ai_researcher_agent_loca.Questions.{
  Question, TextForms, is_blank, normal_text, is_dropped, valid_from, filter_valid_questions,
}
use ai_researcher_agent_loca.Questions.Gate.{
  AreAdmitted, filter_valid_questions-AreAdmitted, filter_valid_questions-asks,
}

-- One text in capitals is made small, and no text has blanks around it.
abbrev sample_tools : TextForms
sample_tools = record {
  strip = λ text. text;
  lower = λ text. if str_eq text "WHICH MARKET?" then "which market?" else text;
}

abbrev a_question : (text changes : String) → Question
a_question text changes = record {
  id = "q1";
  project_id = "p1";
  text = text;
  why_asking = "";
  changes = changes;
  options = [];
  default_assumption = "";
  blocking = false;
  status = "OPEN";
  answer = "";
  answered_at = none;
  trigger_source = "ambiguity";
  assumption_id = "";
  source_id = "";
  evidence_id = "";
  iteration = 0;
}

abbrev candidates : List Question
candidates =
    a_question "which market?" "the sources"
    ∷ a_question "which year?" ""
    ∷ a_question "WHICH MARKET?" "the scope"
    ∷ a_question "which region?" "the scope"
    ∷ []

gate_passes :
    map (λ q. q.text) (filter_valid_questions sample_tools 3 candidates)
    ≡ "which market?" ∷ "which region?" ∷ []
unfolding filter_valid_questions valid_from is_dropped is_blank normal_text
gate_passes = refl

gate_cap_zero :
    map (λ q. q.text) (filter_valid_questions sample_tools 0 candidates) ≡ "which market?" ∷ []
unfolding filter_valid_questions valid_from is_dropped is_blank normal_text
gate_cap_zero = refl

filter_valid_questions-AreAdmitted_example :
    AreAdmitted sample_tools [] (filter_valid_questions sample_tools 3 candidates)
    × (All (λ q. In q candidates) (filter_valid_questions sample_tools 3 candidates)
        × (length (filter_valid_questions sample_tools 3 candidates) ≤ max 3 1))
filter_valid_questions-AreAdmitted_example =
    filter_valid_questions-AreAdmitted sample_tools 3 candidates

filter_valid_questions-asks_example :
    In
      (normal_text sample_tools (a_question "WHICH MARKET?" "the scope"))
      (map (normal_text sample_tools) (filter_valid_questions sample_tools 3 candidates))
unfolding filter_valid_questions valid_from is_dropped is_blank normal_text
filter_valid_questions-asks_example =
    let room : 2 < 3 = omega arith in
    filter_valid_questions-asks sample_tools 3 candidates (a_question "WHICH MARKET?" "the scope")
      room (inr (inr (inl refl))) refl refl
