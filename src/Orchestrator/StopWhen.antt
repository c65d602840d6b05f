-- ===== src/Orchestrator/StopWhen.antt =====
-- `evaluate_stop_conditions` of engines/runner.py. A value of a metric and the bound it is compared
-- with are numbers of one scale.
use ai_researcher_agent_loca.Prelude.{
  ℕ, String, Bool, false, ◌&&◌, Option, none, some, List, [], ◌∷◌, str_eq, leb, ltb, ◌==◌,
  if◌then◌else◌,
}

pub record StopConditionSpec : Type 0 where
  pub metric : String
  pub op : String
  pub value : ℕ
  pub after_iteration : ℕ

-- An operator that is none of the five never matches.
unfoldable pub matched : (op : String) (actual value : ℕ) → Bool
matched op actual value =
    if str_eq op "<="
    then leb actual value
    else if str_eq op "<"
    then ltb actual value
    else if str_eq op ">="
    then leb value actual
    else if str_eq op ">"
    then ltb value actual
    else str_eq op "==" && actual == value

-- Whether a condition stops the loop, given the metrics that have a value.
unfoldable pub is_fulfilled :
    (metrics : String → Option ℕ) → (iteration : ℕ) → StopConditionSpec → Bool
is_fulfilled metrics iteration cond =
    if ltb iteration cond.after_iteration then false else elim (metrics cond.metric) [
      | none ↦ false
      | some actual ↦ matched cond.op actual cond.value
    ]

-- The first condition that is met; the text of the reason is left out.
unfoldable pub evaluate_stop_conditions :
    List StopConditionSpec
    → (metrics : String → Option ℕ) → (iteration : ℕ) → Option StopConditionSpec
evaluate_stop_conditions [] metrics iteration = none
evaluate_stop_conditions (cond ∷ conditions) metrics iteration =
    let rest = evaluate_stop_conditions conditions metrics iteration in
    if is_fulfilled metrics iteration cond then some cond else rest
