-- ===== src/Budget/Exhaustion.antt =====
-- An exhausted budget stays exhausted.
use ai_researcher_agent_loca.Prelude.{ℕ, ◌≤◌, none, List, [], ◌∷◌, ◌≡◌, ◌≢◌, arith}
use ai_researcher_agent_loca.Job.{Time}
use ai_researcher_agent_loca.Budget.{
  Budget, exhausted, spend_query, spend_document, spend_sources, spend_llm, spend_bytes,
}

pub data Spending : Type 0 where
  query document sources llm bytes : ℕ → Spending

unfoldable pub spend : Spending → Budget → Budget
spend (query n) b = spend_query n b
spend (document n) b = spend_document n b
spend (sources n) b = spend_sources n b
spend (llm n) b = spend_llm n b
spend (bytes n) b = spend_bytes n b

abbrev pub spend_all : List Spending → Budget → Budget
spend_all [] b = b
spend_all (s ∷ spendings) b = spend_all spendings (spend s b)

spend-exhausted :
    (s : Spending) (now : Time) (b : Budget)
    → exhausted now (spend s b) ≡ none
    → exhausted now b ≡ none
unfolding spend spend_query spend_document spend_sources spend_llm spend_bytes exhausted
spend-exhausted (query n) now b h = ground arith
spend-exhausted (document n) now b h = ground arith
spend-exhausted (sources n) now b h = ground arith
spend-exhausted (llm n) now b h = ground arith
spend-exhausted (bytes n) now b h = ground arith

later-exhausted :
    (now later : Time) (b : Budget)
    → now ≤ later
    → exhausted later b ≡ none
    → exhausted now b ≡ none
unfolding exhausted
later-exhausted now later b order h = ground arith

all-exhausted :
    (spendings : List Spending) (now : Time) (b : Budget)
    → exhausted now (spend_all spendings b) ≡ none
    → exhausted now b ≡ none
all-exhausted [] now b h = h
all-exhausted (s ∷ spendings) now b h =
    spend-exhausted s now b (all-exhausted spendings now (spend s b) h)

-- A budget that is exhausted is so at any later time, whatever is spent until then.
pub spend_all-exhausted :
    (spendings : List Spending) (now later : Time) (b : Budget)
    → now ≤ later
    → exhausted now b ≢ none
    → exhausted later (spend_all spendings b) ≢ none
spend_all-exhausted spendings now later b order over h =
    over (later-exhausted now later b order (all-exhausted spendings later b h))
