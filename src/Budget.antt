-- ===== src/Budget.antt =====
-- src/research_engine/core/budget.py: the limits of a research project, what it has used of them, and
-- when they are exhausted. Times are in seconds; a difference of numbers stops at 0, as
-- `max(0, …)` does in the source.
pub mod Exhaustion
use ai_researcher_agent_loca.Prelude.{
  ℕ, ◌+◌, ◌-◌, ◌*◌, String, Option, none, some, leb, ltb, if◌then◌else◌,
}
use ai_researcher_agent_loca.Job.{Time}

-- The limits of the configuration that the budget reads.
pub record Limits : Type 0 where
  pub max_queries_per_iteration : ℕ
  pub max_iterations : ℕ
  pub max_documents : ℕ
  pub max_sources_total : ℕ
  pub max_llm_calls : ℕ
  pub max_wall_clock_minutes : ℕ

pub record Usage : Type 0 where
  pub queries_used : ℕ
  pub documents_used : ℕ
  pub sources_discovered : ℕ
  pub llm_calls_used : ℕ
  pub iterations_used : ℕ
  pub bytes_downloaded : ℕ

pub record Budget : Type 0 where
  pub cfg : Limits
  pub usage : Usage
  pub started : Time

unfoldable pub queries_left : Budget → ℕ
queries_left b = b.cfg.max_queries_per_iteration * (b.cfg.max_iterations + 1) - b.usage.queries_used

unfoldable pub documents_left : Budget → ℕ
documents_left b = b.cfg.max_documents - b.usage.documents_used

unfoldable pub sources_left : Budget → ℕ
sources_left b = b.cfg.max_sources_total - b.usage.sources_discovered

unfoldable pub llm_calls_left : Budget → ℕ
llm_calls_left b = b.cfg.max_llm_calls - b.usage.llm_calls_used

unfoldable pub iterations_left : Budget → ℕ
iterations_left b = b.cfg.max_iterations - b.usage.iterations_used

-- The first dimension that is exhausted; the minutes are compared in seconds.
unfoldable pub exhausted : Time → Budget → Option String
unfolding queries_left documents_left sources_left llm_calls_left
exhausted now b =
    if leb (queries_left b) 0
    then some "queries"
    else if leb (documents_left b) 0
    then some "documents"
    else if leb (sources_left b) 0
    then some "sources"
    else if leb (llm_calls_left b) 0
    then some "llm_calls"
    else if ltb (b.cfg.max_wall_clock_minutes * 60) (now - b.started)
    then some "wall_clock"
    else none

abbrev changed : (Usage → Usage) → Budget → Budget
changed change b = record b { usage = change b.usage }

unfoldable pub spend_query : ℕ → Budget → Budget
spend_query n = changed (λ u. record u { queries_used = u.queries_used + n })

unfoldable pub spend_document : ℕ → Budget → Budget
spend_document n = changed (λ u. record u { documents_used = u.documents_used + n })

unfoldable pub spend_sources : ℕ → Budget → Budget
spend_sources n = changed (λ u. record u { sources_discovered = u.sources_discovered + n })

unfoldable pub spend_llm : ℕ → Budget → Budget
spend_llm n = changed (λ u. record u { llm_calls_used = u.llm_calls_used + n })

unfoldable pub spend_bytes : ℕ → Budget → Budget
spend_bytes n = changed (λ u. record u { bytes_downloaded = u.bytes_downloaded + n })
