-- ===== src/Cache.antt =====
-- src/research_engine/storage/cache.py: `KVCache`, as a table from keys to texts with an expiry.
-- Times and lifetimes are in seconds. JSON is a parameter: what is written, and what is read back if
-- the text parses.
pub mod Expiry
use ai_researcher_agent_loca.Prelude.{
  ℕ, ◌+◌, String, Bool, not, ◌&&◌, Option, none, some, List, ltb, ◌==◌, if◌then◌else◌,
}
use ai_researcher_agent_loca.Prelude.Assoc.{get_entry, put_entry, drop_entry}
use ai_researcher_agent_loca.Job.{Time}

pub record CacheRow : Type 0 where
  pub v : String
  pub expires : Time

pub record Json (V : Type 0) : Type 0 where
  pub dumps : V → String
  pub loads : String → Option V

-- `get`: an expired row is passed over, and one that does not parse is deleted.
unfoldable pub get :
    {V : Type 0}
    → Json V
    → (now : Time) (key : String) → List (String × CacheRow)
    → Option V × List (String × CacheRow)
get json now key rows = elim (get_entry key rows) [
  | none ↦ (none, rows)
  | some row ↦
      if not (row.expires == 0) && ltb row.expires now
      then (none, rows)
      else elim (json.loads row.v) [
        | none ↦ (none, drop_entry key rows)
        | some value ↦ (some value, rows)
      ]
]

unfoldable pub put :
    {V : Type 0}
    → Json V
    → (now : Time) (key : String) (value : V) (ttl : Time) → List (String × CacheRow)
    → List (String × CacheRow)
put json now key value ttl rows =
    put_entry key (record { v = json.dumps value; expires = now + ttl }) rows

unfoldable pub delete : (key : String) → List (String × CacheRow) → List (String × CacheRow)
delete key rows = drop_entry key rows
