-- ===== src/Watchers.antt =====
-- src/research_engine/platform/watchers.py, and the tables of watchers and events of
-- storage/platform_db.py. What the providers of the registry answer, the hash of a text and the
-- number of extracted items of evidence are parameters; affected claims are left out of the events.
pub mod Changes
pub mod Ticks
use ai_researcher_agent_loca.Prelude.{
  ℕ, zero, suc, ◌+◌, String, Bool, true, false, not, ◌&&◌, ◌||◌, Option, none, some, List, [], ◌∷◌,
  ◌++◌, length, map, select, any_of, str_eq, leb, ltb, is_none, or_else, map_option, if◌then◌else◌,
}
use ai_researcher_agent_loca.Prelude.Latest.{latest}
use ai_researcher_agent_loca.Prelude.Table.{find_row, upsert_row}
use ai_researcher_agent_loca.Job.{Time}

pub record Watcher : Type 0 where
  pub id : String
  pub project_id : String
  pub query : String
  pub source_scope : List String
  pub frequency : Time
  pub action : String
  pub enabled : Bool
  pub last_run_at : Option Time
  pub last_change_at : Option Time
  pub consecutive_empty_runs : ℕ
  pub created_at : Time

-- A row of the table `watchers`; `watcher` is the column `data`.
pub record WatcherRow : Type 0 where
  pub id : String
  pub project_id : String
  pub enabled : Bool
  pub next_run_at : Time
  pub watcher : Watcher
  pub created_at : Time

unfoldable pub next_run : Watcher → Time
next_run w = elim w.last_run_at [ none ↦ w.created_at + 1 | some t ↦ t + w.frequency ]

unfoldable pub save_watcher : Watcher → List WatcherRow → List WatcherRow
save_watcher w rows =
    upsert_row (λ r. r.id)
      (λ r. record r { enabled = w.enabled; next_run_at = next_run w; watcher = w })
      (record {
        id = w.id;
        project_id = w.project_id;
        enabled = w.enabled;
        next_run_at = next_run w;
        watcher = w;
        created_at = w.created_at;
      })
      rows

unfoldable pub get_watcher : (watcher_id : String) → List WatcherRow → Option Watcher
get_watcher watcher_id rows = map_option (λ r. r.watcher) (find_row (λ r. r.id) watcher_id rows)

unfoldable pub list_watchers : (project_id : String) → List WatcherRow → List Watcher
list_watchers project_id rows =
    map (λ r. r.watcher) (select (λ r. str_eq project_id "" || str_eq r.project_id project_id) rows)

-- A search result as the runner keeps it; the source's `body` is never set by the runner's search.
pub record Hit : Type 0 where
  pub url : String
  pub title : String
  pub snippet : String

-- A row of `source_versions`, with `new_hash or content_hash`.
pub record SourceVersion : Type 0 where
  pub project_id : String
  pub url : String
  pub observed_at : Time
  pub hash : String

abbrev pub is_version : (project_id url : String) → SourceVersion → Bool
is_version project_id url v = str_eq v.project_id project_id && str_eq v.url url

-- `_known_hash`
unfoldable pub known_hash : (project_id url : String) → List SourceVersion → Option String
known_hash project_id url versions =
    map_option (λ v. v.hash)
      (latest (λ v. v.observed_at) (select (is_version project_id url) versions))

-- `_remember`
unfoldable pub remember :
    Time → (project_id url digest : String) → List SourceVersion → List SourceVersion
remember now project_id url digest versions =
    versions
    ++ (record { project_id = project_id; url = url; observed_at = now; hash = digest } ∷ [])

pub record Diff : Type 0 where
  pub new : List Hit
  pub changed : List Hit
  pub unchanged : List Hit

-- Where a hit goes, by the hash known before.
unfoldable pub sort_hit : (known : Option String) → (digest : String) → Hit → Diff → Diff
sort_hit none digest h d = record d { new = h ∷ d.new }
sort_hit (some prev) digest h d =
    if str_eq prev digest
    then record d { unchanged = h ∷ d.unchanged }
    else record d { changed = h ∷ d.changed }

-- `diff`: the hits are taken in order, each at its own time.
unfoldable pub diff :
    (sha256 : String → String)
    → (project_id : String) → List (Time × Hit)
    → List SourceVersion
    → Diff × List SourceVersion
diff sha256 project_id [] versions = (record { new = []; changed = []; unchanged = [] }, versions)
diff sha256 project_id ((now, h) ∷ hits) versions =
    let digest = sha256 h.snippet in
    let known = known_hash project_id h.url versions in
    let (rest, after) =
      diff sha256 project_id hits (remember now project_id h.url digest versions) in
    (sort_hit known digest h rest, after)

-- What a provider of the registry comes to.
pub data Answer : Type 0 where
  not_configured failing : Answer
  answers : List Hit → Answer

-- `_search`, before the doubles are left out: the hits, and the names that failed or are not
-- configured.
pub record Found : Type 0 where
  pub hits : List Hit
  pub failures : List String
  pub unconfigured : List String

unfoldable pub ask : (provider : String → Answer) → (name : String) → Found → Found
ask provider name f = elim (provider name) [
  | not_configured ↦ record f { unconfigured = f.unconfigured ++ (name ∷ []) }
  | failing ↦ record f { failures = f.failures ++ (name ∷ []) }
  | answers hits ↦ record f { hits = f.hits ++ hits }
]

unfoldable pub ask_all : (provider : String → Answer) → List String → Found → Found
ask_all provider [] f = f
ask_all provider (name ∷ names) f = ask_all provider names (ask provider name f)

abbrev pub first_three : List String → List String
first_three (a ∷ b ∷ c ∷ rest) = a ∷ b ∷ c ∷ []
first_three names = names

-- `[s for s in scope if s != "web"] or academic_providers`
unfoldable pub wanted_academic : (scope academic_providers : List String) → List String
wanted_academic scope academic_providers = elim (select (λ s. not (str_eq s "web")) scope) [
  | [] ↦ academic_providers
  | s ∷ names ↦ s ∷ names
]

unfoldable pub wants_web : (scope : List String) → Bool
wants_web [] = true
wants_web (s ∷ scope) = any_of (str_eq "web") (s ∷ scope)

unfoldable pub uniq : (seen : List String) → List Hit → List Hit
uniq seen [] = []
uniq seen (h ∷ hits) =
    let fresh = h ∷ uniq (h.url ∷ seen) hits in
    let rest = uniq seen hits in if any_of (str_eq h.url) seen then rest else fresh

unfoldable pub search :
    (provider : String → Answer) → (academic_providers scope : List String) → Found
search provider academic_providers scope =
    let nothing : Found = record { hits = []; failures = []; unconfigured = [] } in
    let web = if wants_web scope then ask provider "web" nothing else nothing in
    let all = ask_all provider (first_three (wanted_academic scope academic_providers)) web in
    record all { hits = uniq [] all.hits }

-- An event that a tick publishes.
pub data WatchEvent : Type 0 where
  new_source source_updated : (url : String) → WatchEvent
  watcher_triggered : (watcher_id : String) → WatchEvent

pub record Summary : Type 0 where
  pub is_degraded : Bool
  pub new : ℕ
  pub changed : ℕ
  pub unchanged : ℕ
  pub extracted : ℕ
  pub empty_streak : ℕ

-- The watcher after a tick.
unfoldable pub ticked : Time → (is_interesting : Bool) → Watcher → Watcher
ticked now true w = record w {
  last_run_at = some now;
  last_change_at = some now;
  consecutive_empty_runs = 0;
}
ticked now false w = record w {
  last_run_at = some now;
  consecutive_empty_runs = suc w.consecutive_empty_runs;
}

abbrev pub has_none : {A : Type 0} → List A → Bool
has_none [] = true
has_none (x ∷ xs) = false

pub record TickResult : Type 0 where
  pub summary : Summary
  pub events : List WatchEvent
  pub rows : List WatcherRow
  pub versions : List SourceVersion

-- `tick`, if it is not cancelled. `observed` gives each hit its time, and `extract` the number of
-- items of evidence taken from the new and the changed sources.
unfoldable pub tick :
    (sha256 : String → String) (provider : String → Answer) (academic_providers : List String)
    (observed : List Hit → List (Time × Hit)) (extract : List Hit → ℕ) (now : Time)
    → Watcher
    → List WatcherRow
    → List SourceVersion
    → TickResult
tick sha256 provider academic_providers observed extract now w rows versions =
    let found = search provider academic_providers w.source_scope in
    let (d, after) = diff sha256 w.project_id (observed found.hits) versions in
    let interesting = d.new ++ d.changed in
    let extracted =
      if not (has_none interesting) && str_eq w.action "incremental_update"
      then extract interesting
      else 0 in
    let w' = ticked now (not (has_none interesting)) w in
    let news = map (λ h. new_source h.url) d.new ++ map (λ h. source_updated h.url) d.changed in
    record {
      summary = record {
        is_degraded = not (has_none found.failures);
        new = length d.new;
        changed = length d.changed;
        unchanged = length d.unchanged;
        extracted = extracted;
        empty_streak = w'.consecutive_empty_runs;
      };
      events =
          if not (has_none interesting) || ltb 0 extracted
          then news ++ (watcher_triggered w.id ∷ [])
          else news;
      rows = save_watcher w' rows;
      versions = after;
    }

-- The first check of `tick`.
unfoldable pub guarded_tick : (control : Option String) → TickResult → Option TickResult
guarded_tick none result = some result
guarded_tick (some signal) result = if str_eq signal "CANCEL" then none else some result
