-- ===== src/Watchers/Ticks.antt =====
-- What a tick leaves in the table of watchers, and which providers it asks.
use ai_researcher_agent_loca.Prelude.{
  ℕ, ap, length, ◌==◌, suc, ◌+◌, String, Bool, true, false, not, Option, none, some, List, [], ◌∷◌,
  ◌++◌, ◌≡◌, refl, arith, str_eq, eq_refl, ◌∙◌, if◌then◌else◌, map_option,
}
use ai_researcher_agent_loca.Prelude.Table.{find_row, find_row-upsert_row}
use ai_researcher_agent_loca.Job.{Time}
use ai_researcher_agent_loca.Watchers.{
  Watcher, WatcherRow, next_run, save_watcher, get_watcher, Hit, SourceVersion, Answer, search,
  diff, ticked, has_none, tick, wanted_academic, wants_web,
}

row_of : Watcher → WatcherRow
row_of w = record {
  id = w.id;
  project_id = w.project_id;
  enabled = w.enabled;
  next_run_at = next_run w;
  watcher = w;
  created_at = w.created_at;
}

saved_watcher :
    (w : Watcher) (hit : Bool) (found : Option WatcherRow)
    → map_option
        (λ r. r.watcher)
        (if hit
          then elim found [
            | none ↦ some (row_of w)
            | some r ↦
                some (record r { enabled = w.enabled; next_run_at = next_run w; watcher = w })
          ]
          else found)
      ≡ (if hit then some w else map_option (λ r. r.watcher) found)
unfolding row_of
saved_watcher w true none = refl
saved_watcher w true (some r) = refl
saved_watcher w false found = refl

-- A saved watcher is read back, whether its id was in the table or not, and the others are read as
-- before.
pub get_watcher-save_watcher :
    (w : Watcher) (id : String) (rows : List WatcherRow)
    → get_watcher id (save_watcher w rows)
      ≡ (if str_eq w.id id then some w else get_watcher id rows)
unfolding get_watcher save_watcher row_of
get_watcher-save_watcher w id rows =
    let merge : WatcherRow → WatcherRow =
      λ (r : WatcherRow). record r { enabled = w.enabled; next_run_at = next_run w; watcher = w } in
    ap (map_option (λ r. r.watcher))
      (find_row-upsert_row (λ r. r.id) merge (row_of w) id rows (λ r. refl))
    ∙ saved_watcher w (str_eq w.id id) (find_row (λ r. r.id) id rows)

ticked-id : (now : Time) (b : Bool) (w : Watcher) → (ticked now b w).id ≡ w.id
unfolding ticked
ticked-id now true w = refl
ticked-id now false w = refl

get_watcher-ticked :
    (now : Time) (b : Bool) (w : Watcher) (rows : List WatcherRow)
    → get_watcher w.id (save_watcher (ticked now b w) rows) ≡ some (ticked now b w)
get_watcher-ticked now b w rows =
    let same : str_eq (ticked now b w).id w.id ≡ true = rw (ticked-id now b w, eq_refl w.id) refl in
    get_watcher-save_watcher (ticked now b w) w.id rows ∙ rw same refl

ticked-streak :
    (now : Time) (xs ys : List Hit) (w : Watcher)
    → (ticked now (not (has_none (xs ++ ys))) w).consecutive_empty_runs
      ≡ (if (length xs + length ys) == 0 then suc w.consecutive_empty_runs else 0)
unfolding ticked
ticked-streak now [] [] w = refl
ticked-streak now [] (y ∷ ys) w = ground arith
ticked-streak now (x ∷ xs) ys w = ground arith

module _ (sha256 : String → String) (provider : String → Answer) (academic_providers : List String)
    (observed : List Hit → List (Time × Hit)) (extract : List Hit → ℕ) (now : Time) where
  -- After a tick the table holds the watcher with the streak of the summary: one more empty run if
  -- nothing is new or changed, and none otherwise.
  pub tick-streak :
      (w : Watcher) (rows : List WatcherRow) (versions : List SourceVersion)
      → (let result =
            tick sha256 provider academic_providers observed extract now w rows versions in
          (w' : Watcher) × ((get_watcher w.id result.rows ≡ some w')
            × ((w'.consecutive_empty_runs ≡ result.summary.empty_streak)
                × (w'.consecutive_empty_runs ≡ (
                    if ((result.summary.new + result.summary.changed) == 0)
                    then suc w.consecutive_empty_runs
                    else 0)))))
  unfolding tick
  tick-streak w rows versions =
      let found = search provider academic_providers w.source_scope in
      let d = (diff sha256 w.project_id (observed found.hits) versions).0 in
      let interesting = not (has_none (d.new ++ d.changed)) in
      (
        ticked now interesting w,
        (get_watcher-ticked now interesting w rows, (refl, ticked-streak now d.new d.changed w)),
      )

-- A watcher whose scope is only the web asks the configured academic providers as well: its search
-- is that of a watcher without a scope.
pub search-web_only :
    (provider : String → Answer) (academic_providers : List String)
    → search provider academic_providers ("web" ∷ []) ≡ search provider academic_providers []
unfolding search wanted_academic wants_web
search-web_only provider academic_providers = refl
