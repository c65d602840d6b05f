-- ===== src/Prelude/Assoc.antt =====
-- A `dict` with text keys, as an association list.
use ai_researcher_agent_loca.Prelude.Tests.{str_eq, if◌then◌else◌}
use Prim.Native.String.{String}
use mathlib.Core.Path.{◌≡◌, refl}
use mathlib.Core.Option.{Option, none, some}
use mathlib.Core.List.{List, [], ◌∷◌}
use native.Mathlib.Omega.{arith}
use text.Mathlib.TextEquality.{eq_iff}

module _ {V : Type 0} where
  -- d.get(k)
  unfoldable pub get_entry : String → List (String × V) → Option V
  get_entry k [] = none
  get_entry k ((j, v) ∷ entries) = if str_eq j k then some v else get_entry k entries

  -- d[k] = v
  unfoldable pub put_entry : String → V → List (String × V) → List (String × V)
  put_entry k v [] = (k, v) ∷ []
  put_entry k v ((j, w) ∷ entries) =
      if str_eq j k then (j, v) ∷ entries else (j, w) ∷ put_entry k v entries

  -- d.pop(k, None)
  unfoldable pub drop_entry : String → List (String × V) → List (String × V)
  drop_entry k [] = []
  drop_entry k ((j, v) ∷ entries) =
      let rest = drop_entry k entries in if str_eq j k then rest else (j, v) ∷ rest

  pub get_entry-put_entry :
      (k j : String) (v : V) (entries : List (String × V))
      → get_entry j (put_entry k v entries) ≡ (if str_eq k j then some v else get_entry j entries)
  unfolding get_entry put_entry
  get_entry-put_entry k j v [] = refl
  get_entry-put_entry k j v ((i, w) ∷ entries) =
      ground (arith, eq_iff k j, eq_iff i k, eq_iff i j, get_entry-put_entry k j v entries)

  pub get_entry-drop_entry :
      (k j : String) (entries : List (String × V))
      → get_entry j (drop_entry k entries) ≡ (if str_eq k j then none else get_entry j entries)
  unfolding get_entry drop_entry
  get_entry-drop_entry k j [] = ground arith
  get_entry-drop_entry k j ((i, w) ∷ entries) =
      ground (arith, eq_iff k j, eq_iff i k, eq_iff i j, get_entry-drop_entry k j entries)
