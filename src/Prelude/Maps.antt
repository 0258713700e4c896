-- ===== src/Prelude/Maps.antt =====
-- A JavaScript `Map` with text keys, as an association list in order of insertion: a new key goes
-- to the end and a key that is set again keeps its place.
use Prim.Native.String.{String}
use mathlib.Core.Path.{◌≡◌, refl}
use mathlib.Core.List.{List, [], ◌∷◌}
use mathlib.Core.Option.{Option, none, some}
use native.Mathlib.Omega.{arith}
use text.Mathlib.Text.{◌==◌}
use text.Mathlib.TextEquality.{eq_iff}
use next_explorer.Prelude.Tests.{if◌then◌else◌}

module _ {ℓ} {V : Type ℓ} where
  abbrev pub map_get : String → List (String × V) → Option V
  map_get k [] = none
  map_get k ((j, v) ∷ m) = if j == k then some v else map_get k m

  abbrev pub map_set : String → V → List (String × V) → List (String × V)
  map_set k v [] = (k, v) ∷ []
  map_set k v ((j, w) ∷ m) = if j == k then (j, v) ∷ m else (j, w) ∷ map_set k v m

  abbrev pub map_delete : String → List (String × V) → List (String × V)
  map_delete k [] = []
  map_delete k ((j, w) ∷ m) = if j == k then map_delete k m else (j, w) ∷ map_delete k m

module _ {ℓ} {V : Type ℓ} where
  pub map_get-set :
      (k j : String) (v : V) (m : List (String × V))
      → map_get j (map_set k v m) ≡ (if k == j then some v else map_get j m)
  map_get-set k j v [] = refl
  map_get-set k j v ((i, w) ∷ m) =
      ground (arith, eq_iff k j, eq_iff i k, eq_iff i j, map_get-set k j v m)

  pub map_get-delete :
      (k j : String) (m : List (String × V))
      → map_get j (map_delete k m) ≡ (if k == j then none else map_get j m)
  map_get-delete k j [] = ground arith
  map_get-delete k j ((i, w) ∷ m) =
      ground (arith, eq_iff k j, eq_iff i k, eq_iff i j, map_get-delete k j m)
