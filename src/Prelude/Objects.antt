-- ===== src/Prelude/Objects.antt =====
-- A JavaScript object (or `Map`) with text keys: `Object.values` and `Object.entries` follow the
-- order of insertion, and a write to a present key leaves its place. Keys that an object inherits, such
-- as "constructor", are not there.
use Prim.Native.String.{String}
use mathlib.Core.Path.{◌≡◌, refl}
use mathlib.Core.Option.{Option, none, some}
use mathlib.Core.List.{List, [], ◌∷◌, map}
use native.Mathlib.Omega.{arith}
use text.Mathlib.Text.{◌==◌}
use text.Mathlib.TextEquality.{eq_iff}
use pinch.Prelude.Tests.{if◌then◌else◌}

abbrev pub Object {ℓ} : Type ℓ → Type ℓ
Object V = List (String × V)

module _ {ℓ} {V : Type ℓ} where
  -- `o[k]`
  unfoldable pub lookup : String → Object V → Option V
  lookup k [] = none
  lookup k ((j, v) ∷ o) = if j == k then some v else lookup k o

  -- `o[k] = v`
  unfoldable pub insert : String → V → Object V → Object V
  insert k v [] = (k, v) ∷ []
  insert k v ((j, w) ∷ o) = let rest = insert k v o in if j == k then (j, v) ∷ o else (j, w) ∷ rest

  -- `Object.values(o)`
  abbrev pub values : Object V → List V
  values = map (λ e. e.1)

  pub lookup-insert :
      (k j : String) (v : V) (o : Object V)
      → lookup j (insert k v o) ≡ (if k == j then some v else lookup j o)
  unfolding lookup insert
  lookup-insert k j v [] = refl
  lookup-insert k j v ((i, w) ∷ o) =
      ground (arith, eq_iff k j, eq_iff i k, eq_iff i j, lookup-insert k j v o)

module _ {ℓ κ} {V : Type ℓ} {W : Type κ} where
  -- A loop over the entries that changes each value in place.
  unfoldable pub map_values : (V → W) → Object V → Object W
  map_values f [] = []
  map_values f ((k, v) ∷ o) = (k, f v) ∷ map_values f o

  abbrev pub map_some : (V → W) → Option V → Option W
  map_some f none = none
  map_some f (some v) = some (f v)

  pub lookup-map_values :
      (f : V → W) (k : String) (o : Object V) → lookup k (map_values f o) ≡ map_some f (lookup k o)
  unfolding lookup map_values
  lookup-map_values f k [] = refl
  lookup-map_values f k ((j, v) ∷ o) = ground (arith, lookup-map_values f k o)
