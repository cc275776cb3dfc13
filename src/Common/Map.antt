-- ===== src/Common/Map.antt =====
-- Go's `map[string]V` as an association list. A copy of a map (the `for k, v := range` loops of
-- the stores) is the same value here; the order of the list is the order of one iteration.
pub mod Laws
use Prim.Native.Nat.{ℕ}
use mathlib.Core.Bool.{Bool, true, false}
use mathlib.Core.Option.{Option, none, some}
use mathlib.Core.Path.{◌≡◌}
use mathlib.Core.List.{List, [], ◌∷◌}
use joyride.Common.Text.{Bytes, same}
use joyride.Common.Tests.{if◌then◌else◌, is_some}

abbrev pub Map {ℓ} : Type ℓ → Type ℓ
Map V = List (Bytes × V)

module _ {ℓ} {V : Type ℓ} where
  -- `v, ok := m[k]`
  unfoldable pub get : Map V → Bytes → Option V
  get [] k = none
  get ((j, v) ∷ m) k = if same j k then some v else get m k

  -- `m[k] = v`
  unfoldable pub put : Map V → Bytes → V → Map V
  put [] k v = (k, v) ∷ []
  put ((j, w) ∷ m) k v = if same j k then (k, v) ∷ m else (j, w) ∷ put m k v

  -- `delete(m, k)`
  unfoldable pub del : Map V → Bytes → Map V
  del [] k = []
  del ((j, w) ∷ m) k = let rest = del m k in if same j k then rest else (j, w) ∷ rest

  -- `_, ok := m[k]`
  abbrev pub has : Map V → Bytes → Bool
  has m k = is_some (get m k)

  -- Every key stands once, as in a Go map.
  abbrev pub IsUnique : Map V → Type ℓ
  IsUnique [] = Unit
  IsUnique ((k, v) ∷ m) = (get m k ≡ none) × IsUnique m
