-- ===== src/Common/Map/Laws.antt =====
-- The laws by which clients reason on maps.
use Prim.Native.Nat.{suc}
use mathlib.Core.Bool.{true}
use mathlib.Core.Logic.{inl, inr}
use mathlib.Core.Option.{none, some}
use mathlib.Core.Path.{◌≡◌, refl}
use mathlib.Core.List.{[], ◌∷◌}
use native.Mathlib.Omega.{arith}
use joyride.Common.Text.{Bytes, same, same_iff, same_refl}
use joyride.Common.Lists.{length}
use joyride.Common.Tests.{if◌then◌else◌, Bool-cases}
use joyride.Common.Map.{Map, get, put, del, has, IsUnique}

module _ {ℓ} {V : Type ℓ} where
  pub get-put :
      (m : Map V) (k j : Bytes) (v : V) → get (put m k v) j ≡ (if same k j then some v else get m j)
  unfolding get put
  get-put [] k j v = refl
  get-put ((i, w) ∷ m) k j v =
      ground (arith, same_iff i k, same_iff i j, same_iff k j, get-put m k j v)

  pub get-del : (m : Map V) (k j : Bytes) → get (del m k) j ≡ (if same k j then none else get m j)
  unfolding get del
  get-del [] k j = ground arith
  get-del ((i, w) ∷ m) k j = ground (arith, same_iff i k, same_iff i j, same_iff k j, get-del m k j)

  pub get-put_self : (m : Map V) (k : Bytes) (v : V) → get (put m k v) k ≡ some v
  get-put_self m k v = simp (get-put, same_refl)

  pub get-del_self : (m : Map V) (k : Bytes) → get (del m k) k ≡ none
  get-del_self m k = simp (get-del, same_refl)

  pub IsUnique-put : (m : Map V) (k : Bytes) (v : V) → IsUnique m → IsUnique (put m k v)
  unfolding put get
  IsUnique-put [] k v u = (refl, tt)
  IsUnique-put ((j, w) ∷ m) k v (fresh, u) = elim (Bool-cases (same j k)) [
    | inl e ↦ rw e (rw ((same_iff j k).0 e) at fresh, u)
    | inr e ↦
        rw e (ground (arith, get-put m k j v, same_iff j k, same_iff k j), IsUnique-put m k v u)
  ]

  pub IsUnique-del : (m : Map V) (k : Bytes) → IsUnique m → IsUnique (del m k)
  unfolding del
  IsUnique-del [] k u = tt
  IsUnique-del ((j, w) ∷ m) k (fresh, u) = elim (Bool-cases (same j k)) [
    | inl e ↦ rw e (IsUnique-del m k u)
    | inr e ↦ rw e (ground (arith, get-del m k j), IsUnique-del m k u)
  ]

  -- `len` after `m[k] = v`.
  pub length-put :
      (m : Map V) (k : Bytes) (v : V)
      → length (put m k v) ≡ (if has m k then length m else suc (length m))
  unfolding get put
  length-put [] k v = refl
  length-put ((j, w) ∷ m) k v = ground (arith, length-put m k v)

  del_absent : (m : Map V) (k : Bytes) → get m k ≡ none → del m k ≡ m
  unfolding get del
  del_absent [] k h = refl
  del_absent ((j, w) ∷ m) k h = ground (arith, del_absent m k)

  -- `len` after `delete(m, k)` of a key that is there.
  pub length-del :
      (m : Map V) (k : Bytes) → IsUnique m → has m k ≡ true → suc (length (del m k)) ≡ length m
  unfolding get del
  length-del [] k u h = ground arith
  length-del ((j, w) ∷ m) k (fresh, u) h =
      ground (arith, length-del m k u, del_absent m k, same_iff j k)

pub ruleset map_laws = (get-put, get-del)
