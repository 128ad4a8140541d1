-- ===== src/Base/Map/Total.antt =====
-- The sum of a weight over the values of a map.
use Prim.Native.Nat.{ℕ, ◌+◌}
use mathlib.Core.Path.{◌≡◌}
use mathlib.Core.List.{[], ◌∷◌}
use mathlib.Core.Option.{Option, none, some}
use native.Mathlib.Omega.{arith}
use gfs_impl_cpp.Base.Map.Defs.{Key, Map, lookup, insert, erase}
use gfs_impl_cpp.Base.Map.Sorted.{IsSorted, Above-trans, lookup-Above}

abbrev pub weigh {ℓ} : {V : Type ℓ} → (V → ℕ) → Option V → ℕ
weigh weight none = 0
weigh weight (some w) = weight w

module _ {ℓ} {K V : Type ℓ} (weight : V → ℕ) where
  unfoldable pub total : Map K V → ℕ
  total [] = 0
  total ((j, w) ∷ m) = weight w + total m

module _ {ℓ} {K V : Type ℓ} ⦃o : Key K⦄ (weight : V → ℕ) where
  pub total-insert :
      (k : K) (v : V) (m : Map K V)
      → IsSorted m
      → total weight (insert k v m) + weigh weight (lookup k m) ≡ total weight m + weight v
  unfolding total lookup insert
  total-insert k v [] s = omega arith
  total-insert k v ((j, w) ∷ m) s =
      ground (arith, total-insert k v m s.1, lookup-Above k m, Above-trans k j m)

  pub total-erase :
      (k : K) (m : Map K V)
      → IsSorted m
      → total weight (erase k m) + weigh weight (lookup k m) ≡ total weight m
  unfolding total lookup erase
  total-erase k [] s = omega arith
  total-erase k ((j, w) ∷ m) s = ground (arith, total-erase k m s.1, lookup-Above k m)
