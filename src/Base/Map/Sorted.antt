-- ===== src/Base/Map/Sorted.antt =====
-- The order of the keys, kept by each operation.
use mathlib.Core.Path.{◌≡◌, refl, ap₂}
use mathlib.Core.Bool.{true}
use mathlib.Core.List.{[], ◌∷◌}
use mathlib.Core.Option.{none}
use native.Mathlib.Omega.{arith}
use gfs_impl_cpp.Base.Map.Defs.{Key, Map, lookup, insert, erase, lookup-cons}

module _ {ℓ} {K V : Type ℓ} ⦃o : Key K⦄ where
  abbrev pub Above : K → Map K V → Type 0
  Above k [] = Unit
  Above k ((j, w) ∷ m) = (o.lt k j ≡ true) × Above k m

  abbrev pub IsSorted : Map K V → Type 0
  IsSorted [] = Unit
  IsSorted ((j, w) ∷ m) = Above j m × IsSorted m

  pub Above-trans : (k j : K) (m : Map K V) → o.lt k j ≡ true → Above j m → Above k m
  Above-trans k j [] h a = tt
  Above-trans k j ((i, w) ∷ m) h a = (o.lt_trans k j i h a.0, Above-trans k j m h a.1)

  pub lookup-Above : (k : K) (m : Map K V) → Above k m → lookup k m ≡ none
  unfolding lookup
  lookup-Above k [] a = refl
  lookup-Above k ((j, w) ∷ m) a = ground (arith, lookup-Above k m a.1, o.lt_irrefl k)

  insert-Above :
      (j k : K) (v : V) (m : Map K V) → o.lt j k ≡ true → Above j m → Above j (insert k v m)
  unfolding insert
  insert-Above j k v [] h a = (h, tt)
  insert-Above j k v ((i, w) ∷ m) h a = ground (arith, insert-Above j k v m h a.1)

  erase-Above : (j k : K) (m : Map K V) → Above j m → Above j (erase k m)
  unfolding erase
  erase-Above j k [] a = tt
  erase-Above j k ((i, w) ∷ m) a = ground (arith, erase-Above j k m a.1)

  pub insert-IsSorted : (k : K) (v : V) (m : Map K V) → IsSorted m → IsSorted (insert k v m)
  unfolding insert
  insert-IsSorted k v [] s = (tt, tt)
  insert-IsSorted k v ((j, w) ∷ m) s =
      ground
        (arith, insert-IsSorted k v m s.1, insert-Above j k v m, o.lt_total k j, Above-trans k j m)

  pub erase-IsSorted : (k : K) (m : Map K V) → IsSorted m → IsSorted (erase k m)
  unfolding erase
  erase-IsSorted k [] s = tt
  erase-IsSorted k ((j, w) ∷ m) s = ground (arith, erase-IsSorted k m s.1, erase-Above j k m s.0)

  same_key :
      (k j : K) (v w : V) (m n : Map K V)
      → IsSorted ((k, v) ∷ m)
      → IsSorted ((j, w) ∷ n)
      → ((q : K) → lookup q ((k, v) ∷ m) ≡ lookup q ((j, w) ∷ n))
      → k ≡ j
  same_key k j v w m n s t h = elim (o.discrete k j) [
    | yes p ↦ p
    | no p ↦ absurd (
        ground (
          arith,
          h k,
          h j,
          lookup-cons k k v m,
          lookup-cons k j w n,
          lookup-cons j k v m,
          lookup-cons j j w n,
          o.lt_total k j p,
          lookup-Above k n,
          lookup-Above j m,
          Above-trans k j n,
          Above-trans j k m,
        ))
  ]

  -- Two maps in order with the same lookups are the same.
  pub Map-ext :
      (m n : Map K V) → IsSorted m → IsSorted n → ((q : K) → lookup q m ≡ lookup q n) → m ≡ n
  Map-ext [] [] s t h = refl
  Map-ext [] ((j, w) ∷ n) s t h = absurd (unfold lookup in ground (arith, h j))
  Map-ext ((k, v) ∷ m) [] s t h = absurd (unfold lookup in ground (arith, h k))
  Map-ext ((k, v) ∷ m) ((j, w) ∷ n) s t h = ap₂ ◌∷◌ head (
      Map-ext m n s.1 t.1 λ q. ground (
        arith,
        keys,
        h q,
        lookup-cons q k v m,
        lookup-cons q j w n,
        lookup-Above k m s.0,
        lookup-Above j n t.0,
      ))
    where
      keys : k ≡ j
      keys = same_key k j v w m n s t h

      head : ◌≡◌ {A = K × V} (k, v) (j, w)
      head = ground (arith, keys, h k, lookup-cons k k v m, lookup-cons k j w n)
