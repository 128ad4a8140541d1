-- ===== src/Base/Map/Defs.antt =====
-- Keys, the map's operations, and what a lookup sees after each.
use Prim.Native.Nat.{ℕ}
use mathlib.Core.Path.{◌≡◌, refl}
use mathlib.Core.Bool.{Bool, true, false}
use mathlib.Core.Logic.{◌≢◌, ite, if_pos, if_neg}
use mathlib.Core.List.{List, [], ◌∷◌, map}
use mathlib.Core.Option.{Option, none, some}
use native.Mathlib.Omega.{arith}
unfoldable use native.Mathlib.Decide.{ℕ_discrete}
use gfs_impl_cpp.Base.Tests.{ltb, is_some, if◌then◌else◌}

-- A type of keys with decided equality and a strict total order.
pub record Key {ℓ} (K : Type ℓ) : Type ℓ where
  pub discrete : Discrete K
  pub lt : K → K → Bool
  pub lt_irrefl : (a : K) → lt a a ≡ false
  pub lt_trans : (a b c : K) → lt a b ≡ true → lt b c ≡ true → lt a c ≡ true
  pub lt_total : (a b : K) → a ≢ b → lt a b ≡ false → lt b a ≡ true

pub ltb_irrefl : (a : ℕ) → ltb a a ≡ false
ltb_irrefl a = ground arith

pub ltb_trans : (a b c : ℕ) → ltb a b ≡ true → ltb b c ≡ true → ltb a c ≡ true
ltb_trans a b c h k = ground arith

pub ltb_total : (a b : ℕ) → a ≢ b → ltb a b ≡ false → ltb b a ≡ true
ltb_total a b h k = ground arith

instance abbrev pub nat_key : Key ℕ
nat_key = record {
  discrete = ℕ_discrete;
  lt = ltb;
  lt_irrefl = ltb_irrefl;
  lt_trans = ltb_trans;
  lt_total = ltb_total;
}

abbrev pub Map {ℓ} : Type ℓ → Type ℓ → Type ℓ
Map K V = List (K × V)

abbrev pub Set : Type 0 → Type 0
Set K = Map K (Unit {0})

module _ {ℓ} {K V : Type ℓ} where
  abbrev pub keys : Map K V → List K
  keys m = map (λ e. e.0) m

module _ {ℓ} {K V : Type ℓ} ⦃o : Key K⦄ where
  unfoldable pub lookup : K → Map K V → Option V
  lookup k [] = none
  lookup k ((j, w) ∷ m) = ite (o.discrete k j) (some w) (lookup k m)

  -- `m[k] = v`.
  unfoldable pub insert : K → V → Map K V → Map K V
  insert k v [] = (k, v) ∷ []
  insert k v ((j, w) ∷ m) =
      let rest = insert k v m in
      ite (o.discrete k j) ((k, v) ∷ m) (if o.lt k j then (k, v) ∷ (j, w) ∷ m else (j, w) ∷ rest)

  -- `m.erase(k)`.
  unfoldable pub erase : K → Map K V → Map K V
  erase k [] = []
  erase k ((j, w) ∷ m) = let rest = erase k m in ite (o.discrete k j) rest ((j, w) ∷ rest)

  -- `m.count(k) > 0`.
  unfoldable pub contains : K → Map K V → Bool
  contains k m = is_some (lookup k m)

  pub lookup-cons :
      (q k : K) (v : V) (m : Map K V)
      → lookup q ((k, v) ∷ m) ≡ ite (o.discrete q k) (some v) (lookup q m)
  unfolding lookup
  lookup-cons q k v m = refl

  pub lookup-insert :
      (q k : K) (v : V) (m : Map K V)
      → lookup q (insert k v m) ≡ ite (o.discrete q k) (some v) (lookup q m)
  unfolding lookup insert
  lookup-insert q k v [] = refl
  lookup-insert q k v ((j, w) ∷ m) = ground (arith, lookup-insert q k v m)

  pub lookup-erase :
      (q k : K) (m : Map K V) → lookup q (erase k m) ≡ ite (o.discrete q k) none (lookup q m)
  unfolding lookup erase
  lookup-erase q k [] = ground arith
  lookup-erase q k ((j, w) ∷ m) = ground (arith, lookup-erase q k m)

  pub contains-cons :
      (q k : K) (v : V) (m : Map K V)
      → contains q ((k, v) ∷ m) ≡ ite (o.discrete q k) true (contains q m)
  unfolding contains lookup
  contains-cons q k v m = elim (o.discrete q k) [
    | yes p ↦ rw (if_pos {C = Option V} _ p, if_pos {C = Bool} _ p)
    | no p ↦ rw (if_neg {C = Option V} _ p, if_neg {C = Bool} _ p)
  ]

  pub contains-insert :
      (q k : K) (v : V) (m : Map K V)
      → contains q (insert k v m) ≡ ite (o.discrete q k) true (contains q m)
  unfolding contains
  contains-insert q k v m = elim (o.discrete q k) [
    | yes p ↦ rw (lookup-insert q k v m, if_pos {C = Option V} _ p, if_pos {C = Bool} _ p)
    | no p ↦ rw (lookup-insert q k v m, if_neg {C = Option V} _ p, if_neg {C = Bool} _ p)
  ]

  pub contains-erase :
      (q k : K) (m : Map K V) → contains q (erase k m) ≡ ite (o.discrete q k) false (contains q m)
  unfolding contains
  contains-erase q k m = elim (o.discrete q k) [
    | yes p ↦ rw (lookup-erase q k m, if_pos {C = Option V} _ p, if_pos {C = Bool} _ p)
    | no p ↦ rw (lookup-erase q k m, if_neg {C = Option V} _ p, if_neg {C = Bool} _ p)
  ]
