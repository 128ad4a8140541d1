-- ===== src/Base/Bytes.antt =====
-- Byte strings, `std::string` and `std::string_view`: lists of numbers below 256, with equality and
-- the lexicographic order of `std::string::compare`.
use Prim.Native.Char.{code}
use Prim.Native.String.{String}
use Prim.Native.Nat.{ℕ}
use mathlib.Core.Path.{◌≡◌, refl}
use mathlib.Core.Bool.{Bool, true, false}
use mathlib.Core.Logic.{◌≢◌, ite}
use mathlib.Core.List.{List, [], ◌∷◌}
use native.Mathlib.Omega.{arith}
unfoldable use native.Mathlib.Decide.{ℕ_discrete}
use gfs_impl_cpp.Base.Tests.{ltb}
use gfs_impl_cpp.Base.Map.{Key}

abbrev pub Bytes : Type 0
Bytes = List ℕ

-- A literal's bytes.
abbrev pub bytes : String → Bytes
bytes String.[] = []
bytes (String.◌∷◌ c s) = code c ∷ bytes s

unfoldable pub List-discrete : Discrete (List ℕ)
List-discrete = hlevel ℕ_discrete

unfoldable pub bytes_discrete : Discrete Bytes
unfolding List-discrete ℕ_discrete
bytes_discrete = List-discrete

-- Characters compare as unsigned bytes, and a proper prefix comes first.
unfoldable pub bytes_lt : Bytes → Bytes → Bool
bytes_lt xs [] = false
bytes_lt [] (y ∷ ys) = true
bytes_lt (x ∷ xs) (y ∷ ys) = ite (ℕ_discrete x y) (bytes_lt xs ys) (ltb x y)

pub bytes_lt_irrefl : (a : Bytes) → bytes_lt a a ≡ false
unfolding bytes_lt
bytes_lt_irrefl [] = refl
bytes_lt_irrefl (x ∷ xs) = ground (arith, bytes_lt_irrefl xs)

pub bytes_lt_trans :
    (a b c : Bytes) → bytes_lt a b ≡ true → bytes_lt b c ≡ true → bytes_lt a c ≡ true
unfolding bytes_lt
bytes_lt_trans a b [] h k = k
bytes_lt_trans [] b (z ∷ zs) h k = refl
bytes_lt_trans (x ∷ xs) [] (z ∷ zs) h k = ground arith
bytes_lt_trans (x ∷ xs) (y ∷ ys) (z ∷ zs) h k = ground (arith, bytes_lt_trans xs ys zs)

pub bytes_lt_total : (a b : Bytes) → a ≢ b → bytes_lt a b ≡ false → bytes_lt b a ≡ true
unfolding bytes_lt
bytes_lt_total [] [] h k = absurd (h refl)
bytes_lt_total (x ∷ xs) [] h k = refl
bytes_lt_total [] (y ∷ ys) h k = ground arith
bytes_lt_total (x ∷ xs) (y ∷ ys) h k = ground (arith, bytes_lt_total xs ys)

instance abbrev pub bytes_key : Key Bytes
bytes_key = record {
  discrete = bytes_discrete;
  lt = bytes_lt;
  lt_irrefl = bytes_lt_irrefl;
  lt_trans = bytes_lt_trans;
  lt_total = bytes_lt_total;
}
