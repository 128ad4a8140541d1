-- ===== src/Common/Decimal.antt =====
-- Decimal text of `int64_t`: `std::to_string` and `std::from_chars` as src/common/paths.cc uses them,
-- with the whole text to be consumed.
use gfs_impl_cpp.Base.{
  ltb, leb, ◌==◌, if◌then◌else◌, Bool-cases, ℕ, zero, suc, ◌+◌, ◌-◌, ◌*◌, ◌/◌, ◌%◌, ◌^◌, ◌<◌, ◌≡◌,
  refl, ◌∙◌, ◌≢◌, inl, inr, Bool, true, ◌&&◌, ◌||◌, Option, none, some, [], ◌∷◌, arith,
}
use gfs_impl_cpp.Base.Bytes.{Bytes, bytes_key}
use gfs_impl_cpp.Base.Int.{ℤ, pos, negsuc}
use gfs_impl_cpp.Base.Map.{nat_key}

-- The digits of `n` before `acc`; the fuel bounds their number.
unfoldable pub digits_of : ℕ → ℕ → Bytes → Bytes
digits_of zero n acc = acc
digits_of (suc fuel) n acc =
    let rest = digits_of fuel (n / 10) ((48 + n % 10) ∷ acc) in
    if ltb n 10 then (48 + n) ∷ acc else rest

unfoldable pub print_nat : ℕ → Bytes
unfolding digits_of
print_nat n = digits_of (n + 1) n []

unfoldable pub to_string : ℤ → Bytes
unfolding print_nat
to_string (pos n) = print_nat n
to_string (negsuc n) = b'-' ∷ print_nat (n + 1)

abbrev pub is_digit : ℕ → Bool
is_digit c = leb 48 c && leb c 57

unfoldable pub parse_from : ℕ → Bytes → Option ℕ
parse_from acc [] = some acc
parse_from acc (c ∷ cs) =
    let rest = parse_from (acc * 10 + (c - 48)) cs in if is_digit c then rest else none

-- At least one digit.
unfoldable pub parse_nat : Bytes → Option ℕ
unfolding parse_from
parse_nat [] = none
parse_nat (c ∷ cs) = parse_from 0 (c ∷ cs)

abbrev pub int64_limit : ℕ
int64_limit = 2 ^ 63

unfoldable pub negated : Option ℕ → Option ℤ
negated none = none
negated (some zero) = some (pos 0)
negated (some (suc n)) = if ltb n int64_limit then some (negsuc n) else none

unfoldable pub unsigned : Option ℕ → Option ℤ
unsigned none = none
unsigned (some n) = if ltb n int64_limit then some (pos n) else none

-- `none` where the text is no number, has more behind it, or is out of range.
unfoldable pub from_chars : Bytes → Option ℤ
unfolding parse_nat negated unsigned
from_chars [] = none
from_chars (c ∷ cs) = if c == b'-' then negated (parse_nat cs) else unsigned (parse_nat (c ∷ cs))

abbrev pub IsInt64 : ℤ → Type 0
IsInt64 (pos n) = n < int64_limit
IsInt64 (negsuc n) = n < int64_limit

abbrev pub all_digits : Bytes → Bool
all_digits [] = true
all_digits (c ∷ cs) = is_digit c && all_digits cs

digits_of-all_digits :
    (fuel n : ℕ) (acc : Bytes) → all_digits acc ≡ true → all_digits (digits_of fuel n acc) ≡ true
unfolding digits_of
digits_of-all_digits zero n acc h = h
digits_of-all_digits (suc fuel) n acc h = elim (Bool-cases (ltb n 10)) [
  | inl e ↦ rw e (ground arith)
  | inr e ↦ rw e (digits_of-all_digits fuel (n / 10) ((48 + n % 10) ∷ acc) (ground arith))
]

parse_from-digits_of :
    (fuel n : ℕ) (acc : Bytes) → n < fuel → parse_from 0 (digits_of fuel n acc) ≡ parse_from n acc
unfolding digits_of
parse_from-digits_of zero n acc h = absurd (omega arith)
parse_from-digits_of (suc fuel) n acc h = elim (Bool-cases (ltb n 10)) [
  | inl e ↦ rw e (unfold parse_from in ground arith)
  | inr e ↦ rw e (
      parse_from-digits_of fuel (n / 10) ((48 + n % 10) ∷ acc) (ground arith)
      ∙ (unfold parse_from in ground arith))
]

digits_of-ne-nil : (fuel n c : ℕ) (cs : Bytes) → digits_of fuel n (c ∷ cs) ≢ []
unfolding digits_of
digits_of-ne-nil zero n c cs e = cc
digits_of-ne-nil (suc fuel) n c cs e =
    ground (arith, digits_of-ne-nil fuel (n / 10) (48 + n % 10) (c ∷ cs))

digits_of-suc-ne-nil : (fuel n : ℕ) → digits_of (suc fuel) n [] ≢ []
unfolding digits_of
digits_of-suc-ne-nil fuel n e = ground (arith, digits_of-ne-nil fuel (n / 10) (48 + n % 10) [])

print_nat-ne-nil : (n : ℕ) → digits_of (n + 1) n [] ≢ []
print_nat-ne-nil n = let step : n + 1 ≡ suc n = omega arith in rw step (digits_of-suc-ne-nil n n)

print_nat-cases :
    (n : ℕ) → (c : ℕ) × (cs : Bytes) × (print_nat n ≡ c ∷ cs) × (all_digits (c ∷ cs) ≡ true)
unfolding print_nat
print_nat-cases n = go (digits_of (n + 1) n []) refl
  where
    go :
        (l : Bytes)
        → digits_of (n + 1) n [] ≡ l
        → (c : ℕ) × (cs : Bytes) × (digits_of (n + 1) n [] ≡ c ∷ cs) × (all_digits (c ∷ cs) ≡ true)
    go [] e = absurd (print_nat-ne-nil n e)
    go (c ∷ cs) e = (c, cs, e, rw e at (digits_of-all_digits (n + 1) n [] refl))

parse_nat-parse_from : (l : Bytes) → l ≢ [] → parse_nat l ≡ parse_from 0 l
unfolding parse_nat
parse_nat-parse_from [] h = absurd (h refl)
parse_nat-parse_from (c ∷ cs) h = refl

parse_nat-print_nat : (n : ℕ) → parse_nat (print_nat n) ≡ some n
unfolding print_nat
parse_nat-print_nat n =
    parse_nat-parse_from _ (print_nat-ne-nil n)
    ∙ (parse_from-digits_of (n + 1) n [] (omega arith) ∙ (unfold parse_from in refl))

-- Reading back what `to_string` printed gives the number, over the whole range of `int64_t`.
pub from_chars-to_string : (z : ℤ) → IsInt64 z → from_chars (to_string z) ≡ some z
unfolding from_chars to_string
from_chars-to_string (pos n) h =
    let (c, cs, e, d) = print_nat-cases n in rw e (ground (arith, parse_nat-print_nat n))
from_chars-to_string (negsuc n) h = ground (arith, parse_nat-print_nat (n + 1))

-- A printed number starts with a digit or a minus sign, and goes on with digits.
pub to_string-cases :
    (z : ℤ)
    → (c : ℕ) × (cs : Bytes) × (to_string z ≡ c ∷ cs)
      × ((is_digit c || c == b'-') ≡ true)
      × (all_digits cs ≡ true)
unfolding to_string
to_string-cases (pos n) =
    let (c, cs, e, d) = print_nat-cases n in (c, cs, e, ground arith, ground arith)
to_string-cases (negsuc n) =
    let (c, cs, e, d) = print_nat-cases (n + 1) in (b'-', print_nat (n + 1), refl, refl, rw e d)
