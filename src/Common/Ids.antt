-- ===== src/Common/Ids.antt =====
-- src/common/ids.h and ids.cc: chunk handles as text. `RandomHexId` draws from the random device and
-- is left out.
use gfs_impl_cpp.Base.{
  ltb, leb, ◌==◌, if◌then◌else◌, length, ℕ, zero, suc, ◌+◌, ◌-◌, ◌*◌, ◌/◌, ◌%◌, ◌^◌, ◌<◌, ◌≡◌, refl,
  sym, ap, ◌∙◌, not, ◌&&◌, Option, none, some, [], ◌∷◌, arith,
}
use gfs_impl_cpp.Base.Bytes.{Bytes, bytes_key}
use gfs_impl_cpp.Base.Map.{nat_key}

-- `digits[d]` for `d` below 16.
unfoldable pub hex_digit : ℕ → ℕ
hex_digit d = if ltb d 10 then b'0' + d else b'a' + (d - 10)

-- The loop from position `i - 1` down to 0, with the text behind it.
unfoldable pub hex_from : ℕ → ℕ → Bytes → Bytes
hex_from zero handle rest = rest
hex_from (suc i) handle rest = hex_from i (handle / 16) (hex_digit (handle % 16) ∷ rest)

unfoldable pub handle_to_hex : ℕ → Bytes
handle_to_hex handle = hex_from 16 handle []

-- The digits that `std::from_chars` reads in base 16, of either case.
unfoldable pub hex_value : ℕ → Option ℕ
hex_value c =
    if leb b'0' c && leb c b'9'
    then some (c - b'0')
    else if leb b'a' c && leb c b'f'
    then some (c - b'a' + 10)
    else if leb b'A' c && leb c b'F'
    then some (c - b'A' + 10)
    else none

-- `std::from_chars` that reads to the end: none where it stops before. Sixteen digits do not overflow.
unfoldable pub hex_read : ℕ → Bytes → Option ℕ
hex_read value [] = some value
hex_read value (c ∷ cs) = elim (hex_value c) [ none ↦ none | some d ↦ hex_read (value * 16 + d) cs ]

unfoldable pub hex_to_handle : Bytes → Option ℕ
hex_to_handle text = if not (length text == 16) then none else hex_read 0 text

hex_value-hex_digit : (d : ℕ) → d < 16 → hex_value (hex_digit d) ≡ some d
unfolding hex_value hex_digit
hex_value-hex_digit d h = ground arith

length-hex_from : (i handle : ℕ) (rest : Bytes) → length (hex_from i handle rest) ≡ i + length rest
unfolding hex_from
length-hex_from zero handle rest = omega arith
length-hex_from (suc i) handle rest =
    length-hex_from i (handle / 16) (hex_digit (handle % 16) ∷ rest) ∙ (omega arith)

-- The handle has at most that many digits.
abbrev Fits : ℕ → ℕ → Type 0
Fits zero handle = handle ≡ 0
Fits (suc i) handle = Fits i (handle / 16)

hex_read-digit :
    (value d : ℕ) (rest : Bytes)
    → d < 16
    → hex_read value (hex_digit d ∷ rest) ≡ hex_read (value * 16 + d) rest
unfolding hex_read
hex_read-digit value d rest h = rw (hex_value-hex_digit d h, hex_read) refl

hex_read-hex_from :
    (i handle : ℕ) (rest : Bytes)
    → Fits i handle
    → hex_read 0 (hex_from i handle rest) ≡ hex_read handle rest
unfolding hex_from
hex_read-hex_from zero handle rest f = ap (λ n. hex_read n rest) (sym f)
hex_read-hex_from (suc i) handle rest f =
    let d : handle % 16 < 16 = omega arith in
    let e : handle / 16 * 16 + handle % 16 ≡ handle = omega arith in
    hex_read-hex_from i (handle / 16) (hex_digit (handle % 16) ∷ rest) f
    ∙ (hex_read-digit (handle / 16) (handle % 16) rest d ∙ ap (λ n. hex_read n rest) e)

-- The name of a chunk file has sixteen characters and reads back as the handle, for every handle of a
-- `uint64_t`.
pub hex_to_handle-handle_to_hex :
    (handle : ℕ)
    → handle < 2 ^ 64
    → (length (handle_to_hex handle) ≡ 16) × (hex_to_handle (handle_to_hex handle) ≡ some handle)
unfolding handle_to_hex hex_to_handle
hex_to_handle-handle_to_hex handle h =
    let n = length-hex_from 16 handle [] in
    let f : Fits 16 handle = omega arith in
    (n, rw (n, hex_to_handle) (hex_read-hex_from 16 handle [] f ∙ (unfold hex_read in refl)))
