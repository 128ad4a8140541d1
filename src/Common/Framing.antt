-- ===== src/Common/Framing.antt =====
-- src/common/framing.h, framing.cc and crc32.cc: the frames of the operation log and the checkpoints.
-- zlib's `crc32(seed, buffer, length)` is the parameter `zlib`.
pub mod Replay
pub mod Truncation
use gfs_impl_cpp.Base.{
  ltb, ◌==◌, if◌then◌else◌, length, take, drop, ℕ, zero, suc, ◌+◌, ◌*◌, ◌/◌, ◌%◌, ◌^◌, Bool, true,
  List, [], ◌∷◌, ◌++◌,
}
use gfs_impl_cpp.Base.Bytes.{Bytes, bytes}

abbrev pub u32_mod : ℕ
u32_mod = 2 ^ 32

abbrev pub frame_header_size : ℕ
frame_header_size = 8

-- Byte `i` is `(v >> (8 * i)) & 0xff`.
unfoldable pub put_u32 : ℕ → Bytes
put_u32 v = (v % 256) ∷ (v / 2 ^ 8 % 256) ∷ (v / 2 ^ 16 % 256) ∷ (v / 2 ^ 24 % 256) ∷ []

-- The bytes of the four shifts do not overlap, so `|=` adds. Read only where four bytes are there.
unfoldable pub get_u32 : Bytes → ℕ
get_u32 (a ∷ b ∷ c ∷ d ∷ rest) = a + b * 2 ^ 8 + c * 2 ^ 16 + d * 2 ^ 24
get_u32 _ = 0

pub record DecodedRecords : Type 0 where
  pub payloads : List Bytes
  pub consumed : ℕ
  pub torn_tail : Bool

module _ (zlib : ℕ → Bytes → ℕ → ℕ) where
  unfoldable pub crc32_from : ℕ → Bytes → ℕ
  crc32_from seed bytes = zlib seed bytes (length bytes % u32_mod) % u32_mod

  unfoldable pub crc32 : Bytes → ℕ
  unfolding crc32_from
  crc32 bytes = crc32_from 0 bytes

  unfoldable pub encode_record : Bytes → Bytes
  unfolding put_u32
  encode_record payload = put_u32 (length payload % u32_mod) ++ (put_u32 (crc32 payload) ++ payload)

  -- The loop of `DecodeRecords`: `rest` is what stands from `offset` on, so the sizes that the code
  -- compares are `offset` plus those compared here. Each round takes eight bytes or more off `rest`.
  unfoldable pub decode_from : ℕ → ℕ → Bytes → DecodedRecords
  decode_from zero offset rest = record { payloads = []; consumed = offset; torn_tail = true }
  decode_from (suc fuel) offset rest =
      let len = get_u32 rest in
      let crc = get_u32 (drop 4 rest) in
      let body = drop frame_header_size rest in
      let more = decode_from fuel (offset + frame_header_size + len) (drop len body) in
      if ltb (length rest) frame_header_size
      then record { payloads = []; consumed = offset; torn_tail = ltb 0 (length rest) }
      else if ltb (length rest) (frame_header_size + len)
      then record { payloads = []; consumed = offset; torn_tail = true }
      else if crc32 (take len body) == crc
      then record more { payloads = take len body ∷ more.payloads }
      else record { payloads = []; consumed = offset; torn_tail = true }

  unfoldable pub decode_records : Bytes → DecodedRecords
  decode_records bytes = decode_from (length bytes + 1) 0 bytes
