-- ===== src/Chunkserver/ChunkStore/Files.antt =====
-- src/chunkserver/chunk_store.cc: the numbers and the calls on files that it is written with. A file is
-- its bytes; `pread`, `pwrite` and `ftruncate` do to them what POSIX says, and what fails is an argument.
use gfs_impl_cpp.Base.{
  leb, ◌==◌, if◌then◌else◌, length, take, drop, ℕ, zero, suc, ◌+◌, ◌-◌, ◌*◌, ◌/◌, ◌%◌, ◌^◌, Bool,
  true, false, ◌&&◌, Option, none, some, List, [], ◌∷◌, ◌++◌,
}
use gfs_impl_cpp.Base.Bytes.{Bytes, bytes_key}
use gfs_impl_cpp.Base.Map.{nat_key}
use gfs_impl_cpp.Common.Framing.{put_u32, get_u32}

abbrev pub zeros : ℕ → Bytes
zeros zero = []
zeros (suc n) = 0 ∷ zeros n

abbrev pub is_nil : Bytes → Bool
is_nil [] = true
is_nil (c ∷ rest) = false

-- The largest offset of `off_t` plus one: a larger one is negative and refused.
abbrev pub off_limit : ℕ
off_limit = 2 ^ 63

-- `pwrite` of all bytes: what lies between the end of the file and the offset becomes zeros.
unfoldable pub write_at : Bytes → ℕ → Bytes → Bytes
write_at payload offset file =
    if is_nil payload
    then file
    else take offset (file ++ zeros (offset - length file))
      ++ (payload ++ drop (offset + length payload) file)

-- `PwriteAll`: `stop` is the number of bytes written where the calls then fail.
unfoldable pub pwrite_all : Option ℕ → Bytes → ℕ → Bytes → Bytes × Bool
pwrite_all stop payload offset file =
    if leb off_limit offset then (file, is_nil payload) else elim stop [
      | none ↦ (write_at payload offset file, true)
      | some n ↦ (write_at (take n payload) offset file, false)
    ]

-- `PreadAll`: none where the file ends first or, with `works` false, where a call fails.
unfoldable pub pread_all : Bool → ℕ → ℕ → Bytes → Option Bytes
pread_all works len offset file =
    if len == 0
    then some []
    else if works && leb (offset + len) (length file)
    then some (take len (drop offset file))
    else none

-- `ftruncate`.
unfoldable pub truncate : ℕ → Bytes → Bytes
truncate size file = take size (file ++ zeros (size - length file))

-- `EncodeU64` and `DecodeU64`: two halves as the 32-bit functions write and read them.
unfoldable pub encode_u64 : ℕ → Bytes
encode_u64 v = put_u32 (v % 2 ^ 32) ++ put_u32 (v / 2 ^ 32 % 2 ^ 32)

unfoldable pub decode_u64 : Bytes → ℕ
decode_u64 p = get_u32 p + get_u32 (drop 4 p) * 2 ^ 32

-- The loops over the checksums with `EncodeU32` and `DecodeU32`.
unfoldable pub encode_sums : List ℕ → Bytes
encode_sums [] = []
encode_sums (sum ∷ sums) = put_u32 sum ++ encode_sums sums

unfoldable pub decode_sums : ℕ → Bytes → List ℕ
decode_sums zero raw = []
decode_sums (suc n) raw = get_u32 raw ∷ decode_sums n (drop 4 raw)
