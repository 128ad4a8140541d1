-- ===== src/Chunkserver/ChunkStore/ReadBack.antt =====
-- What reads of src/chunkserver/chunk_store.cc see after a write, and after a block was spoilt.
use gfs_impl_cpp.Chunkserver.ChunkStore.Contents.{contents, IsSound, read-contents, write-contents}
use gfs_impl_cpp.Base.{
  leb, length, take, drop, length-append, length-take, take-append_self, drop-append_self, ℕ, ◌+◌,
  ◌-◌, ◌*◌, ◌/◌, ◌≤◌, ◌<◌, min, ◌≡◌, refl, sym, ap, ◌∙◌, ◌≢◌, true, false, some, [], ◌++◌, arith,
}
use gfs_impl_cpp.Base.Bytes.{Bytes, bytes_key}
use gfs_impl_cpp.Base.Map.{nat_key, lookup}
use gfs_impl_cpp.Common.ResultCode.{ok, checksum_mismatch}
use gfs_impl_cpp.Chunkserver.ChunkStore.{ChunkStore, mark_corrupt, read, write}
use gfs_impl_cpp.Chunkserver.ChunkStore.Files.{zeros, is_nil, write_at}
use gfs_impl_cpp.Chunkserver.ChunkStore.Entries.{faultless, ChunkEntry, u64_mod}
use gfs_impl_cpp.Chunkserver.ChunkStore.Blocks.{IsChecked, sum_at, lt-blocks_of}
use gfs_impl_cpp.Chunkserver.ChunkStore.Checked.{length-write_at, length-zeros}
use gfs_impl_cpp.Chunkserver.ChunkStore.Writes.{IsShort}
use gfs_impl_cpp.Chunkserver.ChunkStore.Reads.{read_entry-detects}
use native.Mathlib.Nat.{div-mul-le_self, mul-le-mul_right}

written-write_at :
    (payload : Bytes) (offset : ℕ) (file : Bytes)
    → is_nil payload ≡ false
    → take (length payload) (drop offset (write_at payload offset file)) ≡ payload
unfolding write_at
written-write_at payload offset file e =
    let padded = file ++ zeros (offset - length file) in
    let rest = drop (offset + length payload) file in
    let reaches : length (take offset padded) ≡ offset = omega (
      arith,
      length-take offset padded,
      length-append file (zeros (offset - length file)),
      length-zeros (offset - length file),
    ) in
    let behind : drop offset (take offset padded ++ (payload ++ rest)) ≡ payload ++ rest =
      ap (λ (n : ℕ). drop n (take offset padded ++ (payload ++ rest))) (sym reaches)
      ∙ drop-append_self (take offset padded) (payload ++ rest) in
    rw e (ap (take (length payload)) behind ∙ take-append_self payload rest)

-- What was written is read back: a read of as many bytes at the offset of a write that stayed within
-- the chunk size gives the payload, which must not be empty.
pub read-write :
    (zlib : ℕ → Bytes → ℕ → ℕ) (s : ChunkStore) (handle offset : ℕ) (payload file : Bytes)
    → IsSound zlib s
    → contents s handle ≡ some file
    → is_nil payload ≡ false
    → offset + length payload ≤ s.chunk_size
    → let (s', code) = write zlib faultless s handle offset payload in
      (code ≡ ok)
      × (read zlib faultless s' handle offset (length payload) ≡ (s', some (ok, payload)))
read-write zlib s handle offset payload file v c given h =
    let written = write-contents zlib s v handle offset payload file c h in
    let now : contents (write zlib faultless s handle offset payload).0 handle
        ≡ some (write_at payload offset file) =
      written.2 handle ∙ (ground (arith)) in
    let inside : leb offset (length (write_at payload offset file)) ≡ true =
      ground (arith, length-write_at payload offset file given) in
    (
      written.0,
      read-contents zlib (write zlib faultless s handle offset payload).0 written.1 handle offset
            (length payload) (write_at payload offset file) now (omega (arith, h, v.short))
          ∙ rw (inside, written-write_at payload offset file given) refl,
    )

-- A chunk whose bytes changed behind the store's back, so that the checksum of a block differs: a read
-- that touches this block gives no bytes but CHECKSUM_MISMATCH, and the chunk counts as corrupt.
pub read-detects :
    (zlib : ℕ → Bytes → ℕ → ℕ) (s : ChunkStore) (handle offset len b : ℕ) (entry : ChunkEntry)
    (changed : Bytes)
    → lookup handle s.entries ≡ some (record entry { chunk = changed })
    → IsChecked zlib s.block_size entry
    → length changed ≡ length entry.chunk
    → sum_at zlib s.block_size changed b ≢ sum_at zlib s.block_size entry.chunk b
    → 0 < s.block_size
    → IsShort s.block_size entry.length
    → offset < entry.length
    → 0 < len
    → offset + len < u64_mod
    → offset / s.block_size ≤ b
    → b ≤ (min (offset + len) entry.length - 1) / s.block_size
    → read zlib faultless s handle offset len
      ≡ (mark_corrupt s handle, some (checksum_mismatch, []))
unfolding read
read-detects zlib s handle offset len b entry changed e v same differs positive short starts
      some_bytes h low high =
    let below : b * s.block_size
        ≤ (min (offset + len) entry.length - 1) / s.block_size * s.block_size =
      mul-le-mul_right s.block_size high in
    let found =
      read_entry-detects zlib s.block_size positive (record entry { chunk = changed }) offset len
        (same ∙ v.size) v.count short starts some_bytes b (sum_at zlib s.block_size entry.chunk b)
        low high
        (v.sums b (
          omega (
            arith,
            v.count,
            lt-blocks_of s.block_size entry.length positive (omega (arith, short)) b (
                omega (
                  arith,
                  below,
                  starts,
                  some_bytes,
                  div-mul-le_self (min (offset + len) entry.length - 1) s.block_size,
                )),
          )))
        differs h in
    rw (e, read, found, read) refl
