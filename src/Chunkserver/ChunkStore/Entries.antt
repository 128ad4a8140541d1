-- ===== src/Chunkserver/ChunkStore/Entries.antt =====
-- src/chunkserver/chunk_store.h and chunk_store.cc: the chunks of a chunkserver, each a file with its
-- bytes and a file with its version and the checksums of its blocks. Each operation holds a lock over
-- its whole body, or over all that counts.
use gfs_impl_cpp.Base.{
  ltb, leb, ◌==◌, if◌then◌else◌, length, take, drop, ℕ, zero, suc, ◌+◌, ◌-◌, ◌*◌, ◌/◌, ◌%◌, ◌^◌,
  max, min, Bool, true, false, not, ◌&&◌, ◌||◌, Option, none, some, List, [], ◌∷◌, ◌++◌,
}
use gfs_impl_cpp.Base.Bytes.{Bytes, bytes_key}
use gfs_impl_cpp.Base.Map.{nat_key}
use gfs_impl_cpp.Common.Framing.{crc32}
use gfs_impl_cpp.Common.ResultCode.{ResultCode, ok, checksum_mismatch, out_of_range, failed}
use gfs_impl_cpp.Chunkserver.ChunkStore.Files.{
  zeros, pwrite_all, pread_all, truncate, encode_u64, decode_u64, encode_sums, decode_sums,
}

abbrev pub u64_mod : ℕ
u64_mod = 2 ^ 64

abbrev pub meta_header_size : ℕ
meta_header_size = 8

-- What the operating system does: which calls to open and `unlink` work, whether reads, `ftruncate` and
-- `fsync` work, and where the writes of the bytes, the version and the checksums stop.
pub record Faults : Type 0 where
  pub opens_chunk : Bool
  pub opens_meta : Bool
  pub unlinks_chunk : Bool
  pub unlinks_meta : Bool
  pub reads : Bool
  pub truncates : Bool
  pub syncs : Bool
  pub chunk_stop : Option ℕ
  pub version_stop : Option ℕ
  pub sums_stop : Option ℕ

abbrev pub faultless : Faults
faultless = record {
  opens_chunk = true;
  opens_meta = true;
  unlinks_chunk = true;
  unlinks_meta = true;
  reads = true;
  truncates = true;
  syncs = true;
  chunk_stop = none;
  version_stop = none;
  sums_stop = none;
}

-- `chunk` and `meta` are the contents of the open files.
pub record ChunkEntry : Type 0 where
  pub version : ℕ
  pub length : ℕ
  pub checksums : List ℕ
  pub chunk : Bytes
  pub meta : Bytes

-- `needed`, in `size_t`.
abbrev pub blocks_of : ℕ → ℕ → ℕ
blocks_of block_size len = (len + block_size - 1) % u64_mod / block_size

unfoldable pub write_version : Faults → ℕ → Bytes → Bytes × Bool
write_version faults version meta =
    let written = pwrite_all faults.version_stop (encode_u64 version) 0 meta in
    (written.0, written.1 && faults.syncs)

-- `OpenEntry` of files that are there.
unfoldable pub open_existing : Faults → ℕ → Bytes → Bytes → Option ChunkEntry
open_existing faults block_size chunk meta =
    let stored = (length meta - meta_header_size) / 4 in
    let loaded = min stored (blocks_of block_size (length chunk)) in
    if not (faults.opens_chunk && faults.opens_meta) || ltb (length meta) meta_header_size
    then none
    else elim (pread_all faults.reads 8 0 meta) [
      | none ↦ none
      | some header ↦ elim (pread_all faults.reads (loaded * 4) meta_header_size meta) [
        | none ↦ none
        | some raw ↦ some (record {
          version = decode_u64 header;
          length = length chunk;
          checksums = decode_sums loaded raw;
          chunk = chunk;
          meta = meta;
        })
      ]
    ]

module _ (zlib : ℕ → Bytes → ℕ → ℕ) (block_size : ℕ) where
  -- The checksums of the next `n` blocks of `buf`.
  unfoldable pub block_sums : ℕ → Bytes → List ℕ
  block_sums zero buf = []
  block_sums (suc n) buf = crc32 zlib (take block_size buf) ∷ block_sums n (drop block_size buf)

  -- `checksums.resize(n, 0)` where there are fewer.
  unfoldable pub grow : ℕ → List ℕ → List ℕ
  grow n sums = sums ++ zeros (n - length sums)

  -- The loop writes the new checksums over the old ones from `first` on.
  unfoldable pub recompute_blocks : Faults → ChunkEntry → ℕ → ℕ → ChunkEntry × Bool
  recompute_blocks faults entry first last_block =
      let needed = blocks_of block_size entry.length in
      let sums = grow needed entry.checksums in
      let grown : ChunkEntry = record entry { checksums = sums } in
      let last = min last_block (needed - 1) in
      let start = first * block_size in
      let end = min ((last + 1) * block_size) entry.length in
      if needed == 0
      then (grown, true)
      else if ltb last first
      then (grown, true)
      else elim (pread_all faults.reads (end - start) start entry.chunk) [
        | none ↦ (grown, false)
        | some buf ↦
            let fresh = block_sums (last - first + 1) buf in
            let written =
              pwrite_all faults.sums_stop (encode_sums fresh) (meta_header_size + 4 * first)
                entry.meta in
            (
              record entry {
                checksums = take first sums ++ (fresh ++ drop (last + 1) sums);
                meta = written.0;
              },
              written.1,
            )
      ]

  -- The blocks of `buf` agree with the checksums.
  unfoldable pub verify_blocks : Bytes → List ℕ → Bool
  verify_blocks buf [] = true
  verify_blocks buf (sum ∷ sums) =
      let rest = verify_blocks (drop block_size buf) sums in
      if crc32 zlib (take block_size buf) == sum then rest else false

  -- `Read` of an entry; the last value says whether to mark the chunk as corrupt. `substr` takes what
  -- there is where `end - offset` has wrapped around; where it throws, the result is none.
  unfoldable pub read_entry : Faults → ChunkEntry → ℕ → ℕ → Option (ResultCode × Bytes × Bool)
  read_entry faults entry offset len =
      let end = min ((offset + len) % u64_mod) entry.length in
      let first = offset / block_size in
      let last = (end - 1) / block_size in
      let start = first * block_size in
      let stop = min ((last + 1) * block_size) entry.length in
      if ltb entry.length offset
      then some (out_of_range, [], false)
      else if end == offset
      then some (ok, [], false)
      else if leb (length entry.checksums) last || end == 0
      then some (checksum_mismatch, [], true)
      else if ltb stop start
      then none
      else elim (pread_all faults.reads (stop - start) start entry.chunk) [
        | none ↦ some (failed, [], false)
        | some buf ↦
            if not (verify_blocks buf (take (last + 1 - first) (drop first entry.checksums)))
            then some (checksum_mismatch, [], true)
            else if ltb (length buf) (offset - start)
            then none
            else let size = if ltb end offset then length buf else end - offset in
              some (ok, take size (drop (offset - start) buf), false)
      ]

  -- `Write` of an entry behind the check of the size.
  unfoldable pub write_entry : Faults → ChunkEntry → ℕ → Bytes → ChunkEntry × ResultCode
  write_entry faults entry offset payload =
      let written = pwrite_all faults.chunk_stop payload offset entry.chunk in
      let len = max entry.length ((offset + length payload) % u64_mod) in
      let first = min offset entry.length / block_size in
      let last = (len - 1) / block_size in
      let result =
        recompute_blocks faults (record entry { length = len; chunk = written.0 }) first last in
      if not written.1
      then (record entry { chunk = written.0 }, failed)
      else (result.0, if result.1 && faults.syncs then ok else failed)

  -- `Pad` of an entry; the steps of its loop add up to one write.
  unfoldable pub pad_entry : Faults → ℕ → ChunkEntry → ℕ → ChunkEntry × ResultCode
  pad_entry faults chunk_size entry from =
      let written =
        if leb entry.length from
        then (
          if faults.truncates then truncate chunk_size entry.chunk else entry.chunk,
          faults.truncates,
        )
        else pwrite_all faults.chunk_stop (zeros (chunk_size - from)) from entry.chunk in
      let first = min from entry.length / block_size in
      let last = (chunk_size - 1) / block_size in
      let result =
        recompute_blocks faults (record entry { length = chunk_size; chunk = written.0 }) first
          last in
      if not written.1
      then (record entry { chunk = written.0 }, failed)
      else (result.0, if result.1 && faults.syncs then ok else failed)
