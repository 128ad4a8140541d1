-- ===== src/Chunkserver/ChunkStore.antt =====
-- src/chunkserver/chunk_store.h and chunk_store.cc: the chunks that a chunkserver keeps. Each operation
-- is one step of the store. `LockForMutation` is left to the callers.
pub mod Files
pub mod Entries
pub mod Blocks
pub mod Checked
pub mod Writes
pub mod Reads
pub mod Contents
pub mod ReadBack
use gfs_impl_cpp.Base.{
  ltb, ◌==◌, if◌then◌else◌, length, take, ℕ, ◌+◌, ◌%◌, Bool, true, false, not, ◌||◌, Option, none,
  some, List, [], ◌∷◌, map,
}
use gfs_impl_cpp.Base.Bytes.{Bytes, bytes_key}
use gfs_impl_cpp.Base.Map.{nat_key, Map, Set, keys, lookup, insert, erase, contains}
use gfs_impl_cpp.Common.ResultCode.{ResultCode, ok, no_such_chunk, out_of_range, failed}
use gfs_impl_cpp.Chunkserver.ChunkStore.Files.{is_nil, pwrite_all, pread_all, encode_sums}
use gfs_impl_cpp.Chunkserver.ChunkStore.Entries.{
  Faults, ChunkEntry, u64_mod, meta_header_size, write_version, open_existing, read_entry,
  write_entry, pad_entry,
}

-- `chunk_files` and `meta_files` are the files in the directory that no entry has open, by the handle in
-- their names.
pub record ChunkStore : Type 0 where
  pub chunk_size : ℕ
  pub block_size : ℕ
  pub entries : Map ℕ ChunkEntry
  pub corrupt : Set ℕ
  pub chunk_files : Map ℕ Bytes
  pub meta_files : Map ℕ Bytes

abbrev with_entry : ChunkStore → ℕ → ChunkEntry → ChunkStore
with_entry s handle entry = record s { entries = insert handle entry s.entries }

abbrev with_files : ChunkStore → ℕ → Bytes → Bytes → ChunkStore
with_files s handle chunk meta = record s {
  chunk_files = insert handle chunk s.chunk_files;
  meta_files = insert handle meta s.meta_files;
}

-- A file that is not unlinked stays in the directory.
abbrev left_behind : Bool → ℕ → Bytes → Map ℕ Bytes → Map ℕ Bytes
left_behind unlinked handle file files = if unlinked then files else insert handle file files

-- `OpenEntry` of files that are to be created.
unfoldable pub open_new : Faults → ChunkStore → ℕ → ℕ → ChunkStore × Option ChunkEntry
open_new faults s handle version =
    let written = write_version faults version [] in
    if contains handle s.chunk_files || not faults.opens_chunk
    then (s, none)
    else if contains handle s.meta_files || not faults.opens_meta
    then (record s { chunk_files = left_behind faults.unlinks_chunk handle [] s.chunk_files }, none)
    else if not written.1
    then (with_files s handle [] written.0, none)
    else (
      s,
      some (record { version = version; length = 0; checksums = []; chunk = []; meta = written.0 }),
    )

unfoldable pub create : Faults → ChunkStore → ℕ → ℕ → ChunkStore × ResultCode
create faults s handle version =
    let opened = open_new faults s handle version in
    if contains handle s.entries then (s, failed) else elim opened.1 [
      | none ↦ (opened.0, failed)
      | some entry ↦ (with_entry opened.0 handle entry, ok)
    ]

abbrev or_all : ℕ → Option ℕ → ℕ
or_all all none = all
or_all all (some n) = n

-- The loop that copies the bytes; its steps add up to one read and one write. The bytes, and whether
-- all were copied.
unfoldable pub copy_bytes : Faults → ChunkEntry → Bytes × Bool
copy_bytes faults source = elim (pread_all faults.reads source.length 0 source.chunk) [
  | none ↦ (take (or_all 0 faults.chunk_stop) source.chunk, false)
  | some buf ↦ pwrite_all faults.chunk_stop buf 0 []
]

unfoldable pub copy_into :
    Faults → ChunkStore → ℕ → ChunkEntry → ChunkEntry → ChunkStore × ResultCode
copy_into faults s handle source entry =
    let copied = copy_bytes faults source in
    let raw = encode_sums source.checksums in
    let written =
      if is_nil raw
      then (entry.meta, true)
      else pwrite_all faults.sums_stop raw meta_header_size entry.meta in
    if not copied.1
    then (with_files s handle copied.0 entry.meta, failed)
    else if not written.1 || not faults.syncs
    then (with_files s handle copied.0 written.0, failed)
    else (
      with_entry s handle (record entry {
        length = source.length;
        checksums = source.checksums;
        chunk = copied.0;
        meta = written.0;
      }),
      ok,
    )

unfoldable pub create_copy : Faults → ChunkStore → ℕ → ℕ → ℕ → ChunkStore × ResultCode
create_copy faults s handle version copy_from = elim (lookup copy_from s.entries) [
  | none ↦ (s, no_such_chunk)
  | some source ↦
      let opened = open_new faults s handle version in
      if contains handle s.entries then (s, failed) else elim opened.1 [
        | none ↦ (opened.0, failed)
        | some entry ↦ copy_into faults opened.0 handle source entry
      ]
]

unfoldable pub mark_corrupt : ChunkStore → ℕ → ChunkStore
mark_corrupt s handle = record s { corrupt = insert handle tt s.corrupt }

module _ (zlib : ℕ → Bytes → ℕ → ℕ) (faults : Faults) where
  -- None where the code throws.
  unfoldable pub read : ChunkStore → ℕ → ℕ → ℕ → ChunkStore × Option (ResultCode × Bytes)
  read s handle offset len = elim (lookup handle s.entries) [
    | none ↦ (s, some (no_such_chunk, []))
    | some entry ↦ elim (read_entry zlib s.block_size faults entry offset len) [
      | none ↦ (s, none)
      | some (code, out, bad) ↦ (if bad then mark_corrupt s handle else s, some (code, out))
    ]
  ]

  unfoldable pub write : ChunkStore → ℕ → ℕ → Bytes → ChunkStore × ResultCode
  write s handle offset payload = elim (lookup handle s.entries) [
    | none ↦ (s, no_such_chunk)
    | some entry ↦
        let written = write_entry zlib s.block_size faults entry offset payload in
        if ltb s.chunk_size ((offset + length payload) % u64_mod)
        then (s, out_of_range)
        else if is_nil payload
        then (s, ok)
        else (with_entry s handle written.0, written.1)
  ]

  unfoldable pub pad : ChunkStore → ℕ → ℕ → ChunkStore × ResultCode
  pad s handle from_offset = elim (lookup handle s.entries) [
    | none ↦ (s, no_such_chunk)
    | some entry ↦
        let padded = pad_entry zlib s.block_size faults s.chunk_size entry from_offset in
        if ltb s.chunk_size from_offset
        then (s, out_of_range)
        else (with_entry s handle padded.0, padded.1)
  ]

-- `Length`: the code and `*out`.
unfoldable pub length_of : ChunkStore → ℕ → ResultCode × ℕ
length_of s handle = elim (lookup handle s.entries) [
  | none ↦ (no_such_chunk, 0)
  | some entry ↦ (ok, entry.length)
]

unfoldable pub version_of : ChunkStore → ℕ → Option ℕ
version_of s handle = elim (lookup handle s.entries) [
  | none ↦ none
  | some entry ↦ some entry.version
]

unfoldable pub set_version : Faults → ChunkStore → ℕ → ℕ → ChunkStore × ResultCode
set_version faults s handle version = elim (lookup handle s.entries) [
  | none ↦ (s, no_such_chunk)
  | some entry ↦
      let written = write_version faults version entry.meta in
      if entry.version == version
      then (s, ok)
      else if not written.1
      then (with_entry s handle (record entry { meta = written.0 }), failed)
      else (with_entry s handle (record entry { version = version; meta = written.0 }), ok)
]

unfoldable pub has_chunk : ChunkStore → ℕ → Bool
has_chunk s handle = contains handle s.entries

unfoldable pub remove : Faults → ChunkStore → ℕ → ChunkStore × Bool
remove faults s handle = elim (lookup handle s.entries) [
  | none ↦ (s, false)
  | some entry ↦ (
    record s {
      entries = erase handle s.entries;
      corrupt = erase handle s.corrupt;
      chunk_files = left_behind faults.unlinks_chunk handle entry.chunk s.chunk_files;
      meta_files = left_behind faults.unlinks_meta handle entry.meta s.meta_files;
    },
    true,
  )
]

pub record ChunkListing : Type 0 where
  pub handle : ℕ
  pub version : ℕ
  pub length : ℕ

abbrev listing : ℕ × ChunkEntry → ChunkListing
listing (handle, entry) = record { handle = handle; version = entry.version; length = entry.length }

-- `List`: the entries are in the order of the handles.
unfoldable pub list_chunks : ChunkStore → List ChunkListing
list_chunks s = map listing s.entries

unfoldable pub corrupt_handles : ChunkStore → List ℕ
corrupt_handles s = keys s.corrupt

unfoldable pub clear_corrupt : ChunkStore → List ℕ → ChunkStore
clear_corrupt s [] = s
clear_corrupt s (handle ∷ handles) =
    clear_corrupt (record s { corrupt = erase handle s.corrupt }) handles

-- The loop of `Scan` over the files with checksums: one without its chunk is unlinked.
unfoldable pub with_chunk : Faults → Map ℕ Bytes → Map ℕ Bytes → Map ℕ Bytes
with_chunk faults chunks [] = []
with_chunk faults chunks ((handle, meta) ∷ metas) =
    let rest = with_chunk faults chunks metas in
    if contains handle chunks || not faults.unlinks_meta then (handle, meta) ∷ rest else rest

unfoldable pub scan_one : Faults → ChunkStore → ℕ → Bytes → ChunkStore
scan_one faults s handle chunk = elim (lookup handle s.meta_files) [
  | none ↦ s
  | some meta ↦ elim (open_existing faults s.block_size chunk meta) [
    | none ↦ s
    | some entry ↦ record s {
      entries = insert handle entry s.entries;
      chunk_files = erase handle s.chunk_files;
      meta_files = erase handle s.meta_files;
    }
  ]
]

unfoldable pub scan_all : Faults → ChunkStore → Map ℕ Bytes → ChunkStore
scan_all faults s [] = s
scan_all faults s ((handle, chunk) ∷ chunks) =
    scan_all faults (scan_one faults s handle chunk) chunks

unfoldable pub scan : Faults → ChunkStore → ChunkStore
scan faults s =
    scan_all faults (record s { meta_files = with_chunk faults s.chunk_files s.meta_files })
      s.chunk_files
