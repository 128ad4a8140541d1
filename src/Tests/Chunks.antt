-- ===== src/Tests/Chunks.antt =====
-- The chunk store.
use gfs_impl_cpp.Base.{
  leb, ◌==◌, if◌then◌else◌, get_elem?, take, drop, ℕ, zero, suc, ◌+◌, ◌-◌, ◌*◌, ◌^◌, ◌<◌, ◌≡◌, refl,
  Option, none, some, List, [], ◌∷◌, arith, true, false, ℕ_discrete,
}
use gfs_impl_cpp.Base.Bytes.{Bytes, bytes, bytes_key, List-discrete, bytes_discrete}
use gfs_impl_cpp.Base.Map.{nat_key, lookup, insert, contains}
use gfs_impl_cpp.Common.Framing.{put_u32, get_u32, crc32_from, crc32}
use gfs_impl_cpp.Common.ResultCode.{ok, failed, checksum_mismatch, out_of_range}
use gfs_impl_cpp.Chunkserver.LeaseTable
use gfs_impl_cpp.Chunkserver.LeaseTable.{next_serial}
use gfs_impl_cpp.Chunkserver.DataBuffer
use gfs_impl_cpp.Chunkserver.DataBuffer.{BufferKey}
use gfs_impl_cpp.Common.Replica.{Replica}
use gfs_impl_cpp.Base.Int.{pos, ◌+ℤ◌, ◌-ℤ◌}
use gfs_impl_cpp.Chunkserver.Requests.{
  Server, writes, ApplyMutationRequest, prepare_mutation, forwarded, record_append, apply_mutation,
}
use gfs_impl_cpp.Chunkserver.Requests.Beats.{heard, among, lookup-heard}
use gfs_impl_cpp.Chunkserver.Requests.Appends.{record_append-contents, record_append-apply_mutation}
use gfs_impl_cpp.Chunkserver.ChunkStore.{
  ChunkStore, version_of, mark_corrupt, read, write, create, open_new,
}
use gfs_impl_cpp.Chunkserver.ChunkStore.Files.{
  write_at, pwrite_all, pread_all, encode_u64, encode_sums,
}
use gfs_impl_cpp.Chunkserver.ChunkStore.Entries.{
  faultless, ChunkEntry, write_version, read_entry, write_entry, verify_blocks, block_sums, grow,
  recompute_blocks,
}
use gfs_impl_cpp.Chunkserver.ChunkStore.Blocks.{IsChecked}
use gfs_impl_cpp.Chunkserver.ChunkStore.Contents.{
  contents, is_unused, IsSound, read-contents, write-contents, create-contents,
}
use gfs_impl_cpp.Chunkserver.ChunkStore.ReadBack.{read-write, read-detects}

-- A stand-in for zlib's checksum.
abbrev sum_bytes : ℕ → Bytes → ℕ → ℕ
sum_bytes seed [] n = seed + n
sum_bytes seed (b ∷ bs) n = sum_bytes (seed * 31 + b) bs n

unfoldable chunks : Unit {0}
unfolding lookup insert contains ℕ_discrete put_u32 get_u32 crc32_from crc32 read write create
    open_new write_at pwrite_all pread_all encode_u64 encode_sums write_version read_entry
    write_entry verify_blocks block_sums grow recompute_blocks mark_corrupt
chunks = tt

unfoldable requests : Unit {0}
unfolding chunks bytes_discrete List-discrete version_of prepare_mutation LeaseTable.grant
    LeaseTable.check LeaseTable.write_slot DataBuffer.put DataBuffer.take_data DataBuffer.entry_of
    DataBuffer.index_find DataBuffer.index_erase DataBuffer.node_at DataBuffer.erase_node
    DataBuffer.drop_entry DataBuffer.evict DataBuffer.push_front DataBuffer.drop_existing
    DataBuffer.last_of DataBuffer.without_last ◌+ℤ◌ ◌-ℤ◌
requests = tt

-- Chunks of at most sixteen bytes, in blocks of four.
abbrev fresh : ChunkStore
fresh = record {
  chunk_size = 16;
  block_size = 4;
  entries = [];
  corrupt = [];
  chunk_files = [];
  meta_files = [];
}

fresh-IsSound : IsSound sum_bytes fresh
unfolding lookup
fresh-IsSound = record {
  positive = omega arith;
  short = omega arith;
  checked = λ handle entry e. absurd (ground (arith, e));
  within = λ handle entry e. absurd (ground (arith, e));
}

abbrev one_chunk : ChunkStore
one_chunk = (create faultless fresh 7 1).0

one_chunk-empty : contents one_chunk 7 ≡ some []
unfolding chunks
one_chunk-empty = refl

-- The first four bytes stay zeros.
abbrev written : ChunkStore
written = (write sum_bytes faultless one_chunk 7 4 (bytes "hello")).0

written-hello : contents written 7 ≡ some (0 ∷ 0 ∷ 0 ∷ 0 ∷ bytes "hello")
unfolding chunks
written-hello = refl

one_chunk-IsSound : IsSound sum_bytes one_chunk
unfolding chunks
one_chunk-IsSound = (create-contents sum_bytes fresh fresh-IsSound 7 1).1

create-contents_example :
    let (s', code) = create faultless one_chunk 8 3 in
    (code ≡ (if is_unused one_chunk 8 then ok else failed))
    × IsSound sum_bytes s'
    × (is_unused one_chunk 8 ≡ false → s' ≡ one_chunk)
    × (is_unused one_chunk 8 ≡ true
        → (h : ℕ)
        → (contents s' h ≡ (if h == 8 then some [] else contents one_chunk h))
          × (version_of s' h ≡ (if h == 8 then some 3 else version_of one_chunk h)))
create-contents_example = create-contents sum_bytes one_chunk one_chunk-IsSound 8 3

write-contents_example :
    let (s', code) = write sum_bytes faultless one_chunk 7 4 (bytes "hello") in
    (code ≡ ok)
    × IsSound sum_bytes s'
    × ((h : ℕ)
        → contents s' h
          ≡ (if h == 7 then some (write_at (bytes "hello") 4 []) else contents one_chunk h))
unfolding chunks
write-contents_example =
    write-contents sum_bytes one_chunk one_chunk-IsSound 7 4 (bytes "hello") [] one_chunk-empty
      (omega arith)

written-IsSound : IsSound sum_bytes written
unfolding chunks
written-IsSound =
    (write-contents sum_bytes one_chunk one_chunk-IsSound 7 4 (bytes "hello") [] one_chunk-empty
      (omega arith)).1

read-contents_example : read sum_bytes faultless written 7 3 4 ≡ (
  written,
  some (
      if leb 3 9
      then (ok, take 4 (drop 3 (0 ∷ 0 ∷ 0 ∷ 0 ∷ bytes "hello")))
      else (out_of_range, [])),
)
read-contents_example =
    read-contents sum_bytes written written-IsSound 7 3 4 (0 ∷ 0 ∷ 0 ∷ 0 ∷ bytes "hello")
      written-hello (omega arith)

read-write_example :
    let (s', code) = write sum_bytes faultless one_chunk 7 4 (bytes "hello") in
    (code ≡ ok) × (read sum_bytes faultless s' 7 4 5 ≡ (s', some (ok, bytes "hello")))
unfolding chunks
read-write_example =
    read-write sum_bytes one_chunk 7 4 (bytes "hello") [] one_chunk-IsSound one_chunk-empty refl
      (omega arith)

abbrev letter : ChunkEntry
letter = record {
  version = 1;
  length = 1;
  checksums = crc32 sum_bytes (bytes "a") ∷ [];
  chunk = bytes "a";
  meta = [];
}

letter-IsChecked : IsChecked sum_bytes 4 letter
letter-IsChecked = record { size = refl; count = refl; sums = sums }
  where
    sums :
        (b : ℕ)
        → b < 1
        → get_elem? letter.checksums b ≡ some (crc32 sum_bytes (take 4 (drop (b * 4) (bytes "a"))))
    sums zero h = refl
    sums (suc b) h = absurd (omega (arith, h))

-- The file of the chunk was overwritten.
abbrev spoilt : ChunkStore
spoilt = record fresh { entries = (7, record letter { chunk = bytes "b" }) ∷ [] }

read-detects_example :
    read sum_bytes faultless spoilt 7 0 1 ≡ (mark_corrupt spoilt 7, some (checksum_mismatch, []))
unfolding chunks
read-detects_example =
    read-detects sum_bytes spoilt 7 0 1 0 letter (bytes "b") refl letter-IsChecked refl
      (λ e. ground (arith, e)) (omega arith) (omega arith) (omega arith) (omega arith) (omega arith)
      (omega arith) (omega arith)

-- A length that takes the sum past 2^64: no bytes come back, and a sound chunk counts as corrupt.
wrapped :
    read sum_bytes faultless written 7 1 (2 ^ 64 - 1)
    ≡ (mark_corrupt written 7, some (checksum_mismatch, []))
unfolding chunks
wrapped = refl

-- With a length that wraps to the first block the code throws.
thrown : read sum_bytes faultless written 7 6 (2 ^ 64 - 3) ≡ (written, none)
unfolding chunks
thrown = refl

abbrev record_key : BufferKey
record_key = record { client_id = bytes "c"; sequence = 1 }

-- A primary with the chunk, a lease of a hundred ticks and a record.
abbrev server : Server
server = record {
  id = bytes "s1";
  chunk_size = 16;
  store = written;
  leases = LeaseTable.grant (record { skew_margin = pos 5; slots = [] }) (pos 0) 7 (pos 100) [];
  buffer =
      DataBuffer.put (record { capacity = 8; used = 0; lru = []; index = []; next_iterator = 0 })
        record_key (bytes "rec");
}

abbrev accepts : ApplyMutationRequest → List Replica → Option Bytes
accepts request secondaries = none

record_append-contents_example :
    let (s', response) = record_append sum_bytes faultless accepts server (pos 10) 7 1 record_key in
    let request : ApplyMutationRequest = record {
      handle = 7;
      version = 1;
      serial = (next_serial server.leases 7).1;
      kind = writes;
      offset = 9;
      key = record_key;
    } in
    (response ≡ forwarded (accepts request []) (record { code = ok; failed_at = []; offset = 9 }))
    × IsSound sum_bytes s'.store
    × (contents s'.store 7 ≡ some (0 ∷ 0 ∷ 0 ∷ 0 ∷ bytes "hellorec"))
unfolding requests
record_append-contents_example =
    record_append-contents sum_bytes server written-IsSound refl 7 record_key
      (0 ∷ 0 ∷ 0 ∷ 0 ∷ bytes "hello") (bytes "rec") written-hello refl (omega arith) accepts
      (pos 10) 1 [] refl

abbrev secondary : Server
secondary = record server { id = bytes "s2" }

record_append-apply_mutation_example :
    (request : ApplyMutationRequest) × ((forward : ApplyMutationRequest
        → List Replica
        → Option Bytes)
      → let (p', response) =
          record_append sum_bytes faultless forward server (pos 10) 7 1 record_key in
        let (s', code) = apply_mutation sum_bytes faultless secondary request in
        (response
          ≡ forwarded (forward request []) (record { code = ok; failed_at = []; offset = 9 }))
        × (code ≡ ok)
        × (contents s'.store 7 ≡ contents p'.store 7)
        × IsSound sum_bytes p'.store
        × IsSound sum_bytes s'.store)
unfolding requests
record_append-apply_mutation_example =
    record_append-apply_mutation sum_bytes server secondary written-IsSound written-IsSound 7 1
      record_key (0 ∷ 0 ∷ 0 ∷ 0 ∷ bytes "hello") (bytes "rec") (pos 10) [] refl refl written-hello
      written-hello refl refl (omega arith) refl refl refl

lookup-heard_example :
    lookup 7 (heard (λ h. faultless) server (pos 10) [] (7 ∷ []) []).store.entries
    ≡ (if among 7 (7 ∷ []) then none else lookup 7 server.store.entries)
lookup-heard_example = lookup-heard (λ h. faultless) server (pos 10) [] (7 ∷ []) [] 7
