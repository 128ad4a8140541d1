-- ===== src/Chunkserver/Requests/Appends.antt =====
-- A record append of src/chunkserver/chunkserver.cc on the primary and on a secondary.
use gfs_impl_cpp.Base.{
  ltb, ◌==◌, Option-cases, length, take, drop, ℕ, ◌+◌, ◌-◌, ◌%◌, ◌≤◌, ◌≡◌, refl, sym, ap, ◌∙◌, inl,
  inr, true, false, Option, some, List, [], ◌∷◌, ◌++◌, arith,
}
use gfs_impl_cpp.Base.Bytes.{Bytes, bytes_key}
use gfs_impl_cpp.Base.Int.{ℤ}
use gfs_impl_cpp.Base.Map.{nat_key, lookup}
use gfs_impl_cpp.Common.ResultCode.{ok}
use gfs_impl_cpp.Common.Replica.{Replica}
use gfs_impl_cpp.Chunkserver.LeaseTable.{next_serial}
use gfs_impl_cpp.Chunkserver.DataBuffer.{BufferKey, take_data}
use gfs_impl_cpp.Chunkserver.ChunkStore
use gfs_impl_cpp.Chunkserver.ChunkStore.{ChunkStore, version_of, length_of}
use gfs_impl_cpp.Chunkserver.ChunkStore.Files.{write_at}
use gfs_impl_cpp.Chunkserver.ChunkStore.Entries.{faultless, u64_mod}
use gfs_impl_cpp.Chunkserver.ChunkStore.Blocks.{drop-all, take-all}
use gfs_impl_cpp.Chunkserver.ChunkStore.Contents.{chunk_of, contents, IsSound, write-contents}
use gfs_impl_cpp.Chunkserver.Requests.{
  Server, writes, ApplyMutationRequest, holds, prepare_mutation, forwarded, append_at,
  record_append, apply_mutation,
}
use mathlib.Core.Option.{some-injective}
use mathlib.Core.List.{append-nil}

write_at_end : (payload file : Bytes) → write_at payload (length file) file ≡ file ++ payload
unfolding write_at
write_at_end [] file = sym (append-nil file)
write_at_end (c ∷ rest) file =
    let none_missing : length file - length file ≡ 0 = omega arith in
    let whole : take (length file) file ≡ file = take-all (length file) file (omega arith) in
    let nothing : drop (length file + length (c ∷ rest)) file ≡ [] =
      drop-all (length file + length (c ∷ rest)) file (omega arith) in
    rw (none_missing, append-nil file, whole, nothing, append-nil rest) refl

module _ (zlib : ℕ → Bytes → ℕ → ℕ) (s : Server) (v : IsSound zlib s.store)
    (same_size : s.chunk_size ≡ s.store.chunk_size) (handle : ℕ) (key : BufferKey)
    (file payload : Bytes) (there : contents s.store handle ≡ some file)
    (given : (take_data s.buffer key).1 ≡ some payload)
    (fits : length file + length payload ≤ s.chunk_size) where
  length_of_contents : length_of s.store handle ≡ (ok, length file)
  unfolding length_of
  length_of_contents = elim (Option-cases (lookup handle s.store.entries)) [
    | inl e ↦ absurd (ground (arith, e, there))
    | inr (entry, e) ↦
        let same : entry.chunk ≡ file =
          some-injective entry.chunk file (sym (ap chunk_of e) ∙ there) in
        rw (e, length_of)
          (ap (λ (n : ℕ). (ok, n)) (sym (v.checked handle entry e).size ∙ ap length same))
  ]

  -- On a primary with a lease that holds, a record that fits into the chunk is appended to its bytes and
  -- is forwarded with the next serial number and the old length as its offset; unless a secondary fails,
  -- the answer is OK with this offset. The checksums agree with the bytes afterwards.
  pub record_append-contents :
      (forward : ApplyMutationRequest → List Replica → Option Bytes) (now : ℤ) (version : ℕ)
      (secondaries : List Replica)
      → prepare_mutation s now handle version ≡ holds secondaries
      → let (s', response) = record_append zlib faultless forward s now handle version key in
        let request : ApplyMutationRequest = record {
          handle = handle;
          version = version;
          serial = (next_serial s.leases handle).1;
          kind = writes;
          offset = length file;
          key = key;
        } in
        (response
          ≡ forwarded
              (forward request secondaries)
              (record { code = ok; failed_at = []; offset = length file }))
        × IsSound zlib s'.store
        × (contents s'.store handle ≡ some (file ++ payload))
  unfolding record_append append_at
  record_append-contents forward now version secondaries prepared =
      let written =
        write-contents zlib s.store v handle (length file) payload file there
          (omega (arith, fits, same_size)) in
      let within : ltb s.chunk_size ((length file + length payload) % u64_mod) ≡ false =
        ground (arith, fits, v.short, same_size) in
      let request : ApplyMutationRequest = record {
        handle = handle;
        version = version;
        serial = (next_serial s.leases handle).1;
        kind = writes;
        offset = length file;
        key = key;
      } in
      let s' : Server = record s {
        buffer = (take_data s.buffer key).0;
        leases = (next_serial s.leases handle).0;
        store = (ChunkStore.write zlib faultless s.store handle (length file) payload).0;
      } in
      let outcome : record_append zlib faultless forward s now handle version key ≡ (
        s',
        forwarded (forward request secondaries)
            (record { code = ok; failed_at = []; offset = length file }),
      ) =
        rw
          (
            prepared, record_append, given, record_append, length_of_contents, append_at, within,
            written.0,
          )
          refl in
      let bytes : contents s'.store handle ≡ some (file ++ payload) =
        written.2 handle ∙ (ground (arith)) ∙ ap some (write_at_end payload file) in
      rw outcome (refl, written.1, bytes)

  -- A secondary that has the bytes, the version and the record appends the record as well.
  apply_mutation-contents :
      (version serial : ℕ)
      → version_of s.store handle ≡ some version
      → let (s', code) = apply_mutation zlib faultless s (record {
        handle = handle;
        version = version;
        serial = serial;
        kind = writes;
        offset = length file;
        key = key;
      }) in
        (code ≡ ok) × IsSound zlib s'.store × (contents s'.store handle ≡ some (file ++ payload))
  unfolding apply_mutation
  apply_mutation-contents version serial current =
      let written =
        write-contents zlib s.store v handle (length file) payload file there
          (omega (arith, fits, same_size)) in
      let within : ltb s.chunk_size ((length file + length payload) % u64_mod) ≡ false =
        ground (arith, fits, v.short, same_size) in
      let equal : (version == version) ≡ true = ground arith in
      let request : ApplyMutationRequest = record {
        handle = handle;
        version = version;
        serial = serial;
        kind = writes;
        offset = length file;
        key = key;
      } in
      let s' : Server = record s {
        buffer = (take_data s.buffer key).0;
        store = (ChunkStore.write zlib faultless s.store handle (length file) payload).0;
      } in
      let outcome : apply_mutation zlib faultless s request ≡ (s', ok) =
        rw (current, apply_mutation, equal, given, apply_mutation, within, written.0) refl in
      let bytes : contents s'.store handle ≡ some (file ++ payload) =
        written.2 handle ∙ (ground (arith)) ∙ ap some (write_at_end payload file) in
      rw outcome (refl, written.1, bytes)

-- Without failures of the operating systems there is one request that a primary with a lease that holds
-- forwards for a record append that fits, whatever the secondaries answer to it: the answer of the primary
-- depends on the answer to this request. A secondary that had the
-- primary's bytes, its version, its chunk size and the record answers OK to it, and has the bytes that the primary has
-- after the append; the checksums agree with the bytes on both.
pub record_append-apply_mutation :
    (zlib : ℕ → Bytes → ℕ → ℕ) (p s : Server) (vp : IsSound zlib p.store)
    (vs : IsSound zlib s.store) (handle version : ℕ) (key : BufferKey) (file payload : Bytes)
    (now : ℤ) (secondaries : List Replica)
    → p.chunk_size ≡ p.store.chunk_size
    → s.chunk_size ≡ s.store.chunk_size
    → contents p.store handle ≡ some file
    → contents s.store handle ≡ some file
    → (take_data p.buffer key).1 ≡ some payload
    → (take_data s.buffer key).1 ≡ some payload
    → length file + length payload ≤ p.chunk_size
    → s.chunk_size ≡ p.chunk_size
    → prepare_mutation p now handle version ≡ holds secondaries
    → version_of s.store handle ≡ some version
    → (request : ApplyMutationRequest) × ((forward : ApplyMutationRequest
          → List Replica
          → Option Bytes)
        → let (p', response) = record_append zlib faultless forward p now handle version key in
          let (s', code) = apply_mutation zlib faultless s request in
          (response
            ≡ forwarded
                (forward request secondaries)
                (record { code = ok; failed_at = []; offset = length file }))
          × (code ≡ ok)
          × (contents s'.store handle ≡ contents p'.store handle)
          × IsSound zlib p'.store
          × IsSound zlib s'.store)
record_append-apply_mutation zlib p s vp vs handle version key file payload now secondaries size_p
      size_s there_p there_s given_p given_s fits same_size prepared current =
    (
      record {
        handle = handle;
        version = version;
        serial = (next_serial p.leases handle).1;
        kind = writes;
        offset = length file;
        key = key;
      },
      λ forward.
          let (response, sound_p, bytes_p) =
            record_append-contents zlib p vp size_p handle key file payload there_p given_p fits
              forward now version secondaries prepared in
          let (code, sound_s, bytes_s) =
            apply_mutation-contents zlib s vs size_s handle key file payload there_s given_s
              (omega (arith, fits, same_size)) version (next_serial p.leases handle).1 current in
          (response, code, bytes_s ∙ sym bytes_p, sound_p, sound_s),
    )
