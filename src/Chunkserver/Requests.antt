-- ===== src/Chunkserver/Requests.antt =====
-- src/chunkserver/chunkserver.cc: the requests on chunks and leases. Each request is one step of the
-- server; the lock for mutations keeps others off the chunk meanwhile. The calls to the secondaries are
-- the parameter `forward`, which names a secondary that failed.
pub mod Appends
pub mod Beats
use gfs_impl_cpp.Base.{
  ltb, ◌==◌, if◌then◌else◌, length, ℕ, ◌+◌, ◌%◌, Bool, true, false, not, Option, none, some, List,
  [],
}
use gfs_impl_cpp.Base.Bytes.{Bytes, bytes_key}
use gfs_impl_cpp.Base.Int.{ℤ}
use gfs_impl_cpp.Base.Map.{nat_key}
use gfs_impl_cpp.Common.ResultCode.{
  ResultCode, ok, stale_version, not_primary, data_missing, retry_next_chunk, no_such_chunk,
  out_of_range, lease_expired, failed,
}
use gfs_impl_cpp.Common.Replica.{Replica}
use gfs_impl_cpp.Chunkserver.LeaseTable
use gfs_impl_cpp.Chunkserver.LeaseTable.{
  LeaseTable, LeaseInfo, primary, expired, not_held, check, next_serial,
}
use gfs_impl_cpp.Chunkserver.DataBuffer.{BufferKey, DataBuffer, take_data, size_of}
use gfs_impl_cpp.Chunkserver.ChunkStore
use gfs_impl_cpp.Chunkserver.ChunkStore.{
  ChunkStore, version_of, length_of, pad, set_version, create_copy,
}
use gfs_impl_cpp.Chunkserver.ChunkStore.Entries.{Faults, u64_mod}

-- The parts of a chunkserver that requests change, with `config_.chunk_size` and `id_`.
pub record Server : Type 0 where
  pub id : Bytes
  pub chunk_size : ℕ
  pub store : ChunkStore
  pub leases : LeaseTable
  pub buffer : DataBuffer

pub data MutationKind : Type 0 where
  writes : MutationKind
  pads : MutationKind

pub record ApplyMutationRequest : Type 0 where
  pub handle : ℕ
  pub version : ℕ
  pub serial : ℕ
  pub kind : MutationKind
  pub offset : ℕ
  pub key : BufferKey

pub record Response : Type 0 where
  pub code : ResultCode
  pub failed_at : Bytes
  pub offset : ℕ

abbrev pub answer : ResultCode → Response
answer code = record { code = code; failed_at = []; offset = 0 }

abbrev pub failure_at : Bytes → Response
failure_at id = record { code = failed; failed_at = id; offset = 0 }

abbrev pub succeeds : ResultCode → Bool
succeeds ok = true
succeeds _ = false

-- The lease, or the code that refuses.
pub data Prepared : Type 0 where
  refuses : ResultCode → Prepared
  holds : List Replica → Prepared

abbrev secondaries_of : Option LeaseInfo → List Replica
secondaries_of none = []
secondaries_of (some info) = info.secondaries

unfoldable pub prepare_mutation : Server → ℤ → ℕ → ℕ → Prepared
prepare_mutation s now handle version = elim (version_of s.store handle) [
  | none ↦ refuses no_such_chunk
  | some current ↦
      if not (current == version)
      then refuses stale_version
      else let checked = check s.leases now handle in
        elim checked.0 [
          | not_held ↦ refuses not_primary
          | expired ↦ refuses lease_expired
          | primary ↦ holds (secondaries_of checked.1)
        ]
]

-- The version that a reader asks for, and the answer with its bytes; none where the code throws.
unfoldable pub read_request :
    (ℕ → Bytes → ℕ → ℕ) → Faults → Server → ℕ → ℕ → ℕ → ℕ → Server × Option (ResultCode × Bytes)
read_request zlib faults s handle version offset len = elim (version_of s.store handle) [
  | none ↦ (s, some (no_such_chunk, []))
  | some current ↦
      let done = ChunkStore.read zlib faults s.store handle offset len in
      if ltb current version
      then (s, some (stale_version, []))
      else (record s { store = done.0 }, done.1)
]

-- The answer after `forward`, with the secondary that failed, if there is one.
abbrev pub forwarded : Option Bytes → Response → Response
forwarded none done = done
forwarded (some id) done = failure_at id

module _ (zlib : ℕ → Bytes → ℕ → ℕ) (faults : Faults)
    (forward : ApplyMutationRequest → List Replica → Option Bytes) where
  unfoldable pub write_request : Server → ℤ → ℕ → ℕ → ℕ → BufferKey → Server × Response
  write_request s now handle version offset key = elim (prepare_mutation s now handle version) [
    | refuses code ↦ (s, answer code)
    | holds secondaries ↦ elim (size_of s.buffer key) [
      | none ↦ (s, answer data_missing)
      | some size ↦
          if ltb s.chunk_size ((offset + size) % u64_mod)
          then (s, answer out_of_range)
          else let b = (take_data s.buffer key).0 in
            elim (take_data s.buffer key).1 [
              | none ↦ (record s { buffer = b }, answer data_missing)
              | some payload ↦
                  let numbered = next_serial s.leases handle in
                  let written = ChunkStore.write zlib faults s.store handle offset payload in
                  let s' : Server = record s {
                    buffer = b;
                    leases = numbered.0;
                    store = written.0;
                  } in
                  let apply : ApplyMutationRequest = record {
                    handle = handle;
                    version = version;
                    serial = numbered.1;
                    kind = writes;
                    offset = offset;
                    key = key;
                  } in
                  if not (succeeds written.1)
                  then (s', failure_at s.id)
                  else (s', forwarded (forward apply secondaries) (answer ok))
            ]
    ]
  ]

  -- The part of `RecordAppend` that has the data and the length of the chunk.
  unfoldable pub append_at :
      Server → ℕ → ℕ → BufferKey → List Replica → Bytes → ℕ → Server × Response
  append_at s handle version key secondaries payload current =
      let numbered = next_serial s.leases handle in
      let apply : ApplyMutationRequest = record {
        handle = handle;
        version = version;
        serial = numbered.1;
        kind = writes;
        offset = current;
        key = key;
      } in
      let padded = pad zlib faults s.store handle current in
      let written = ChunkStore.write zlib faults s.store handle current payload in
      let after_pad : Server = record s { leases = numbered.0; store = padded.0 } in
      let after_write : Server = record s { leases = numbered.0; store = written.0 } in
      if ltb s.chunk_size ((current + length payload) % u64_mod)
      then if not (succeeds padded.1) then (after_pad, failure_at s.id) else (
        after_pad,
        forwarded (forward (record apply { kind = pads }) secondaries) (answer retry_next_chunk),
      )
      else if not (succeeds written.1)
      then (after_write, failure_at s.id)
      else (
        after_write,
        forwarded (forward apply secondaries)
            (record { code = ok; failed_at = []; offset = current }),
      )

  unfoldable pub record_append : Server → ℤ → ℕ → ℕ → BufferKey → Server × Response
  record_append s now handle version key = elim (prepare_mutation s now handle version) [
    | refuses code ↦ (s, answer code)
    | holds secondaries ↦
        let s' : Server = record s { buffer = (take_data s.buffer key).0 } in
        let found = length_of s.store handle in
        elim (take_data s.buffer key).1 [
          | none ↦ (s', answer data_missing)
          | some payload ↦
              if succeeds found.0
              then append_at s' handle version key secondaries payload found.1
              else (s', answer no_such_chunk)
        ]
  ]

unfoldable pub get_chunk_length : Server → ℕ → ResultCode × ℕ
get_chunk_length s handle = length_of s.store handle

-- A secondary applies what the primary forwards.
unfoldable pub apply_mutation :
    (ℕ → Bytes → ℕ → ℕ) → Faults → Server → ApplyMutationRequest → Server × ResultCode
apply_mutation zlib faults s req = elim (version_of s.store req.handle) [
  | none ↦ (s, no_such_chunk)
  | some current ↦ if not (current == req.version) then (s, stale_version) else elim req.kind [
    | pads ↦
        let padded = pad zlib faults s.store req.handle req.offset in
        (record s { store = padded.0 }, padded.1)
    | writes ↦
        let b = (take_data s.buffer req.key).0 in
        elim (take_data s.buffer req.key).1 [
          | none ↦ (record s { buffer = b }, data_missing)
          | some payload ↦
              let written = ChunkStore.write zlib faults s.store req.handle req.offset payload in
              if ltb s.chunk_size ((req.offset + length payload) % u64_mod)
              then (record s { buffer = b }, out_of_range)
              else (record s { buffer = b; store = written.0 }, written.1)
        ]
  ]
]

abbrev is_version : ℕ → Option ℕ → Bool
is_version version none = false
is_version version (some current) = current == version

unfoldable pub create_chunk : Faults → Server → ℕ → ℕ → ℕ → Server × ResultCode
create_chunk faults s handle version copy_from = elim (version_of s.store handle) [
  | some existing ↦ (s, if existing == version then ok else failed)
  | none ↦
      let created =
        if copy_from == 0
        then ChunkStore.create faults s.store handle version
        else create_copy faults s.store handle version copy_from in
      let s' : Server = record s { store = created.0 } in
      elim created.1 [
        | failed ↦ (s', if is_version version (version_of created.0 handle) then ok else failed)
        | code ↦ (s', code)
      ]
]

unfoldable pub grant_lease : Faults → Server → ℤ → ℕ → ℕ → ℤ → List Replica → Server × ResultCode
grant_lease faults s now handle version lease secondaries =
    let done = set_version faults s.store handle version in
    if not (succeeds done.1) then (record s { store = done.0 }, done.1) else (
      record s { store = done.0; leases = LeaseTable.grant s.leases now handle lease secondaries },
      ok,
    )

unfoldable pub revoke_lease : Server → ℕ → Server × ResultCode
revoke_lease s handle = (record s { leases = LeaseTable.revoke s.leases handle }, ok)

unfoldable pub update_version : Faults → Server → ℕ → ℕ → Server × ResultCode
update_version faults s handle version =
    let done = set_version faults s.store handle version in
    if succeeds done.1
    then (record s { store = done.0; leases = LeaseTable.revoke s.leases handle }, done.1)
    else (record s { store = done.0 }, done.1)
