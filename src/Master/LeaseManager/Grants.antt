-- ===== src/Master/LeaseManager/Grants.antt =====
-- `PrepareLocked` and `GrantSerialized` of src/master/lease_manager.cc.
use gfs_impl_cpp.Common.ResultCode.{ResultCode, ok, no_such_chunk, no_replicas}
use gfs_impl_cpp.Base.{
  ltb, if◌then◌else◌, is_some, length, ℕ, zero, suc, ◌+◌, ◌%◌, max, Bool, true, false, ◌||◌, Option,
  none, some, List, [], ◌∷◌,
}
use gfs_impl_cpp.Base.Bytes.{Bytes, bytes_key}
use gfs_impl_cpp.Base.Int.{ℤ, ◌+ℤ◌}
use gfs_impl_cpp.Base.Map.{nat_key, Map, Set, insert}
use gfs_impl_cpp.Common.Replica.{Replica}
use gfs_impl_cpp.Master.ChunkTable
use gfs_impl_cpp.Master.ChunkTable.{ChunkTable, ChunkMeta, Lease, is_empty, remove_location}
use gfs_impl_cpp.Master.State.{u64_mod, LogRecord, bump_version}
use gfs_impl_cpp.Common.Paths.{bytes_eq}
use gfs_impl_cpp.Common.Config.{Config}

pub record Attempt : Type 0 where
  pub primary : Bytes
  pub secondaries : List Bytes
  pub version : ℕ

-- The locations that the registry resolves.
unfoldable pub live_locations : (Bytes → Option Replica) → Map Bytes ℤ → List Bytes
live_locations resolve [] = []
live_locations resolve ((id, _) ∷ locations) =
    let rest = live_locations resolve locations in if is_some (resolve id) then id ∷ rest else rest

-- `id == meta->lease->primary` for some `id` of `live`.
unfoldable pub is_among : Bytes → List Bytes → Bool
is_among id [] = false
is_among id (other ∷ ids) = bytes_eq other id || is_among id ids

-- The present primary where it is live, the first live server otherwise.
abbrev pub choose_primary : Option Lease → Bytes → List Bytes → Bytes
choose_primary none first live = first
choose_primary (some lease) first live =
    if is_among lease.primary live then lease.primary else first

unfoldable pub all_but : Bytes → List Bytes → List Bytes
all_but primary [] = []
all_but primary (id ∷ ids) =
    let rest = all_but primary ids in if bytes_eq id primary then rest else id ∷ rest

abbrev pub first_of : List Bytes → Option Bytes
first_of [] = none
first_of (id ∷ ids) = some id

-- What `PrepareLocked` does with a chunk and its live locations: the attempt, where it is possible.
unfoldable pub attempt_for : Config → ChunkMeta → List Bytes → Option Attempt
attempt_for config meta live = elim (first_of live) [
  | none ↦ none
  | some first ↦
      let primary = choose_primary meta.lease first live in
      if ltb (length live) config.min_replicas_for_write
      then none
      else some (record {
        primary = primary;
        secondaries = all_but primary live;
        version = (meta.version + 1) % u64_mod;
      })
]

unfoldable pub prepare_locked :
    Config → (Bytes → Option Replica) → ChunkTable → ℕ → ChunkTable × Option Attempt
prepare_locked config resolve t handle = elim (ChunkTable.find t handle) [
  | none ↦ (t, none)
  | some meta ↦
      let attempt = attempt_for config meta (live_locations resolve meta.locations) in
      (
        if is_some attempt then ChunkTable.put t handle (record meta { granting = true }) else t,
        attempt,
      )
]

pub record GrantResult : Type 0 where
  pub code : ResultCode
  pub version : ℕ
  pub primary : Option Replica
  pub secondaries : List Replica

abbrev pub failed_with : ResultCode → GrantResult
failed_with code = record { code = code; version = 0; primary = none; secondaries = [] }

unfoldable pub resolve_all : (Bytes → Option Replica) → List Bytes → List Replica
resolve_all resolve [] = []
resolve_all resolve (id ∷ ids) =
    let rest = resolve_all resolve ids in
    elim (resolve id) [ none ↦ rest | some replica ↦ replica ∷ rest ]

-- The servers of the attempt that did not answer OK, as `std::set` orders them.
unfoldable pub failures : (Bytes → Bool) → List Bytes → Set Bytes
failures acked [] = []
failures acked (id ∷ ids) =
    let rest = failures acked ids in if acked id then rest else insert id tt rest

unfoldable pub remove_all : ChunkTable → ℕ → Set Bytes → ChunkTable
remove_all t handle [] = t
remove_all t handle ((id, _) ∷ ids) = remove_all (remove_location t handle id).0 handle ids

unfoldable pub clear_granting : ChunkTable → ℕ → ChunkTable
clear_granting t handle = elim (ChunkTable.find t handle) [
  | none ↦ t
  | some meta ↦ ChunkTable.put t handle (record meta { granting = false })
]

-- What a round meets: what other threads do to the table before the round and while the chunkservers
-- answer, which of them answer OK, and the registry and the clock in each critical section.
pub record Round : Type 0 where
  pub before : ChunkTable → ChunkTable
  pub prepare_resolve : Bytes → Option Replica
  pub during : ChunkTable → ChunkTable
  pub acked : Bytes → Bool
  pub resolve : Bytes → Option Replica
  pub now : ℤ

-- The table, the result, and the records appended to the log.
pub record Outcome : Type 0 where
  pub table : ChunkTable
  pub result : GrantResult
  pub logged : List LogRecord

pub data Settled : Type 0 where
  done : Outcome → Settled
  again : ChunkTable → Settled

unfoldable pub grant_now : Config → Round → ChunkTable → ℕ → Attempt → ChunkMeta → Outcome
grant_now config round t handle attempt meta =
    let version = max meta.version attempt.version in
    record {
      table = ChunkTable.put t handle (record meta {
        version = version;
        granting = false;
        lease = some (record {
          primary = attempt.primary;
          expiry = round.now +ℤ config.lease_duration;
          revoked = false;
        });
      });
      result = record {
        code = ok;
        version = version;
        primary = round.resolve attempt.primary;
        secondaries = resolve_all round.resolve attempt.secondaries;
      };
      logged = bump_version handle version ∷ [];
    }

-- The second critical section of a round.
unfoldable pub settle : Config → Round → ChunkTable → ℕ → Attempt → Settled
settle config round t handle attempt = elim (ChunkTable.find t handle) [
  | none ↦ done (record { table = t; result = failed_with no_such_chunk; logged = [] })
  | some meta ↦
      let failed = failures round.acked (attempt.primary ∷ attempt.secondaries) in
      if is_empty failed
      then done (grant_now config round t handle attempt meta)
      else again (remove_all t handle failed)
]

-- One round: the first critical section, the calls, and the second critical section.
unfoldable pub grant_round : Config → Round → ChunkTable → ℕ → Settled
grant_round config round t handle =
    let prepared = prepare_locked config round.prepare_resolve (round.before t) handle in
    let t' = round.during prepared.0 in
    elim prepared.1 [
      | none ↦ done (record {
        table = clear_granting t' handle;
        result = failed_with no_replicas;
        logged = [];
      })
      | some attempt ↦ settle config round t' handle attempt
    ]

-- The rounds from number `i` on, `fuel` of them; `last` is what other threads do before the final
-- `clear_granting`.
unfoldable pub grant_from :
    Config → (ℕ → Round) → (ChunkTable → ChunkTable) → ℕ → ℕ → ChunkTable → ℕ → Outcome
grant_from config rounds last zero i t handle = record {
  table = clear_granting (last t) handle;
  result = failed_with no_replicas;
  logged = [];
}
grant_from config rounds last (suc fuel) i t handle =
    elim (grant_round config (rounds i) t handle) [
      | done outcome ↦ outcome
      | again t' ↦ grant_from config rounds last fuel (i + 1) t' handle
    ]

unfoldable pub grant_serialized :
    Config → (ℕ → Round) → (ChunkTable → ChunkTable) → ChunkTable → ℕ → Outcome
grant_serialized config rounds last t handle = grant_from config rounds last 8 0 t handle
