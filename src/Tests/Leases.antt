-- ===== src/Tests/Leases.antt =====
-- Leases on both sides, and the registry.
use gfs_impl_cpp.Base.{ℕ, ◌+◌, ◌≡◌, refl, true, false, ◌||◌, some, [], ◌∷◌, arith, ℕ_discrete}
use gfs_impl_cpp.Base.Bytes.{Bytes, bytes, bytes_key}
use gfs_impl_cpp.Base.Int.{pos}
use gfs_impl_cpp.Base.Map.{nat_key, contains}
use gfs_impl_cpp.Common.Paths.{bytes_eq}
use gfs_impl_cpp.Master.ChunkTable.{ChunkTable, ChunkMeta, fresh_meta}
use gfs_impl_cpp.Base.{none, Option, ltb, not, ◌&&◌, ◌||◌, if◌then◌else◌}
use gfs_impl_cpp.Base.Int.{ℤ, ◌+ℤ◌, ◌-ℤ◌, ltb_ℤ}
use gfs_impl_cpp.Common.Replica.{Replica}
use gfs_impl_cpp.Chunkserver.LeaseTable
use gfs_impl_cpp.Chunkserver.LeaseTable.{
  LeaseTable, not_held, primary, write_slot, grant, extend, check, next_serial, handles_of_slots,
  handles_to_extend,
}
use gfs_impl_cpp.Chunkserver.LeaseTable.Serials
use gfs_impl_cpp.Chunkserver.LeaseTable.Serials.{
  extends, revokes, serials, taken, next_serial-run, check-revoke,
}
use gfs_impl_cpp.Master.Registry.{
  ChunkserverInfo, Servers, touch, get, resolve, sweep, alive_servers,
}
use gfs_impl_cpp.Master.Registry.Sweeps.{late, names, resolve-sweep, resolve-touch}
use gfs_impl_cpp.Common.Config.{Config}
use gfs_impl_cpp.Master.LeaseManager.{is_valid, is_pending_expiry, wait_until, extend_locked}
use gfs_impl_cpp.Common.ResultCode.{ok}
use gfs_impl_cpp.Master.LeaseManager.Grants.{
  Round, grant_serialized, prepare_locked, attempt_for, live_locations, is_among, all_but,
  resolve_all, failures, remove_all, clear_granting, grant_now, settle, grant_round, grant_from,
}
use gfs_impl_cpp.Master.LeaseManager.Rounds.{IsInRound, grant_serialized-IsGranted}
use gfs_impl_cpp.Master.LeaseManager.Revokes.{revoke_begin, revoke_end, revoke}
use gfs_impl_cpp.Master.Handlers.Meanwhile.{
  Section, beats, clears, settles, after, run, is_valid-revoke,
}
use gfs_impl_cpp.Master.Handlers.Beats.{
  beat_section, report_all, miss_all, miss_one, corrupt_all, extend_all, extend_one, regrant_if,
  report_one, report_current, adopt_version, valid_now,
}
use gfs_impl_cpp.Base.{List}
use gfs_impl_cpp.Master.ChunkTable.{held_by_server, add_location}
use gfs_impl_cpp.Master.ChunkTable
use gfs_impl_cpp.Master.LeaseManager.Safety.{check-is_valid, wait_until-is_valid}
use gfs_impl_cpp.Master.ChunkTable.{Lease, drop_held, remove_location}
use gfs_impl_cpp.Tests.{strings, state}

leases : Unit {0}
unfolding state ◌+ℤ◌ ◌-ℤ◌ write_slot grant extend LeaseTable.revoke check next_serial
    handles_of_slots handles_to_extend touch get resolve sweep alive_servers is_valid
    is_pending_expiry wait_until extend_locked grant_serialized prepare_locked attempt_for
    live_locations is_among all_but resolve_all failures remove_all clear_granting grant_now settle
    grant_round grant_from drop_held remove_location
leases = tt

sections : Unit {0}
unfolding leases revoke_begin revoke_end revoke run after beat_section report_all miss_all miss_one
    corrupt_all extend_all extend_one regrant_if held_by_server report_one report_current
    adopt_version add_location
sections = tt

abbrev no_leases : LeaseTable
no_leases = record { skew_margin = pos 5; slots = [] }

abbrev granted : LeaseTable
granted = grant no_leases (pos 100) 7 (pos 60) []

-- The lease runs to 155 for the chunkserver.
lease_runs :
    ((check granted (pos 155) 7).0 ≡ primary) × ((check granted (pos 156) 7).0 ≡ LeaseTable.expired)
unfolding leases
lease_runs = (refl, refl)

first_serial : (next_serial granted 7).1 ≡ 1
unfolding leases
first_serial = refl

next_serial-run_example :
    (next_serial
      (Serials.run (next_serial granted 7).0 (serials 7 ∷ serials 8 ∷ revokes 7 ∷ []))
      7).1
    ≡ (next_serial granted 7).1 + taken 7 (serials 7 ∷ serials 8 ∷ revokes 7 ∷ []) + 1
unfolding ℕ_discrete
next_serial-run_example =
    next_serial-run granted (serials 7 ∷ serials 8 ∷ revokes 7 ∷ []) 7
      (rw first_serial (omega arith))

check-revoke_example :
    check
      (Serials.run (LeaseTable.revoke granted 7) (extends (pos 110) 7 (pos 60) ∷ serials 7 ∷ []))
      (pos 111)
      7
    ≡ (not_held, none)
check-revoke_example =
    check-revoke granted (extends (pos 110) 7 (pos 60) ∷ serials 7 ∷ []) 7 (pos 111) (tt, (tt, tt))

abbrev server : ℤ → ChunkserverInfo
server when = record {
  id = bytes "s1";
  address = bytes "10.0.0.1:1";
  rack = bytes "r";
  last_heartbeat = when;
  alive = true;
}

abbrev servers : Servers
servers = (bytes "s1", server (pos 10)) ∷ (bytes "s2", server (pos 50)) ∷ []

resolve-sweep_example :
    let late_one = late (pos 30) (pos 60) (get servers (bytes "s1")) in
    (names (sweep (pos 30) (pos 60) servers).1 (bytes "s1") ≡ late_one)
    × (resolve (sweep (pos 30) (pos 60) servers).0 (bytes "s1")
        ≡ (if late_one then none else resolve servers (bytes "s1")))
    × (late_one ≡ true
        → names (sweep (pos 30) (pos 90) (sweep (pos 30) (pos 60) servers).0).1 (bytes "s1")
          ≡ false)
resolve-sweep_example =
    resolve-sweep (pos 30) (pos 60) (pos 90) servers (bytes "s1")
      (unfold strings in ((refl, tt), (tt, tt)))

resolve-touch_example :
    resolve
      (sweep (pos 30) (pos 60) (touch servers (bytes "s1") (bytes "a") (bytes "r") (pos 40)).0).0
      (bytes "s1")
    ≡ (if ltb_ℤ (pos 30) (pos 60 -ℤ pos 40)
        then none
        else some (record { chunkserver_id = bytes "s1"; address = bytes "a"; rack = bytes "r" }))
resolve-touch_example =
    resolve-touch servers (bytes "s1") (bytes "a") (bytes "r") (pos 40) (pos 30) (pos 60)

abbrev config : Config
config = record {
  chunk_size = 64;
  max_record_append_size = 0;
  replication_goal = 2;
  min_replicas_for_write = 1;
  lease_duration = pos 60;
  lease_clock_skew_margin = pos 5;
  heartbeat_interval = pos 3;
  chunkserver_dead_timeout = pos 15;
  deleted_file_retention = 86400000;
}

abbrev replica : Bytes → Option Replica
replica id = some (record { chunkserver_id = id; address = id; rack = [] })

abbrev located_chunk : ChunkTable
located_chunk = record {
  chunks =
      (7, record fresh_meta { locations = (bytes "s1", pos 1) ∷ (bytes "s2", pos 2) ∷ [] }) ∷ [];
  held_by = (bytes "s1", (7, tt) ∷ []) ∷ (bytes "s2", (7, tt) ∷ []) ∷ [];
}

-- In the first round "s2" does not answer.
abbrev rounds : ℕ → Round
rounds i = record {
  before = λ t. t;
  prepare_resolve = replica;
  during = λ t. t;
  acked = λ id. ltb 0 i || bytes_eq id (bytes "s1");
  resolve = replica;
  now = pos (100 + i);
}

second_round : (grant_serialized config rounds (λ t. t) located_chunk 7).result.code ≡ ok
unfolding leases
second_round = refl

grant_serialized-IsGranted_example :
    IsInRound config rounds located_chunk 0 8 7
      (grant_serialized config rounds (λ t. t) located_chunk 7)
grant_serialized-IsGranted_example =
    grant_serialized-IsGranted config rounds (λ t. t) located_chunk 7 second_round

abbrev lease : Lease
lease = record { primary = bytes "s1"; expiry = pos 102 +ℤ pos 60; revoked = false }

abbrev leased : ChunkMeta
leased = record fresh_meta { locations = (bytes "s1", pos 1) ∷ []; lease = some lease }

check-is_valid_example :
    is_valid config leased (pos 150) ≡ (not false && contains (bytes "s1") leased.locations)
check-is_valid_example =
    check-is_valid config no_leases 7 true [] leased lease (pos 102) (pos 150) (pos 100) (pos 148)
      refl refl refl (unfold leases in omega arith) (unfold leases in refl)

wait_until-is_valid_example :
    (is_valid config leased (pos 1000168) ≡ false)
    × (is_pending_expiry config leased (pos 1000168) ≡ false)
wait_until-is_valid_example =
    wait_until-is_valid config leased lease (pos 1000168) refl (unfold leases in omega arith)

abbrev leased_chunk : ChunkTable
leased_chunk = record { chunks = (7, leased) ∷ []; held_by = (bytes "s1", (7, tt) ∷ []) ∷ [] }

abbrev after_revoke : ChunkMeta
after_revoke = record leased { lease = some (record lease { revoked = true }) }

-- While the primary is called, it sends a heartbeat that asks for an extension of its lease; it does not
-- answer the call.
abbrev meanwhile : List Section
meanwhile =
    beats
      (record {
        chunkserver_id = bytes "s1";
        address = bytes "a";
        rack = bytes "r";
        chunks = record { handle = 7; version = leased.version } ∷ [];
        lease_extension_requests = 7 ∷ [];
        corrupt = [];
      })
      (pos 120)
    ∷ clears 7
    ∷ []

revoked :
    ChunkTable.find
      (revoke config (run config meanwhile) (λ id. false) leased_chunk [] 7 (pos 120)).0
      7
    ≡ some after_revoke
unfolding sections
revoked = refl

is_valid-revoke_example : is_valid config after_revoke (pos 121) ≡ false
is_valid-revoke_example =
    is_valid-revoke config meanwhile (λ id. false) leased_chunk [] 7 (pos 120) (pos 121)
      after_revoke (tt, (tt, tt)) revoked

abbrev regranted : List Section
regranted =
    settles (rounds 1) 7 (record { primary = bytes "s1"; secondaries = []; version = 1 }) ∷ []

-- A regrant that settles while the primary is called leaves a valid lease behind the revocation.
revoke_races :
    let t = (revoke config (run config regranted) (λ id. false) leased_chunk [] 7 (pos 120)).0 in
    valid_now config (pos 121) (ChunkTable.find t 7) ≡ true
unfolding sections
revoke_races = refl
