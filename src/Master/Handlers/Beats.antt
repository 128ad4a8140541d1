-- ===== src/Master/Handlers/Beats.antt =====
-- src/master/master.cc: `HeartBeat`. Regrants are returned for the pool.
use gfs_impl_cpp.Base.{
  ltb, if◌then◌else◌, ℕ, ◌+◌, ◌%◌, Bool, true, false, ◌&&◌, ◌||◌, Option, none, some, List, [], ◌∷◌,
  ◌++◌,
}
use gfs_impl_cpp.Base.Bytes.{Bytes, bytes_key}
use gfs_impl_cpp.Base.Int.{ℤ, ◌+ℤ◌, ◌-ℤ◌, ltb_ℤ}
use gfs_impl_cpp.Base.Map.{nat_key, Set, lookup, insert, contains}
use gfs_impl_cpp.Common.Config.{Config}
use gfs_impl_cpp.Master.ChunkTable
use gfs_impl_cpp.Master.ChunkTable.{
  ChunkTable, ChunkMeta, add_location, remove_location, held_by_server,
}
use gfs_impl_cpp.Master.Registry.{touch}
use gfs_impl_cpp.Master.State.{u64_mod, LogRecord, bump_version}
use gfs_impl_cpp.Master.LeaseManager.{is_valid, extend_locked}
use gfs_impl_cpp.Master.Handlers.{Master}

pub record ChunkReport : Type 0 where
  pub handle : ℕ
  pub version : ℕ

pub record HeartBeatRequest : Type 0 where
  pub chunkserver_id : Bytes
  pub address : Bytes
  pub rack : Bytes
  pub chunks : List ChunkReport
  pub lease_extension_requests : List ℕ
  pub corrupt : List ℕ

-- The section's table and what it collects.
pub record Beat : Type 0 where
  pub table : ChunkTable
  pub deletes : List ℕ
  pub reported : Set ℕ
  pub regrants : List ℕ
  pub bumped : List LogRecord
  pub extended : List ℕ

abbrev pub valid_now : Config → ℤ → Option ChunkMeta → Bool
valid_now config now none = false
valid_now config now (some meta) = is_valid config meta now

-- `if (... && leases_.IsValid(*meta, t)) regrants.push_back(handle);` for the chunk as it is now.
unfoldable pub regrant_if : Config → ℤ → Bool → ℕ → Beat → Beat
regrant_if config now changed handle b =
    if changed && valid_now config now (ChunkTable.find b.table handle)
    then record b { regrants = b.regrants ++ handle ∷ [] }
    else b

-- A report on a chunk whose lease is being granted.
unfoldable pub report_granting : Bytes → ℤ → ChunkReport → ChunkMeta → Beat → Beat
report_granting server now report meta b =
    if ltb ((report.version + 1) % u64_mod) meta.version
    then record b {
      table = (remove_location b.table report.handle server).0;
      deletes = b.deletes ++ report.handle ∷ [];
    }
    else record b {
      table = (add_location b.table report.handle server now).0;
      reported = insert report.handle tt b.reported;
    }

-- A report of a version below the master's.
unfoldable pub report_stale : Config → Bytes → ℤ → ChunkReport → Beat → Beat
report_stale config server now report b =
    let removed = remove_location b.table report.handle server in
    regrant_if config now removed.1 report.handle
      (record b { table = removed.0; deletes = b.deletes ++ report.handle ∷ [] })

-- `meta->version = report.version(); Log(record);` for a version above the master's.
unfoldable pub adopt_version : ChunkReport → ChunkMeta → Beat → Beat
adopt_version report meta b =
    if ltb meta.version report.version
    then record b {
      table = ChunkTable.put b.table report.handle (record meta { version = report.version });
      bumped = b.bumped ++ bump_version report.handle report.version ∷ [];
    }
    else b

unfoldable pub report_current : Config → Bytes → ℤ → ChunkReport → ChunkMeta → Beat → Beat
report_current config server now report meta b =
    let b' = adopt_version report meta b in
    let added = add_location b'.table report.handle server now in
    regrant_if config now added.1 report.handle
      (record b' { table = added.0; reported = insert report.handle tt b.reported })

unfoldable pub report_one : Config → Bytes → ℤ → ChunkReport → Beat → Beat
report_one config server now report b = elim (ChunkTable.find b.table report.handle) [
  | none ↦ record b { deletes = b.deletes ++ report.handle ∷ [] }
  | some meta ↦
      if meta.granting
      then report_granting server now report meta b
      else if ltb report.version meta.version
      then report_stale config server now report b
      else report_current config server now report meta b
]

unfoldable pub report_all : Config → Bytes → ℤ → List ChunkReport → Beat → Beat
report_all config server now [] b = b
report_all config server now (report ∷ reports) b =
    report_all config server now reports (report_one config server now report b)

-- `since != end && t - since->second < config_.heartbeat_interval * 2`
abbrev pub in_grace : Config → ℤ → Option ℤ → Bool
in_grace config now none = false
in_grace config now (some since) =
    ltb_ℤ (now -ℤ since) (config.heartbeat_interval +ℤ config.heartbeat_interval)

-- A chunk that the server is known to hold and did not report.
unfoldable pub miss_one : Config → Bytes → ℤ → ℕ → Beat → Beat
miss_one config server now handle b = elim (ChunkTable.find b.table handle) [
  | none ↦ b
  | some meta ↦
      if contains handle b.reported || in_grace config now (lookup server meta.locations)
      then b
      else regrant_if config now true handle
          (record b { table = (remove_location b.table handle server).0 })
]

unfoldable pub miss_all : Config → Bytes → ℤ → Set ℕ → Beat → Beat
miss_all config server now [] b = b
miss_all config server now ((handle, _) ∷ known) b =
    miss_all config server now known (miss_one config server now handle b)

unfoldable pub corrupt_one : Config → Bytes → ℤ → ℕ → Beat → Beat
corrupt_one config server now handle b =
    let b' = record b { deletes = b.deletes ++ handle ∷ [] } in
    elim (ChunkTable.find b.table handle) [
      | none ↦ b'
      | some meta ↦
          regrant_if config now true handle
            (record b' { table = (remove_location b.table handle server).0 })
    ]

unfoldable pub corrupt_all : Config → Bytes → ℤ → List ℕ → Beat → Beat
corrupt_all config server now [] b = b
corrupt_all config server now (handle ∷ handles) b =
    corrupt_all config server now handles (corrupt_one config server now handle b)

unfoldable pub extend_one : Config → Bytes → ℤ → ℕ → Beat → Beat
extend_one config server now handle b = elim (ChunkTable.find b.table handle) [
  | none ↦ b
  | some meta ↦
      let extension = extend_locked config meta server now in
      if extension.1
      then record b {
        table = ChunkTable.put b.table handle extension.0;
        extended = b.extended ++ handle ∷ [];
      }
      else b
]

unfoldable pub extend_all : Config → Bytes → ℤ → List ℕ → Beat → Beat
extend_all config server now [] b = b
extend_all config server now (handle ∷ handles) b =
    extend_all config server now handles (extend_one config server now handle b)

unfoldable pub beat_section : Config → HeartBeatRequest → ℤ → ChunkTable → Beat
beat_section config req now t =
    let server = req.chunkserver_id in
    let b : Beat = record {
      table = t;
      deletes = [];
      reported = [];
      regrants = [];
      bumped = [];
      extended = [];
    } in
    let reported = report_all config server now req.chunks b in
    let missed = miss_all config server now (held_by_server t server) reported in
    extend_all config server now req.lease_extension_requests
      (corrupt_all config server now req.corrupt missed)

unfoldable pub heart_beat : Config → Master → HeartBeatRequest → ℤ → Master × Beat
heart_beat config m req now =
    let b = beat_section config req now m.state.chunks in
    (
      record {
        state = record m.state { chunks = b.table };
        registry = (touch m.registry req.chunkserver_id req.address req.rack now).0;
        logged = m.logged ++ b.bumped;
      },
      b,
    )
