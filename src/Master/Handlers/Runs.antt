-- ===== src/Master/Handlers/Runs.antt =====
-- The handlers of src/master/master.cc as threads that take turns at the state: a run is a sequence of
-- critical sections in any order.
use gfs_impl_cpp.Base.{ℕ, Option, none, some, List, [], ◌∷◌, ◌++◌}
use gfs_impl_cpp.Base.Bytes.{Bytes, bytes_key}
use gfs_impl_cpp.Base.Int.{ℤ}
use gfs_impl_cpp.Base.Map.{nat_key}
use gfs_impl_cpp.Common.Config.{Config}
use gfs_impl_cpp.Master.ChunkTable.{ChunkTable}
use gfs_impl_cpp.Master.Registry.{Servers}
use gfs_impl_cpp.Master.State.{MasterState, LogRecord, bump_version}
use gfs_impl_cpp.Master.Handlers.{
  Master, Status, create_section, remove_section, rename_section, snapshot_section,
}
use gfs_impl_cpp.Master.Handlers.Chunks.{alloc_section, add_section, copy_section}
use gfs_impl_cpp.Master.Handlers.Holders.{holder_section}
use gfs_impl_cpp.Master.Handlers.Beats.{HeartBeatRequest, heart_beat}
use gfs_impl_cpp.Master.Handlers.Gc.{gc_remove, gc_collect, sweep_dead}

-- One critical section. The lease manager's sections change the table and log new versions.
pub data Action : Type 0 where
  creates_file : Bytes → Action
  removes_file : Bytes → ℤ → Action
  renames_file : Bytes → Bytes → Action
  snapshots : Bytes → Bytes → List ℕ → ℤ → Action
  allocates : Action
  adds_chunk : Bytes → ℕ → ℕ → List Bytes → ℤ → Action
  copies_chunk : Bytes → ℕ → ℕ → List Bytes → ℤ → Action
  finds_holder : ℕ → ℤ → Action
  leases : (ChunkTable → ChunkTable) → List (ℕ × ℕ) → Action
  beats : HeartBeatRequest → ℤ → Action
  sweeps : ℤ → Action
  collects_file : Bytes → Action
  collects_chunks : Action

abbrev pub bumps : List (ℕ × ℕ) → List LogRecord
bumps [] = []
bumps ((handle, version) ∷ versions) = bump_version handle version ∷ bumps versions

abbrev pub removed : Master → Option (Master × Status) → Master
removed m none = m
removed m (some (m', _)) = m'

unfoldable pub perform : Config → Action → Master → Master
perform config (creates_file path) m = (create_section m path).0
perform config (removes_file path now) m = removed m (remove_section m path now)
perform config (renames_file source target) m = rename_section m source target
perform config (snapshots source target handles now) m =
    snapshot_section config m source target handles now
perform config allocates m = (alloc_section m).0
perform config (adds_chunk path index handle created now) m =
    (add_section config m path index handle created now).0
perform config (copies_chunk path index handle created now) m =
    (copy_section config m path index handle created now).0
perform config (finds_holder handle now) m = (holder_section config m handle now).0
perform config (leases change versions) m = record m {
  state = record m.state { chunks = change m.state.chunks };
  logged = m.logged ++ bumps versions;
}
perform config (beats req now) m = (heart_beat config m req now).0
perform config (sweeps now) m = (sweep_dead config m now).0
perform config (collects_file path) m = gc_remove m path
perform config collects_chunks m = gc_collect m

unfoldable pub run : Config → Master → List Action → Master
run config m [] = m
run config m (action ∷ actions) = run config (perform config action m) actions

-- A master that has not logged anything.
abbrev pub start : MasterState → Servers → Master
start s registry = record { state = s; registry = registry; logged = [] }
