-- ===== src/Master/Handlers/Gc.antt =====
-- src/master/master.cc: `SweepDead` and `GcPass`. Regrants are returned for the pool.
use gfs_impl_cpp.Master.Handlers.Beats.{valid_now}
use gfs_impl_cpp.Base.{
  if◌then◌else◌, ℕ, ◌/◌, Bool, false, not, ◌&&◌, Option, none, some, List, [], ◌∷◌, ◌++◌,
}
use gfs_impl_cpp.Base.Bytes.{Bytes, bytes_key}
use gfs_impl_cpp.Base.Int.{ℤ, pos, ◌+ℤ◌, ltb_ℤ}
use gfs_impl_cpp.Base.Map.{nat_key, Map, Set, contains}
use gfs_impl_cpp.Common.Config.{Config}
use gfs_impl_cpp.Common.Paths.{parse_hidden_name}
use gfs_impl_cpp.Master.Namespace
use gfs_impl_cpp.Master.Namespace.{Files}
use gfs_impl_cpp.Master.ChunkTable
use gfs_impl_cpp.Master.ChunkTable.{ChunkTable, ChunkMeta, remove_location, held_by_server}
use gfs_impl_cpp.Master.Registry.{sweep}
use gfs_impl_cpp.Master.State.{removes, drop_chunk, apply_remove, apply_drop_chunk}
use gfs_impl_cpp.Master.Handlers.{Master, log, all_handles, handle_set}

-- The handles of a dead server lose it; the regrants follow those collected before.
unfoldable pub lose_all : Config → Bytes → ℤ → Set ℕ → ChunkTable → List ℕ → ChunkTable × List ℕ
lose_all config server now [] t regrants = (t, regrants)
lose_all config server now ((handle, _) ∷ handles) t regrants =
    let t' = (remove_location t handle server).0 in
    lose_all config server now handles t' (
      if valid_now config now (ChunkTable.find t' handle)
      then regrants ++ handle ∷ []
      else regrants)

unfoldable pub lose_servers : Config → ℤ → List Bytes → ChunkTable → List ℕ → ChunkTable × List ℕ
lose_servers config now [] t regrants = (t, regrants)
lose_servers config now (id ∷ dead) t regrants =
    let lost = lose_all config id now (held_by_server t id) t regrants in
    lose_servers config now dead lost.0 lost.1

unfoldable pub sweep_dead : Config → Master → ℤ → Master × List ℕ
sweep_dead config m now =
    let swept = sweep config.chunkserver_dead_timeout now m.registry in
    let lost = lose_servers config now swept.1 m.state.chunks [] in
    (record m { state = record m.state { chunks = lost.0 }; registry = swept.0 }, lost.1)

-- `ParseHiddenName(path, &stamp, nullptr) && stamp + retention_seconds <= now_seconds`
abbrev pub is_expired : Config → ℤ → Option (ℤ × Bytes) → Bool
is_expired config now none = false
is_expired config now (some (stamp, _)) =
    not (ltb_ℤ now (stamp +ℤ pos (config.deleted_file_retention / 1000)))

unfoldable pub expired_paths : Config → ℤ → Files → List Bytes
expired_paths config now [] = []
expired_paths config now ((path, _) ∷ files) =
    let rest = expired_paths config now files in
    if is_expired config now (parse_hidden_name path) then path ∷ rest else rest

-- The section of `GcPass` for one expired path.
unfoldable pub gc_remove : Master → Bytes → Master
gc_remove m path =
    if not (Namespace.exists m.state.files path)
    then m
    else log (record m { state = apply_remove m.state path }) (removes path)

unfoldable pub orphans : Set ℕ → Map ℕ ChunkMeta → List ℕ
orphans referenced [] = []
orphans referenced ((handle, meta) ∷ chunks) =
    let rest = orphans referenced chunks in
    if not meta.pending && not (contains handle referenced) then handle ∷ rest else rest

unfoldable pub drop_orphans : Master → List ℕ → Master
drop_orphans m [] = m
drop_orphans m (handle ∷ handles) =
    drop_orphans (log (record m { state = apply_drop_chunk m.state handle }) (drop_chunk handle))
      handles

-- The last section of `GcPass`.
unfoldable pub gc_collect : Master → Master
gc_collect m =
    drop_orphans m (orphans (handle_set (all_handles m.state.files)) m.state.chunks.chunks)

unfoldable pub gc_removes : (Master → Master) → Master → List Bytes → Master
gc_removes during m [] = m
gc_removes during m (path ∷ paths) = gc_removes during (gc_remove (during m) path) paths

-- `GcPass`; `during` is what other threads do before each of its sections but the first.
unfoldable pub gc_pass : Config → (Master → Master) → Master → ℤ → Master
gc_pass config during m now =
    gc_collect (during (gc_removes during m (expired_paths config now m.state.files)))
