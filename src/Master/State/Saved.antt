-- ===== src/Master/State/Saved.antt =====
-- Checkpoints of the master's state, `ToCheckpoint` and `Load`, and the counts that recovery sets up
-- with `RecomputeRefcounts` (src/master/master_state.cc). proto/master_state.proto has the messages.
pub mod Restored
use gfs_impl_cpp.Master.ChunkTable
use gfs_impl_cpp.Master.ChunkTable.{ChunkTable, ChunkMeta}
use gfs_impl_cpp.Master.Namespace
use gfs_impl_cpp.Master.Namespace.{Files}
use gfs_impl_cpp.Master.State.{MasterState, count_up, apply_alloc_handle}
use gfs_impl_cpp.Base.{if◌then◌else◌, ℕ, max, none, some, List, [], ◌∷◌}
use gfs_impl_cpp.Base.Bytes.{Bytes, bytes_key}
use gfs_impl_cpp.Base.Map.{nat_key, Map}

pub record FileEntry : Type 0 where
  pub path : Bytes
  pub chunk_handles : List ℕ

pub record ChunkEntry : Type 0 where
  pub handle : ℕ
  pub version : ℕ

pub record Checkpoint : Type 0 where
  pub next_chunk_handle : ℕ
  pub files : List FileEntry
  pub chunks : List ChunkEntry

unfoldable pub save_files : Files → List FileEntry
save_files [] = []
save_files ((path, meta) ∷ files) =
    record { path = path; chunk_handles = meta.chunks } ∷ save_files files

-- A chunk whose creation is pending is left out.
unfoldable pub save_chunks : Map ℕ ChunkMeta → List ChunkEntry
save_chunks [] = []
save_chunks ((handle, m) ∷ chunks) =
    let rest = save_chunks chunks in
    if m.pending then rest else record { handle = handle; version = m.version } ∷ rest

unfoldable pub to_checkpoint : MasterState → Checkpoint
to_checkpoint s = record {
  next_chunk_handle = s.next_handle;
  files = save_files s.files;
  chunks = save_chunks s.chunks.chunks;
}

unfoldable pub load_files : Files → List FileEntry → Files
load_files files [] = files
load_files files (e ∷ entries) =
    load_files (Namespace.insert_new files e.path (record { chunks = e.chunk_handles })).0 entries

unfoldable pub load_chunks : MasterState → List ChunkEntry → MasterState
load_chunks s [] = s
load_chunks s (e ∷ entries) =
    load_chunks
      (apply_alloc_handle (record s { chunks = ChunkTable.create s.chunks e.handle e.version })
        e.handle)
      entries

unfoldable pub load : Checkpoint → MasterState
load c =
    load_chunks
      (record {
        files = load_files [] c.files;
        chunks = ChunkTable.empty;
        next_handle = max 1 c.next_chunk_handle;
      })
      c.chunks

-- `chunks.ForEach([](uint64_t, ChunkMeta& meta) { meta.refcount = 0; });`
unfoldable pub zero_counts : Map ℕ ChunkMeta → Map ℕ ChunkMeta
zero_counts [] = []
zero_counts ((handle, m) ∷ chunks) = (handle, record m { refcount = 0 }) ∷ zero_counts chunks

-- `ChunkMeta& chunk = chunks.Create(handle, 1); chunk.refcount += 1;`
unfoldable pub create_count : ChunkTable → ℕ → ChunkTable
create_count t handle =
    let t' = ChunkTable.create t handle 1 in
    elim (ChunkTable.find t' handle) [ none ↦ t' | some m ↦ ChunkTable.put t' handle (count_up m) ]

unfoldable pub count_handles : MasterState → List ℕ → MasterState
count_handles s [] = s
count_handles s (handle ∷ handles) =
    count_handles (apply_alloc_handle (record s { chunks = create_count s.chunks handle }) handle)
      handles

unfoldable pub count_files : MasterState → Files → MasterState
count_files s [] = s
count_files s ((path, meta) ∷ files) = count_files (count_handles s meta.chunks) files

unfoldable pub recompute_refcounts : MasterState → MasterState
recompute_refcounts s =
    count_files (record s { chunks = record s.chunks { chunks = zero_counts s.chunks.chunks } })
      s.files
