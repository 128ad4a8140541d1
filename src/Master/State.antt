-- ===== src/Master/State.antt =====
-- src/master/master_state.h and master_state.cc: what a log record does to the master's state, and
-- the state's checkpoints. A `uint32_t` count and a `uint64_t` handle keep their wrap-around.
pub mod Refcounts
pub mod Counted
pub mod Copied
pub mod Records
pub mod Saved
use gfs_impl_cpp.Common.Paths.{bytes_eq, child_prefix}
use gfs_impl_cpp.Master.ChunkTable
use gfs_impl_cpp.Master.ChunkTable.{ChunkTable, ChunkMeta}
use gfs_impl_cpp.Master.Namespace
use gfs_impl_cpp.Master.Namespace.{Files, FileMeta}
use gfs_impl_cpp.Base.{
  ltb, ◌==◌, if◌then◌else◌, length, get_elem?, set, drop, ℕ, ◌+◌, ◌-◌, ◌%◌, ◌^◌, max, true, false,
  not, ◌&&◌, none, some, List, [], ◌∷◌, ◌++◌,
}
use gfs_impl_cpp.Base.Bytes.{Bytes, bytes_key}
use gfs_impl_cpp.Base.Map.{nat_key, insert}

abbrev pub u32_mod : ℕ
u32_mod = 2 ^ 32

abbrev pub u64_mod : ℕ
u64_mod = 2 ^ 64

pub record MasterState : Type 0 where
  pub files : Files
  pub chunks : ChunkTable
  pub next_handle : ℕ

pub data LogRecord : Type 0 where
  creates : Bytes → LogRecord
  renames : Bytes → Bytes → LogRecord
  removes : Bytes → LogRecord
  alloc_handle : ℕ → LogRecord
  add_chunk : Bytes → ℕ → ℕ → LogRecord
  replace_chunk : Bytes → ℕ → ℕ → LogRecord
  bump_version : ℕ → ℕ → LogRecord
  snapshot : Bytes → Bytes → LogRecord
  drop_chunk : ℕ → LogRecord
  body_not_set : LogRecord

-- `if (chunk != nullptr && chunk->refcount > 0) chunk->refcount -= 1;`
unfoldable pub unref : ChunkTable → ℕ → ChunkTable
unref t handle = elim (ChunkTable.find t handle) [
  | none ↦ t
  | some m ↦
      if ltb 0 m.refcount
      then ChunkTable.put t handle (record m { refcount = m.refcount - 1 })
      else t
]

unfoldable pub unref_all : ChunkTable → List ℕ → ChunkTable
unref_all t [] = t
unref_all t (handle ∷ handles) = unref_all (unref t handle) handles

abbrev pub count_up : ChunkMeta → ChunkMeta
count_up m = record m { refcount = (m.refcount + 1) % u32_mod }

-- `if (chunk != nullptr) chunk->refcount += 1;`
unfoldable pub ref : ChunkTable → ℕ → ChunkTable
ref t handle = elim (ChunkTable.find t handle) [
  | none ↦ t
  | some m ↦ ChunkTable.put t handle (count_up m)
]

unfoldable pub ref_all : ChunkTable → List ℕ → ChunkTable
ref_all t [] = t
ref_all t (handle ∷ handles) = ref_all (ref t handle) handles

-- `ChunkMeta& chunk = chunks.Create(handle, 1); chunk.pending = false; chunk.refcount += 1;`
unfoldable pub create_ref : ChunkTable → ℕ → ChunkTable
create_ref t handle =
    let t' = ChunkTable.create t handle 1 in
    elim (ChunkTable.find t' handle) [
      | none ↦ t'
      | some m ↦ ChunkTable.put t' handle (record (count_up m) { pending = false })
    ]

unfoldable pub apply_create : MasterState → Bytes → MasterState
apply_create s path = record s {
  files = (Namespace.insert_new s.files path (record { chunks = [] })).0;
}

unfoldable pub apply_rename : MasterState → Bytes → Bytes → MasterState
apply_rename s source target =
    if not (Namespace.exists s.files source) && not (Namespace.is_directory s.files source)
    then s
    else record s { files = Namespace.rename_subtree s.files source target }

unfoldable pub apply_remove : MasterState → Bytes → MasterState
apply_remove s path = elim (Namespace.find s.files path) [
  | none ↦ s
  | some meta ↦ record s {
    files = (Namespace.erase_file s.files path).0;
    chunks = unref_all s.chunks meta.chunks;
  }
]

unfoldable pub apply_alloc_handle : MasterState → ℕ → MasterState
apply_alloc_handle s handle = record s { next_handle = max s.next_handle ((handle + 1) % u64_mod) }

-- The body of `ApplyReplaceChunk` behind its guards.
unfoldable pub replace_at : MasterState → Bytes → FileMeta → ℕ → ℕ → ℕ → MasterState
replace_at s path meta index old handle =
    apply_alloc_handle
      (record s {
        files = insert path (record { chunks = set meta.chunks index handle }) s.files;
        chunks = create_ref (unref s.chunks old) handle;
      })
      handle

unfoldable pub apply_replace_chunk : MasterState → Bytes → ℕ → ℕ → MasterState
apply_replace_chunk s path index handle = elim (Namespace.find s.files path) [
  | none ↦ s
  | some meta ↦ elim (get_elem? meta.chunks index) [
    | none ↦ s
    | some old ↦ if old == handle then s else replace_at s path meta index old handle
  ]
]

-- The body of `ApplyAddChunk` at the end of the file's list.
unfoldable pub append_at : MasterState → Bytes → FileMeta → ℕ → MasterState
append_at s path meta handle =
    apply_alloc_handle
      (record s {
        files = insert path (record { chunks = meta.chunks ++ handle ∷ [] }) s.files;
        chunks = create_ref s.chunks handle;
      })
      handle

unfoldable pub apply_add_chunk : MasterState → Bytes → ℕ → ℕ → MasterState
apply_add_chunk s path index handle = elim (Namespace.find s.files path) [
  | none ↦ s
  | some meta ↦ elim (get_elem? meta.chunks index) [
    | some old ↦ if old == handle then s else apply_replace_chunk s path index handle
    | none ↦ if index == length meta.chunks then append_at s path meta handle else s
  ]
]

unfoldable pub apply_bump_version : MasterState → ℕ → ℕ → MasterState
apply_bump_version s handle version = elim (ChunkTable.find s.chunks handle) [
  | none ↦ s
  | some m ↦ record s {
    chunks = ChunkTable.put s.chunks handle (record m { version = max m.version version });
  }
]

abbrev pub copied_path : Bytes → Bytes → Bytes → Bytes
copied_path source target path =
    if bytes_eq path source
    then target
    else child_prefix target ++ drop (length (child_prefix source)) path

-- The loop of `ApplySnapshot` over the subtree.
unfoldable pub copy_all : MasterState → Bytes → Bytes → Files → MasterState
copy_all s source target [] = s
copy_all s source target ((path, meta) ∷ files) =
    let copied = copied_path source target path in
    copy_all
      (if Namespace.exists s.files copied then s else record s {
        chunks = ref_all s.chunks meta.chunks;
        files = (Namespace.insert_new s.files copied meta).0;
      })
      source target files

unfoldable pub apply_snapshot : MasterState → Bytes → Bytes → MasterState
apply_snapshot s source target = copy_all s source target (Namespace.subtree s.files source true)

unfoldable pub apply_drop_chunk : MasterState → ℕ → MasterState
apply_drop_chunk s handle = record s { chunks = ChunkTable.erase_chunk s.chunks handle }

unfoldable pub apply : MasterState → LogRecord → MasterState
apply s (creates path) = apply_create s path
apply s (renames source target) = apply_rename s source target
apply s (removes path) = apply_remove s path
apply s (alloc_handle handle) = apply_alloc_handle s handle
apply s (add_chunk path index handle) = apply_add_chunk s path index handle
apply s (replace_chunk path index handle) = apply_replace_chunk s path index handle
apply s (bump_version handle version) = apply_bump_version s handle version
apply s (snapshot source target) = apply_snapshot s source target
apply s (drop_chunk handle) = apply_drop_chunk s handle
apply s body_not_set = s
