-- ===== src/Tests/Requests.antt =====
-- The master's handlers.
use gfs_impl_cpp.Base.{is_some, ℕ, ◌≤◌, ◌≡◌, refl, true, false, some, List, [], ◌∷◌, arith}
use gfs_impl_cpp.Base.Bytes.{Bytes, bytes, bytes_key}
use gfs_impl_cpp.Base.Int.{pos}
use gfs_impl_cpp.Base.Map.{nat_key, lookup, IsSorted}
use gfs_impl_cpp.Common.Config.{Config}
use gfs_impl_cpp.Common.Paths.{parse_hidden_name}
use gfs_impl_cpp.Master.ChunkTable
use gfs_impl_cpp.Master.ChunkTable.{ChunkTable, fresh_meta}
use gfs_impl_cpp.Master.Namespace
use gfs_impl_cpp.Master.State.{MasterState, creates, renames, alloc_handle, add_chunk, drop_chunk}
use gfs_impl_cpp.Master.State.Refcounts.{refs}
use gfs_impl_cpp.Master.Handlers.{
  status_ok, rename_section, remove_section, remove, free_hidden_name, create_section, all_handles,
  handle_set,
}
use gfs_impl_cpp.Master.Handlers.Chunks.{alloc_section, add_section, add_locations}
use gfs_impl_cpp.Master.Handlers.Gc.{gc_collect, orphans, drop_orphans}
use gfs_impl_cpp.Master.Handlers.Replay.{SameFiles, apply_all}
use gfs_impl_cpp.Master.Handlers.Runs.{
  Action, run, perform, start, creates_file, removes_file, allocates, adds_chunk, collects_chunks,
}
use gfs_impl_cpp.Master.Handlers.Logged.{apply_all-run}
use gfs_impl_cpp.Master.Handlers.Removal.{remove_section-hides, remove-IsSome}
use gfs_impl_cpp.Master.Handlers.Collection.{collected, lookup-gc_collect}
use gfs_impl_cpp.Tests.{tree, state, files, files-IsSorted}

abbrev config : Config
config = record {
  chunk_size = 1024;
  max_record_append_size = 0;
  replication_goal = 3;
  min_replicas_for_write = 1;
  lease_duration = pos 60000;
  lease_clock_skew_margin = pos 5000;
  heartbeat_interval = pos 3000;
  chunkserver_dead_timeout = pos 15000;
  deleted_file_retention = 1000;
}

abbrev held : ChunkTable
held = record {
  chunks =
      (1, record fresh_meta { refcount = 1 })
      ∷ (2, record fresh_meta { refcount = 2 })
      ∷ (3, record fresh_meta { refcount = 1 })
      ∷ (7, fresh_meta)
      ∷ (8, record fresh_meta { pending = true })
      ∷ [];
  held_by = [];
}

abbrev serving : MasterState
serving = record { files = files; chunks = held; next_handle = 9 }

abbrev work : List Action
work =
    creates_file (bytes "/b")
    ∷ allocates
    ∷ adds_chunk (bytes "/b") 0 9 (bytes "cs" ∷ []) (pos 0)
    ∷ removes_file (bytes "/a") (pos 5)
    ∷ collects_chunks
    ∷ []

-- What the run logs.
logged_work :
    (run config (start serving []) work).logged
    ≡ creates (bytes "/b")
      ∷ alloc_handle 9
      ∷ add_chunk (bytes "/b") 0 9
      ∷ renames (bytes "/a") (bytes "/.deleted.5.a")
      ∷ drop_chunk 7
      ∷ []
unfolding state run perform create_section alloc_section add_section remove_section free_hidden_name
    gc_collect drop_orphans orphans handle_set all_handles add_locations ChunkTable.add_location
    ChunkTable.handles_of ChunkTable.erase_chunk ChunkTable.drop_all
logged_work = refl

apply_all-run_example :
    SameFiles
      (apply_all serving (run config (start serving []) work).logged)
      (run config (start serving []) work).state
apply_all-run_example = apply_all-run config serving [] work

remove_section-hides_example :
    (hidden : Bytes) × (k : ℕ) × (remove_section (start serving []) (bytes "/a") (pos 5)
      ≡ some (rename_section (start serving []) (bytes "/a") hidden, status_ok))
    × (Namespace.exists files hidden ≡ false)
    × (parse_hidden_name hidden ≡ some (pos k, bytes "/a"))
    × (5 ≤ k)
unfolding tree
remove_section-hides_example =
    remove_section-hides (bytes "/a") refl (λ e. ground (arith, e)) (start serving []) 5 refl refl
      files-IsSorted (omega arith)

remove-IsSome_example : is_some (remove (start serving []) (bytes "/d/x") (pos 5)) ≡ true
remove-IsSome_example =
    remove-IsSome (start serving []) (bytes "/d/x") 5 files-IsSorted (omega arith)

held-IsSorted : IsSorted held.chunks
held-IsSorted = (
  (refl, (refl, (refl, (refl, tt)))),
  ((refl, (refl, (refl, tt))), ((refl, (refl, tt)), ((refl, tt), (tt, tt)))),
)

lookup-gc_collect_example :
    ((gc_collect (start serving [])).state.files ≡ files)
    × ((h : ℕ)
        → lookup h (gc_collect (start serving [])).state.chunks.chunks
          ≡ collected (refs h files) (lookup h held.chunks))
lookup-gc_collect_example = lookup-gc_collect (start serving []) held-IsSorted
