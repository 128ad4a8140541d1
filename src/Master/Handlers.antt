-- ===== src/Master/Handlers.antt =====
-- src/master/master.h and master.cc: the requests on the namespace. A section of a handler that holds
-- the state's mutex is one function; the locks of the lock table and the waits for the log are left
-- out. `logged` is what was given to `OpLog::Append`, in order.
pub mod Chunks
pub mod Holders
pub mod Beats
pub mod Gc
pub mod Spared
pub mod Meanwhile
pub mod Placement
pub mod Replay
pub mod Bumped
pub mod Collection
pub mod Removal
pub mod Logged
pub mod Runs
use gfs_impl_cpp.Base.{
  if◌then◌else◌, is_some, length, ℕ, zero, suc, ◌+◌, Bool, true, false, not, ◌&&◌, ◌||◌, Option,
  none, some, List, [], ◌∷◌, ◌++◌,
}
use gfs_impl_cpp.Base.Bytes.{Bytes, bytes, bytes_key}
use gfs_impl_cpp.Base.Int.{ℤ, pos, ◌+ℤ◌}
use gfs_impl_cpp.Base.Map.{nat_key, Set, keys, insert}
use gfs_impl_cpp.Common.Config.{Config, effective_max_record_append_size}
use gfs_impl_cpp.Common.Paths.{
  root, bytes_eq, is_valid_path, is_hidden_path, hidden_name_for, is_ancestor_or_self,
}
use gfs_impl_cpp.Master.Namespace
use gfs_impl_cpp.Master.Namespace.{Files, ListEntry}
use gfs_impl_cpp.Master.ChunkTable
use gfs_impl_cpp.Master.ChunkTable.{ChunkTable}
use gfs_impl_cpp.Master.Registry.{Servers}
use gfs_impl_cpp.Master.State.{
  MasterState, LogRecord, creates, renames, removes, snapshot, apply_create, apply_rename,
  apply_remove, apply_snapshot,
}
use gfs_impl_cpp.Master.LeaseManager.{is_valid}

pub data StatusCode : Type 0 where
  ok : StatusCode
  invalid_argument : StatusCode
  not_found : StatusCode
  already_exists : StatusCode

pub record Status : Type 0 where
  pub code : StatusCode
  pub message : Bytes

abbrev pub status_ok : Status
status_ok = record { code = ok; message = [] }

abbrev pub invalid : Bytes → Status
invalid message = record { code = invalid_argument; message = message }

abbrev pub missing : Bytes → Status
missing message = record { code = not_found; message = message }

abbrev pub existing : Bytes → Status
existing message = record { code = already_exists; message = message }

pub record Master : Type 0 where
  pub state : MasterState
  pub registry : Servers
  pub logged : List LogRecord

-- `Log(record)`
abbrev pub log : Master → LogRecord → Master
log m r = record m { logged = m.logged ++ r ∷ [] }

-- The status of a path that does not pass, none for one that does.
unfoldable pub check_path : Bytes → Bool → Option Status
check_path path allow_root =
    if not (is_valid_path path)
    then some (invalid (bytes "malformed path: " ++ path))
    else if not allow_root && bytes_eq path root
    then some (invalid (bytes "the root is not a file"))
    else none

abbrev pub ancestor_is_file : Bytes → Status
ancestor_is_file path = invalid (bytes "an ancestor of " ++ (path ++ bytes " is a file"))

unfoldable pub get_cluster_info : Config → ℕ × ℕ
get_cluster_info config = (config.chunk_size, effective_max_record_append_size config)

-- The section of `Create` behind the check of the path.
unfoldable pub create_section : Master → Bytes → Master × Status
create_section m path =
    if Namespace.exists m.state.files path || Namespace.is_directory m.state.files path
    then (m, existing path)
    else if Namespace.has_file_ancestor m.state.files path
    then (m, ancestor_is_file path)
    else (log (record m { state = apply_create m.state path }) (creates path), status_ok)

unfoldable pub create : Master → Bytes → Master × Status
create m path = elim (check_path path false) [
  | some status ↦ (m, status)
  | none ↦ create_section m path
]

-- The status and `chunk_count`.
unfoldable pub open_file : Master → Bytes → Status × ℕ
open_file m path = elim (check_path path false) [
  | some status ↦ (status, 0)
  | none ↦ elim (Namespace.find m.state.files path) [
    | none ↦ (missing path, 0)
    | some meta ↦ (status_ok, length meta.chunks)
  ]
]

-- The loop that looks for a free hidden name; `fuel` bounds its rounds, none where it runs out.
unfoldable pub free_hidden_name : ℕ → Files → Bytes → ℤ → Option Bytes
free_hidden_name zero files path stamp = none
free_hidden_name (suc fuel) files path stamp =
    let rest = free_hidden_name fuel files path (stamp +ℤ pos 1) in
    let hidden = hidden_name_for path stamp in
    if Namespace.exists files hidden then rest else some hidden

-- The section of `Remove`; `now` is `UnixSeconds()`. A file is looked up at most once more often than
-- there are files. None never occurs.
unfoldable pub remove_section : Master → Bytes → ℤ → Option (Master × Status)
remove_section m path now =
    let files = m.state.files in
    if not (Namespace.exists files path)
    then some (m, missing path)
    else if is_hidden_path path
    then some (log (record m { state = apply_remove m.state path }) (removes path), status_ok)
    else elim (free_hidden_name (length files + 1) files path now) [
      | none ↦ none
      | some hidden ↦ some (
        log (record m { state = apply_rename m.state path hidden }) (renames path hidden),
        status_ok,
      )
    ]

unfoldable pub remove : Master → Bytes → ℤ → Option (Master × Status)
remove m path now = elim (check_path path false) [
  | some status ↦ some (m, status)
  | none ↦ remove_section m path now
]

unfoldable pub all_handles : Files → List ℕ
all_handles [] = []
all_handles ((path, meta) ∷ files) = meta.chunks ++ all_handles files

-- The checks that `Rename` and `Snapshot` make before they lock.
unfoldable pub check_pair : Bytes → Bytes → Option Status
check_pair source target = elim (check_path source false) [
  | some status ↦ some status
  | none ↦ elim (check_path target false) [
    | some status ↦ some status
    | none ↦
        if bytes_eq source target
        then some (existing target)
        else if is_ancestor_or_self source target
        then some (invalid (bytes "target is inside the source"))
        else none
  ]
]

-- The checks of their first section.
unfoldable pub check_move : Files → Bytes → Bytes → Option Status
check_move files source target =
    if not (Namespace.exists files source) && not (Namespace.is_directory files source)
    then some (missing source)
    else if Namespace.exists files target || Namespace.is_directory files target
    then some (existing target)
    else if Namespace.has_file_ancestor files target
    then some (ancestor_is_file target)
    else none

-- The last section of `Rename`.
unfoldable pub rename_section : Master → Bytes → Bytes → Master
rename_section m source target =
    log (record m { state = apply_rename m.state source target }) (renames source target)

-- `Rename`. `revoking` is `RevokeLeasesOn` for the handles, with all that other threads do meanwhile.
unfoldable pub rename : (List ℕ → Master → Master) → Master → Bytes → Bytes → Master × Status
rename revoking m source target = elim (check_pair source target) [
  | some status ↦ (m, status)
  | none ↦ elim (check_move m.state.files source target) [
    | some status ↦ (m, status)
    | none ↦
        let handles = all_handles (Namespace.subtree m.state.files source false) in
        (rename_section (revoking handles m) source target, status_ok)
  ]
]

-- `std::set<uint64_t>` of the handles.
unfoldable pub handle_set : List ℕ → Set ℕ
handle_set [] = []
handle_set (handle ∷ handles) = insert handle tt (handle_set handles)

-- `meta->lease.reset()` for the leases that are no longer valid.
unfoldable pub reset_leases : Config → ℤ → List ℕ → ChunkTable → ChunkTable
reset_leases config now [] t = t
reset_leases config now (handle ∷ handles) t =
    reset_leases config now handles (elim (ChunkTable.find t handle) [
      | none ↦ t
      | some meta ↦
          if is_some meta.lease && not (is_valid config meta now)
          then ChunkTable.put t handle (record meta { lease = none })
          else t
    ])

-- The section of `SnapshotFinish`.
unfoldable pub snapshot_section : Config → Master → Bytes → Bytes → List ℕ → ℤ → Master
snapshot_section config m source target handles now =
    let s = record m.state { chunks = reset_leases config now handles m.state.chunks } in
    log (record m { state = apply_snapshot s source target }) (snapshot source target)

-- `Snapshot` and the `SnapshotFinish` that it calls or puts off; `now` is the clock's reading there.
unfoldable pub take_snapshot :
    Config → (List ℕ → Master → Master) → Master → Bytes → Bytes → ℤ → Master × Status
take_snapshot config revoking m source target now = elim (check_pair source target) [
  | some status ↦ (m, status)
  | none ↦ elim (check_move m.state.files source target) [
    | some status ↦ (m, status)
    | none ↦
        let handles =
          keys (handle_set (all_handles (Namespace.subtree m.state.files source true))) in
        (snapshot_section config (revoking handles m) source target handles now, status_ok)
  ]
]

unfoldable pub find_matching_files : Master → Bytes → Bool → Status × List ListEntry
find_matching_files m directory include_hidden = elim (check_path directory true) [
  | some status ↦ (status, [])
  | none ↦
      if Namespace.exists m.state.files directory
      then (invalid (directory ++ bytes " is a file"), [])
      else if not (bytes_eq directory root) && not (Namespace.is_directory m.state.files directory)
      then (missing directory, [])
      else (status_ok, Namespace.list_directory m.state.files directory include_hidden)
]
