-- ===== src/Tests/Locks.antt =====
-- The lock table.
use gfs_impl_cpp.Base.{List, ◌+◌, ◌≤◌, ◌≡◌, refl, [], ◌∷◌}
use gfs_impl_cpp.Base.Bytes.{Bytes, bytes, bytes_key}
use gfs_impl_cpp.Base.Map.{nat_key}
use gfs_impl_cpp.Master.LockTable.{
  read_lock, write_lock, LockRequest, entry_locked, lock_first, normalize, sort, sort_in, merge,
  before, depth_of, for_path, for_paths,
}
use gfs_impl_cpp.Master.LockTable.System.{System, after_lock, arrives, start, later, reads, writes}
use gfs_impl_cpp.Master.LockTable.Order.{IsStrict, wants, wants_write, normalize-IsStrict}
use gfs_impl_cpp.Master.LockTable.Exclusion.{reach-Excludes}
use gfs_impl_cpp.Tests.{strings}

abbrev to_write : LockRequest
to_write = record { path = bytes "/a"; mode = write_lock }

abbrev to_read : LockRequest
to_read = record { path = bytes "/a"; mode = read_lock }

abbrev written : System
written = after_lock (lock_first [] to_write) to_write [] []

abbrev contended : System
contended = after_lock (lock_first written.entries to_read) to_read written.holding written.waiting

-- The reader waits for the writer.
contended-waits : (contended.holding ≡ to_write ∷ []) × (contended.waiting ≡ to_read ∷ [])
unfolding strings lock_first entry_locked
contended-waits = (refl, refl)

reach-Excludes_example :
    (writes (bytes "/a") contended.holding ≤ 1)
    × (writes (bytes "/a") contended.holding ≡ 1 → reads (bytes "/a") contended.holding ≡ 0)
    × ((entry_locked contended.entries (bytes "/a")).refs
        ≡ reads (bytes "/a") contended.holding
          + writes (bytes "/a") contended.holding
          + reads (bytes "/a") contended.waiting
          + writes (bytes "/a") contended.waiting)
reach-Excludes_example =
    reach-Excludes contended (bytes "/a") (later (later start (arrives to_write)) (arrives to_read))

-- The locks of a rename within one directory.
normalized :
    normalize (for_paths (bytes "/d/x") write_lock (bytes "/d") write_lock)
    ≡ record { path = bytes "/"; mode = read_lock }
      ∷ record { path = bytes "/d"; mode = write_lock }
      ∷ record { path = bytes "/d/x"; mode = write_lock }
      ∷ []
unfolding strings normalize sort sort_in merge before depth_of for_path for_paths
normalized = refl

abbrev renaming : List LockRequest
renaming = for_paths (bytes "/d/x") write_lock (bytes "/d") write_lock

normalize-IsStrict_example :
    IsStrict (normalize renaming)
    × ((path : Bytes) → wants path (normalize renaming) ≡ wants path renaming)
    × ((path : Bytes) → wants_write path (normalize renaming) ≡ wants_write path renaming)
normalize-IsStrict_example = normalize-IsStrict renaming
