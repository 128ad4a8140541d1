-- ===== src/Master/LockTable/System.antt =====
-- Threads that take and release the locks of src/master/lock_table.cc, in any order.
use gfs_impl_cpp.Base.{if◌then◌else◌, ℕ, ◌+◌, ◌≡◌, Bool, true, false, List, [], ◌∷◌, ◌++◌, arith}
use gfs_impl_cpp.Base.Bytes.{Bytes, bytes_key}
use gfs_impl_cpp.Base.Map.{nat_key}
use gfs_impl_cpp.Common.Paths.{bytes_eq}
use gfs_impl_cpp.Master.LockTable.{
  LockMode, read_lock, write_lock, LockRequest, Entries, lock_first, lock_again, unlock_one,
}

-- The entries, the locks that are held, and the requests of the threads that wait.
pub record System : Type 0 where
  pub entries : Entries
  pub holding : List LockRequest
  pub waiting : List LockRequest

abbrev pub after_lock : Entries × Bool → LockRequest → List LockRequest → List LockRequest → System
after_lock (t, true) r holding waiting = record {
  entries = t;
  holding = r ∷ holding;
  waiting = waiting;
}
after_lock (t, false) r holding waiting = record {
  entries = t;
  holding = holding;
  waiting = r ∷ waiting;
}

pub data Step (s : System) : System → Type 0 where
  arrives : (r : LockRequest) → Step s (after_lock (lock_first s.entries r) r s.holding s.waiting)
  retries :
      (xs ys : List LockRequest) (r : LockRequest)
      → s.waiting ≡ xs ++ r ∷ ys
      → Step s (after_lock (lock_again s.entries r) r s.holding (xs ++ ys))
  releases :
      (xs ys : List LockRequest) (r : LockRequest)
      → s.holding ≡ xs ++ r ∷ ys
      → Step s
          (record { entries = unlock_one s.entries r; holding = xs ++ ys; waiting = s.waiting })

abbrev pub unlocked : System
unlocked = record { entries = []; holding = []; waiting = [] }

pub data Reach : System → Type 0 where
  start : Reach unlocked
  later : {s s' : System} → Reach s → Step s s' → Reach s'

abbrev pub reads_one : LockMode → ℕ
reads_one read_lock = 1
reads_one write_lock = 0

abbrev pub writes_one : LockMode → ℕ
writes_one read_lock = 0
writes_one write_lock = 1

-- How many of the requests are for reading and for writing the path.
unfoldable pub reads : Bytes → List LockRequest → ℕ
reads path [] = 0
reads path (r ∷ rs) =
    if bytes_eq r.path path then reads_one r.mode + reads path rs else reads path rs

unfoldable pub writes : Bytes → List LockRequest → ℕ
writes path [] = 0
writes path (r ∷ rs) =
    if bytes_eq r.path path then writes_one r.mode + writes path rs else writes path rs

pub reads-append :
    (path : Bytes) (xs ys : List LockRequest)
    → reads path (xs ++ ys) ≡ reads path xs + reads path ys
unfolding reads
reads-append path [] ys = omega arith
reads-append path (r ∷ xs) ys = ground (arith, reads-append path xs ys)

pub writes-append :
    (path : Bytes) (xs ys : List LockRequest)
    → writes path (xs ++ ys) ≡ writes path xs + writes path ys
unfolding writes
writes-append path [] ys = omega arith
writes-append path (r ∷ xs) ys = ground (arith, writes-append path xs ys)
