-- ===== src/Master/LockTable.antt =====
-- src/master/lock_table.h and lock_table.cc: read and write locks on paths. A call of `LockOne` is a
-- step that ends with the lock or in the wait for the condition variable, and a step for each time
-- that it wakes. An entry is in the map as long as `refs` is not 0.
pub mod System
pub mod Accounts
pub mod Exclusion
pub mod Order
use gfs_impl_cpp.Base.{
  ltb, leb, ◌==◌, if◌then◌else◌, ltb→lt, lt→ltb, leb→le, ==_iff, Bool-cases, Option-cases, is_some,
  length, get_elem?, set, take, drop, All, length-append, length-take, length-drop,
  take-append_self, drop-append_self, drop-take, take-take, ℕ, zero, suc, ◌+◌, ◌-◌, ◌*◌, ◌/◌, ◌%◌,
  ◌^◌, ◌≤◌, ◌<◌, max, min, ◌≡◌, refl, sym, ap, ◌∙◌, ◌≢◌, ◌↔◌, ◌⊎◌, inl, inr, ite, if_pos, if_neg,
  Bool, true, false, not, ◌&&◌, ◌||◌, Option, none, some, List, [], ◌∷◌, ◌++◌, map, arith, dec_lt,
  ℕ_discrete,
}
use gfs_impl_cpp.Base.Bytes.{
  Bytes, bytes, bytes_discrete, bytes_lt, bytes_key, bytes_lt_trans, bytes_lt_irrefl,
}
use gfs_impl_cpp.Base.Int.{
  ℤ, pos, negsuc, pos_part, neg_part, ◌+ℤ◌, ◌-ℤ◌, ◌≤ℤ◌, ◌<ℤ◌, ltb_ℤ, +ℤ_parts, -ℤ_parts,
  eq_of_parts, int_laws,
}
use gfs_impl_cpp.Base.Map.{
  Key, nat_key, Map, Set, keys, lookup, insert, erase, contains, lookup-cons, lookup-insert,
  lookup-erase, contains-cons, contains-insert, contains-erase, Above, IsSorted, Above-trans,
  lookup-Above, insert-IsSorted, erase-IsSorted, Map-ext, total, weigh, total-insert, total-erase,
}
use gfs_impl_cpp.Common.Paths.{slash, root, ancestors_of, bytes_eq}

pub data LockMode : Type 0 where
  read_lock : LockMode
  write_lock : LockMode

pub record LockRequest : Type 0 where
  pub path : Bytes
  pub mode : LockMode

abbrev count_slashes : Bytes → ℕ
count_slashes [] = 0
count_slashes (c ∷ rest) = if c == slash then count_slashes rest + 1 else count_slashes rest

unfoldable pub depth_of : Bytes → ℕ
depth_of path = if bytes_eq path root then 0 else count_slashes path

unfoldable pub before : LockRequest → LockRequest → Bool
before a b =
    if not (depth_of a.path == depth_of b.path)
    then ltb (depth_of a.path) (depth_of b.path)
    else bytes_lt a.path b.path

-- `std::sort`, with equal requests in the order given.
unfoldable pub sort_in : LockRequest → List LockRequest → List LockRequest
sort_in r [] = r ∷ []
sort_in r (q ∷ requests) =
    let rest = sort_in r requests in if before q r then q ∷ rest else r ∷ q ∷ requests

unfoldable pub sort : List LockRequest → List LockRequest
sort [] = []
sort (r ∷ requests) = sort_in r (sort requests)

abbrev pub stronger : LockMode → LockMode → LockMode
stronger mode write_lock = write_lock
stronger mode read_lock = mode

-- The loop of `Normalize`: `last` is `out.back()`.
unfoldable pub merge : LockRequest → List LockRequest → List LockRequest
merge last [] = last ∷ []
merge last (r ∷ requests) =
    let same = merge (record last { mode = stronger last.mode r.mode }) requests in
    let next = merge r requests in if bytes_eq last.path r.path then same else last ∷ next

abbrev pub merge_all : List LockRequest → List LockRequest
merge_all [] = []
merge_all (r ∷ requests) = merge r requests

unfoldable pub normalize : List LockRequest → List LockRequest
normalize requests = merge_all (sort requests)

abbrev read_of : Bytes → LockRequest
read_of path = record { path = path; mode = read_lock }

unfoldable pub for_path : Bytes → LockMode → List LockRequest
for_path path leaf = map read_of (ancestors_of path) ++ record { path = path; mode = leaf } ∷ []

unfoldable pub for_paths : Bytes → LockMode → Bytes → LockMode → List LockRequest
for_paths first first_mode second second_mode =
    for_path first first_mode ++ for_path second second_mode

pub record Entry : Type 0 where
  pub readers : ℕ
  pub writer : Bool
  pub waiting_writers : ℕ
  pub refs : ℕ

abbrev pub fresh_entry : Entry
fresh_entry = record { readers = 0; writer = false; waiting_writers = 0; refs = 0 }

abbrev pub Entries : Type 0
Entries = Map Bytes Entry

abbrev pub or_fresh : Option Entry → Entry
or_fresh none = fresh_entry
or_fresh (some e) = e

unfoldable pub entry_locked : Entries → Bytes → Entry
entry_locked t path = or_fresh (lookup path t)

-- The conditions of the two loops.
abbrev pub blocked : LockMode → Entry → Bool
blocked write_lock e = ltb 0 e.readers || e.writer
blocked read_lock e = e.writer || ltb 0 e.waiting_writers

abbrev pub waits : LockMode → Entry → Entry
waits write_lock e = record e { waiting_writers = e.waiting_writers + 1 }
waits read_lock e = e

abbrev pub wakes : LockMode → Entry → Entry
wakes write_lock e = record e { waiting_writers = e.waiting_writers - 1 }
wakes read_lock e = e

abbrev pub takes : LockMode → Entry → Entry
takes write_lock e = record e { writer = true }
takes read_lock e = record e { readers = e.readers + 1 }

abbrev pub gives : LockMode → Entry → Entry
gives write_lock e = record e { writer = false }
gives read_lock e = record e { readers = e.readers - 1 }

-- `LockOne` up to the lock or the first wait; the Boolean says whether it has the lock.
unfoldable pub lock_first : Entries → LockRequest → Entries × Bool
lock_first t r =
    let e : Entry = entry_locked t r.path in
    let e' : Entry = record e { refs = e.refs + 1 } in
    if blocked r.mode e'
    then (insert r.path (waits r.mode e') t, false)
    else (insert r.path (takes r.mode e') t, true)

-- `LockOne` from the end of a wait to the lock or the next wait.
unfoldable pub lock_again : Entries → LockRequest → Entries × Bool
lock_again t r =
    let e : Entry = wakes r.mode (entry_locked t r.path) in
    if blocked r.mode e
    then (insert r.path (waits r.mode e) t, false)
    else (insert r.path (takes r.mode e) t, true)

unfoldable pub unlock_one : Entries → LockRequest → Entries
unlock_one t r = elim (lookup r.path t) [
  | none ↦ t
  | some e ↦
      let e' : Entry = record (gives r.mode e) { refs = e.refs - 1 } in
      if e'.refs == 0 then erase r.path t else insert r.path e' t
]
