-- ===== src/Master/LockTable/Order.antt =====
-- The normal form of the requests of src/master/lock_table.cc: `Acquire` takes its locks in one order
-- that is the same for all threads.
use gfs_impl_cpp.Base.{
  ltb, Bool-cases, ℕ, ◌+◌, ◌≡◌, refl, sym, ap, ◌∙◌, ◌≢◌, inl, inr, if_pos, if_neg, Bool, true,
  false, List, [], ◌∷◌, arith,
}
use gfs_impl_cpp.Base.Bytes.{
  Bytes, bytes_discrete, bytes_lt, bytes_key, bytes_lt_trans, bytes_lt_irrefl,
}
use gfs_impl_cpp.Base.Map.{nat_key}
use gfs_impl_cpp.Base.Bytes.{bytes_lt_total}
use gfs_impl_cpp.Master.LockTable.{
  LockMode, read_lock, write_lock, LockRequest, before, sort_in, sort, stronger, merge, merge_all,
  normalize,
}
use gfs_impl_cpp.Master.LockTable.System.{reads_one, writes_one, reads, writes}

-- Each request stands strictly before the next.
abbrev pub StrictFrom : LockRequest → List LockRequest → Type 0
StrictFrom x [] = Unit {0}
StrictFrom x (y ∷ ys) = (before x y ≡ true) × StrictFrom y ys

abbrev pub IsStrict : List LockRequest → Type 0
IsStrict [] = Unit {0}
IsStrict (x ∷ xs) = StrictFrom x xs

abbrev WeakFrom : LockRequest → List LockRequest → Type 0
WeakFrom x [] = Unit {0}
WeakFrom x (y ∷ ys) = (before y x ≡ false) × WeakFrom y ys

bytes_lt_asym : (a b : Bytes) → bytes_lt a b ≡ true → bytes_lt b a ≡ false
bytes_lt_asym a b h = elim (Bool-cases (bytes_lt b a)) [
  | inl e ↦ absurd (ground (arith, bytes_lt_trans a b a h e, bytes_lt_irrefl a))
  | inr e ↦ e
]

before_asym : (a b : LockRequest) → before a b ≡ true → before b a ≡ false
unfolding before
before_asym a b h =
    ground (arith, h, Bool-cases (bytes_lt a.path b.path), bytes_lt_asym a.path b.path)

before_total : (a b : LockRequest) → a.path ≢ b.path → before b a ≡ false → before a b ≡ true
unfolding before
before_total a b n h = ground (arith, h, bytes_lt_total b.path a.path (λ e. n (sym e)))

before_path : (a b c : LockRequest) → a.path ≡ b.path → before c a ≡ before c b
unfolding before
before_path a b c e = rw e refl

WeakFrom-path :
    (a b : LockRequest) (rs : List LockRequest) → a.path ≡ b.path → WeakFrom a rs → WeakFrom b rs
WeakFrom-path a b [] e w = tt
WeakFrom-path a b (r ∷ rs) e w = (sym (before_path a b r e) ∙ w.0, w.1)

sort_in-WeakFrom :
    (p r : LockRequest) (rs : List LockRequest)
    → before r p ≡ false
    → WeakFrom p rs
    → WeakFrom p (sort_in r rs)
unfolding sort_in
sort_in-WeakFrom p r [] h w = (h, tt)
sort_in-WeakFrom p r (q ∷ rs) h w = elim (Bool-cases (before q r)) [
  | inl e ↦ rw e (w.0, sort_in-WeakFrom q r rs (before_asym q r e) w.1)
  | inr e ↦ rw e (h, (e, w.1))
]

abbrev IsWeak : List LockRequest → Type 0
IsWeak [] = Unit {0}
IsWeak (x ∷ xs) = WeakFrom x xs

sort_in-IsWeak : (r : LockRequest) (rs : List LockRequest) → IsWeak rs → IsWeak (sort_in r rs)
unfolding sort_in
sort_in-IsWeak r [] w = tt
sort_in-IsWeak r (q ∷ rs) w = elim (Bool-cases (before q r)) [
  | inl e ↦ rw e (sort_in-WeakFrom q r rs (before_asym q r e) w)
  | inr e ↦ rw e (e, w)
]

sort-IsWeak : (rs : List LockRequest) → IsWeak (sort rs)
unfolding sort
sort-IsWeak [] = tt
sort-IsWeak (r ∷ rs) = sort_in-IsWeak r (sort rs) (sort-IsWeak rs)

abbrev joined : LockRequest → LockRequest → LockRequest
joined a r = record a { mode = stronger a.mode r.mode }

merge-StrictFrom :
    (rs : List LockRequest) (x a : LockRequest)
    → before x a ≡ true
    → WeakFrom a rs
    → StrictFrom x (merge a rs)
unfolding merge
merge-StrictFrom [] x a h w = (h, tt)
merge-StrictFrom (r ∷ rs) x a h w = elim (bytes_discrete a.path r.path) [
  | yes e ↦ rw (if_pos {C = Bool} (bytes_discrete a.path r.path) e) (
      merge-StrictFrom rs x (joined a r) (sym (before_path a (joined a r) x refl) ∙ h)
        (WeakFrom-path r (joined a r) rs (sym e) w.1))
  | no n ↦
      rw (if_neg {C = Bool} (bytes_discrete a.path r.path) n)
        (h, merge-StrictFrom rs a r (before_total a r n w.0) w.1)
]

merge-IsStrict : (rs : List LockRequest) (a : LockRequest) → WeakFrom a rs → IsStrict (merge a rs)
unfolding merge
merge-IsStrict [] a w = tt
merge-IsStrict (r ∷ rs) a w = elim (bytes_discrete a.path r.path) [
  | yes e ↦
      rw (if_pos {C = Bool} (bytes_discrete a.path r.path) e)
        (merge-IsStrict rs (joined a r) (WeakFrom-path r (joined a r) rs (sym e) w.1))
  | no n ↦
      rw (if_neg {C = Bool} (bytes_discrete a.path r.path) n)
        (merge-StrictFrom rs a r (before_total a r n w.0) w.1)
]

writes-sort_in :
    (path : Bytes) (r : LockRequest) (rs : List LockRequest)
    → writes path (sort_in r rs) ≡ writes path (r ∷ rs)
unfolding sort_in writes
writes-sort_in path r [] = refl
writes-sort_in path r (q ∷ rs) = ground (arith, writes-sort_in path r rs)

reads-sort_in :
    (path : Bytes) (r : LockRequest) (rs : List LockRequest)
    → reads path (sort_in r rs) ≡ reads path (r ∷ rs)
unfolding sort_in reads
reads-sort_in path r [] = refl
reads-sort_in path r (q ∷ rs) = ground (arith, reads-sort_in path r rs)

writes-sort : (path : Bytes) (rs : List LockRequest) → writes path (sort rs) ≡ writes path rs
unfolding sort writes
writes-sort path [] = refl
writes-sort path (r ∷ rs) = ground (arith, writes-sort_in path r (sort rs), writes-sort path rs)

reads-sort : (path : Bytes) (rs : List LockRequest) → reads path (sort rs) ≡ reads path rs
unfolding sort reads
reads-sort path [] = refl
reads-sort path (r ∷ rs) = ground (arith, reads-sort_in path r (sort rs), reads-sort path rs)

-- Whether one of the requests is for writing the path, and whether one is for the path at all.
abbrev pub wants_write : Bytes → List LockRequest → Bool
wants_write path rs = ltb 0 (writes path rs)

abbrev pub wants : Bytes → List LockRequest → Bool
wants path rs = ltb 0 (reads path rs + writes path rs)

stronger_writes :
    (m n : LockMode) (k : ℕ)
    → ltb 0 (writes_one (stronger m n) + k) ≡ ltb 0 (writes_one m + (writes_one n + k))
stronger_writes m write_lock k = ground arith
stronger_writes m read_lock k = ground arith

one_each : (m : LockMode) → reads_one m + writes_one m ≡ 1
one_each read_lock = refl
one_each write_lock = refl

module _ (path : Bytes) (a r : LockRequest) (rs : List LockRequest) where
  wants_write-joined :
      a.path ≡ r.path → wants_write path (joined a r ∷ rs) ≡ wants_write path (a ∷ r ∷ rs)
  unfolding writes
  wants_write-joined e = ground (arith, e, stronger_writes a.mode r.mode (writes path rs))

  wants-joined : a.path ≡ r.path → wants path (joined a r ∷ rs) ≡ wants path (a ∷ r ∷ rs)
  unfolding reads writes
  wants-joined e =
      ground (arith, e, one_each a.mode, one_each r.mode, one_each (stronger a.mode r.mode))

  wants_write-cons :
      (rs' : List LockRequest)
      → wants_write path rs' ≡ wants_write path (r ∷ rs)
      → wants_write path (a ∷ rs') ≡ wants_write path (a ∷ r ∷ rs)
  unfolding writes
  wants_write-cons rs' e = ground (arith, e)

  wants-cons :
      (rs' : List LockRequest)
      → wants path rs' ≡ wants path (r ∷ rs)
      → wants path (a ∷ rs') ≡ wants path (a ∷ r ∷ rs)
  unfolding reads writes
  wants-cons rs' e = ground (arith, e, one_each a.mode)

wants_write-merge :
    (path : Bytes) (rs : List LockRequest) (a : LockRequest)
    → wants_write path (merge a rs) ≡ wants_write path (a ∷ rs)
unfolding merge
wants_write-merge path [] a = refl
wants_write-merge path (r ∷ rs) a = elim (bytes_discrete a.path r.path) [
  | yes e ↦
      rw (if_pos {C = Bool} (bytes_discrete a.path r.path) e)
        (wants_write-merge path rs (joined a r) ∙ wants_write-joined path a r rs e)
  | no n ↦
      rw (if_neg {C = Bool} (bytes_discrete a.path r.path) n)
        (wants_write-cons path a r rs (merge r rs) (wants_write-merge path rs r))
]

wants-merge :
    (path : Bytes) (rs : List LockRequest) (a : LockRequest)
    → wants path (merge a rs) ≡ wants path (a ∷ rs)
unfolding merge
wants-merge path [] a = refl
wants-merge path (r ∷ rs) a = elim (bytes_discrete a.path r.path) [
  | yes e ↦
      rw (if_pos {C = Bool} (bytes_discrete a.path r.path) e)
        (wants-merge path rs (joined a r) ∙ wants-joined path a r rs e)
  | no n ↦
      rw (if_neg {C = Bool} (bytes_discrete a.path r.path) n)
        (wants-cons path a r rs (merge r rs) (wants-merge path rs r))
]

merge_all-IsStrict : (rs : List LockRequest) → IsWeak rs → IsStrict (merge_all rs)
merge_all-IsStrict [] w = tt
merge_all-IsStrict (r ∷ rs) w = merge-IsStrict rs r w

wants_write-merge_all :
    (path : Bytes) (rs : List LockRequest) → wants_write path (merge_all rs) ≡ wants_write path rs
wants_write-merge_all path [] = refl
wants_write-merge_all path (r ∷ rs) = wants_write-merge path rs r

wants-merge_all : (path : Bytes) (rs : List LockRequest) → wants path (merge_all rs) ≡ wants path rs
wants-merge_all path [] = refl
wants-merge_all path (r ∷ rs) = wants-merge path rs r

-- The normal form of any requests is in the strict order of depth and path, so that no path stands in
-- it twice; a path stands in it exactly if it was asked for, and for writing exactly if one of the
-- requests for it was for writing.
pub normalize-IsStrict :
    (requests : List LockRequest)
    → IsStrict (normalize requests)
      × ((path : Bytes) → wants path (normalize requests) ≡ wants path requests)
      × ((path : Bytes) → wants_write path (normalize requests) ≡ wants_write path requests)
unfolding normalize
normalize-IsStrict requests = (
  merge_all-IsStrict (sort requests) (sort-IsWeak requests),
  λ path.
      wants-merge_all path (sort requests)
      ∙ ap (ltb 0) (omega (arith, reads-sort path requests, writes-sort path requests)),
  λ path. wants_write-merge_all path (sort requests) ∙ ap (ltb 0) (writes-sort path requests),
)
