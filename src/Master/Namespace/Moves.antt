-- ===== src/Master/Namespace/Moves.antt =====
-- The loops of `RenameSubtree`: what they move, erase and insert, and that the order is kept.
use mathlib.Core.List.{append_assoc}
use gfs_impl_cpp.Common.Paths.{root, starts_with}
use gfs_impl_cpp.Common.Paths.Split.{starts_with-append, starts_with-split, append-injective_right}
use gfs_impl_cpp.Master.Namespace.{Files, moved_paths, erase_all, insert_all}
use gfs_impl_cpp.Master.Namespace.Ranges.{with_prefix}
use gfs_impl_cpp.Base.{
  if◌then◌else◌, length, drop, All, length-append, drop-append_self, ℕ, ◌≡◌, refl, ap, ◌≢◌, true,
  false, Option, none, some, [], ◌∷◌, ◌++◌, arith,
}
use gfs_impl_cpp.Base.Bytes.{Bytes, bytes_lt, bytes_key}
use gfs_impl_cpp.Base.Map.{
  nat_key, lookup, insert, erase, contains, lookup-cons, lookup-insert, lookup-erase, lookup-cons,
  contains-cons, Above, IsSorted, lookup-Above, insert-IsSorted, erase-IsSorted,
}

pub lookup-with_prefix :
    (p q : Bytes) (files : Files)
    → lookup q (with_prefix p files) ≡ (if starts_with p q then lookup q files else none)
unfolding with_prefix lookup
lookup-with_prefix p q [] = ground arith
lookup-with_prefix p q ((path, meta) ∷ files) = ground (arith, lookup-with_prefix p q files)

pub with_prefix-IsSorted :
    (p : Bytes) (files : Files) → IsSorted files → IsSorted (with_prefix p files)
unfolding with_prefix
with_prefix-IsSorted p [] v = tt
with_prefix-IsSorted p ((path, meta) ∷ files) v =
    ground (arith, with_prefix-IsSorted p files v.1, above path files v.0)
  where
    above : (k : Bytes) (files : Files) → Above k files → Above k (with_prefix p files)
    above k [] a = tt
    above k ((path, meta) ∷ files) a = ground (arith, above k files a.1)

pub lookup-erase_all :
    (q : Bytes) (gone files : Files)
    → lookup q (erase_all gone files) ≡ (if contains q gone then none else lookup q files)
unfolding erase_all
lookup-erase_all q [] files = unfold contains lookup in refl
lookup-erase_all q ((path, meta) ∷ gone) files = ground (
  arith,
  lookup-erase_all q gone (erase path files),
  lookup-erase q path files,
  contains-cons q path meta gone,
)

abbrev pub or_else {ℓ} : {A : Type ℓ} → Option A → Option A → Option A
or_else none y = y
or_else (some x) y = some x

pub lookup-insert_all :
    (q : Bytes) (more files : Files)
    → IsSorted more
    → lookup q (insert_all more files) ≡ or_else (lookup q more) (lookup q files)
unfolding insert_all
lookup-insert_all q [] files v = unfold lookup in refl
lookup-insert_all q ((path, meta) ∷ more) files v = ground (
  arith,
  lookup-insert_all q more (insert path meta files) v.1,
  lookup-insert q path meta files,
  lookup-cons q path meta more,
  lookup-Above path more v.0,
)

abbrev pub HavePrefix : Bytes → Files → Type 0
HavePrefix p = All (λ e. starts_with p e.0 ≡ true)

pub with_prefix-HavePrefix : (p : Bytes) (files : Files) → HavePrefix p (with_prefix p files)
unfolding with_prefix
with_prefix-HavePrefix p [] = tt
with_prefix-HavePrefix p ((path, meta) ∷ files) = ground (arith, with_prefix-HavePrefix p files)

pub lookup-moved_paths :
    (from to q : Bytes) (files : Files)
    → HavePrefix from files
    → lookup q (moved_paths from to files)
      ≡ (if starts_with to q then lookup (from ++ drop (length to) q) files else none)
unfolding moved_paths
lookup-moved_paths from to q [] h = unfold lookup in ground arith
lookup-moved_paths from to q ((path, meta) ∷ files) h =
    let x = drop (length from) path in
    let y = drop (length to) q in
    ground (
      arith,
      lookup-moved_paths from to q files h.1,
      lookup-cons q (to ++ x) meta (moved_paths from to files),
      lookup-cons (from ++ y) path meta files,
      starts_with-split from path h.0,
      starts_with-split to q,
      starts_with-append to x,
      drop-append_self to x,
      append-injective_right from y x,
    )

pub bytes_lt-append : (p x y : Bytes) → bytes_lt (p ++ x) (p ++ y) ≡ bytes_lt x y
unfolding bytes_lt
bytes_lt-append [] x y = refl
bytes_lt-append (c ∷ p) x y = ground (arith, bytes_lt-append p x y)

pub moved_paths-Above :
    (from to k : Bytes) (files : Files)
    → starts_with from k ≡ true
    → HavePrefix from files
    → Above k files
    → Above (to ++ drop (length from) k) (moved_paths from to files)
unfolding moved_paths
moved_paths-Above from to k [] h p a = tt
moved_paths-Above from to k ((path, meta) ∷ files) h p a =
    let x = drop (length from) k in
    let y = drop (length from) path in
    (
      rw
          (
            bytes_lt-append to x y,
            ← bytes_lt-append from x y,
            ← starts_with-split from k h,
            ← starts_with-split from path p.0,
          )
          a.0,
      moved_paths-Above from to k files h p.1 a.1,
    )

pub moved_paths-IsSorted :
    (from to : Bytes) (files : Files)
    → HavePrefix from files
    → IsSorted files
    → IsSorted (moved_paths from to files)
unfolding moved_paths
moved_paths-IsSorted from to [] p v = tt
moved_paths-IsSorted from to ((path, meta) ∷ files) p v =
    (moved_paths-Above from to path files p.0 p.1 v.0, moved_paths-IsSorted from to files p.1 v.1)

pub bytes_lt-append_self : (t x : Bytes) (c : ℕ) → bytes_lt t (t ++ (c ∷ x)) ≡ true
unfolding bytes_lt
bytes_lt-append_self [] x c = refl
bytes_lt-append_self (d ∷ t) x c = ground (arith, bytes_lt-append_self t x c)

pub moved_self-Above :
    (from target : Bytes) (files : Files) → Above target (moved_paths from (target ++ root) files)
unfolding moved_paths
moved_self-Above from target [] = tt
moved_self-Above from target ((path, meta) ∷ files) = (
  rw (append_assoc target root (drop (length from) path)) (bytes_lt-append_self target _ _),
  moved_self-Above from target files,
)

pub not-prefix_self : (t x : Bytes) (c : ℕ) → starts_with (t ++ (c ∷ x)) t ≡ false
unfolding starts_with
not-prefix_self [] x c = refl
not-prefix_self (d ∷ t) x c = ground (arith, not-prefix_self t x c)

pub append-ne_self : (t x : Bytes) (c : ℕ) → t ++ (c ∷ x) ≢ t
append-ne_self t x c e = ground (arith, ap length e, length-append t (c ∷ x))

pub insert_all-IsSorted : (more files : Files) → IsSorted files → IsSorted (insert_all more files)
unfolding insert_all
insert_all-IsSorted [] files v = v
insert_all-IsSorted ((path, meta) ∷ more) files v =
    insert_all-IsSorted more (insert path meta files) (insert-IsSorted path meta files v)

pub erase_all-IsSorted : (gone files : Files) → IsSorted files → IsSorted (erase_all gone files)
unfolding erase_all
erase_all-IsSorted [] files v = v
erase_all-IsSorted ((path, meta) ∷ gone) files v =
    erase_all-IsSorted gone (erase path files) (erase-IsSorted path files v)
