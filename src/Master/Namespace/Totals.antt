-- ===== src/Master/Namespace/Totals.antt =====
-- A rename onto a free target neither loses nor doubles an entry: any weight of the files is kept.
use gfs_impl_cpp.Common.Paths.{root, child_prefix}
use gfs_impl_cpp.Common.Paths.Split.{starts_with-append}
use gfs_impl_cpp.Master.Namespace.{
  FileMeta, Files, exists, is_directory, moved_paths, moved_self, erase_all, insert_all,
  rename_subtree,
}
use gfs_impl_cpp.Master.Namespace.Ranges.{with_prefix, has_entry, is_directory-with_prefix}
use gfs_impl_cpp.Master.Namespace.Rename.{
  below, moved, kept, below-with_prefix, lookup-kept, moved-IsSorted,
}
use gfs_impl_cpp.Master.Namespace.Moves.{
  lookup-with_prefix, with_prefix-IsSorted, insert_all-IsSorted, erase_all-IsSorted,
}
use gfs_impl_cpp.Base.{
  Option-cases, length, drop, All, ℕ, ◌+◌, ◌≡◌, refl, ap, ◌≢◌, false, Option, none, some, [], ◌∷◌,
  ◌++◌, arith,
}
use gfs_impl_cpp.Base.Bytes.{Bytes, bytes_key, bytes_lt_irrefl}
use gfs_impl_cpp.Base.Map.{
  nat_key, lookup, insert, erase, contains, lookup-cons, lookup-insert, lookup-erase, Above,
  IsSorted, insert-IsSorted, erase-IsSorted, total, weigh, total-insert, total-erase,
}

-- No file is the path or stands below it: what `Exists` and `IsDirectory` tell the master's calls.
pub record IsFree (files : Files) (path : Bytes) : Type 0 where
  pub no_file : exists files path ≡ false
  pub no_directory : is_directory files path ≡ false

IsFree-below :
    (files : Files) (path x : Bytes)
    → IsSorted files
    → IsFree files path
    → lookup (child_prefix path ++ x) files ≡ none
IsFree-below files path x v f =
    let p = child_prefix path in
    ground (
      arith,
      f.no_directory,
      is_directory-with_prefix files path v,
      lookup-empty (with_prefix p files) (p ++ x),
      lookup-with_prefix p (p ++ x) files,
      starts_with-append p x,
    )
  where
    lookup-empty : (l : Files) (q : Bytes) → has_entry l ≡ false → lookup q l ≡ none
    lookup-empty [] q h = unfold lookup in refl
    lookup-empty (e ∷ l) q h = unfold has_entry in cc

module _ (weight : FileMeta → ℕ) where
  total-insert_all :
      (more files : Files)
      → IsSorted files
      → IsSorted more
      → All (λ e. lookup e.0 files ≡ none) more
      → total weight (insert_all more files) ≡ total weight more + total weight files
  unfolding total insert_all
  total-insert_all [] files v s h = omega arith
  total-insert_all ((path, meta) ∷ more) files v s h = omega (
    arith,
    total-insert_all more (insert path meta files) (insert-IsSorted path meta files v) s.1
        (still more s.0 h.1),
    total-insert weight path meta files v,
    ap (weigh weight) h.0,
  )
    where
      still :
          (l : Files)
          → Above path l
          → All (λ e. lookup e.0 files ≡ none) l
          → All (λ e. lookup e.0 (insert path meta files) ≡ none) l
      still [] a q = tt
      still ((k, w) ∷ l) a q = (
        ground (arith, lookup-insert k path meta files, bytes_lt_irrefl k, a.0, q.0),
        still l a.1 q.1,
      )

  total-erase_all :
      (gone files : Files)
      → IsSorted files
      → IsSorted gone
      → All (λ e. lookup e.0 files ≡ some e.1) gone
      → total weight (erase_all gone files) + total weight gone ≡ total weight files
  unfolding total erase_all
  total-erase_all [] files v s h = omega arith
  total-erase_all ((path, meta) ∷ gone) files v s h = omega (
    arith,
    total-erase_all gone (erase path files) (erase-IsSorted path files v) s.1 (still gone s.0 h.1),
    total-erase weight path files v,
    ap (weigh weight) h.0,
  )
    where
      still :
          (l : Files)
          → Above path l
          → All (λ e. lookup e.0 files ≡ some e.1) l
          → All (λ e. lookup e.0 (erase path files) ≡ some e.1) l
      still [] a q = tt
      still ((k, w) ∷ l) a q =
          (ground (arith, lookup-erase k path files, bytes_lt_irrefl k, a.0, q.0), still l a.1 q.1)

  total-moved_paths :
      (from to : Bytes) (l : Files) → total weight (moved_paths from to l) ≡ total weight l
  unfolding total moved_paths
  total-moved_paths from to [] = refl
  total-moved_paths from to ((path, meta) ∷ l) = omega (arith, total-moved_paths from to l)

  total-moved_self :
      (target : Bytes) (o : Option FileMeta) (l : Files)
      → total weight (moved_self target o ++ l) ≡ weigh weight o + total weight l
  unfolding total
  total-moved_self target none l = omega arith
  total-moved_self target (some m) l = refl

pub All-self : (l : Files) → IsSorted l → All (λ e. lookup e.0 l ≡ some e.1) l
All-self [] v = tt
All-self ((k, w) ∷ l) v = (unfold lookup in ground arith, later l l v.0 (All-self l v.1))
  where
    later :
        (m l : Files)
        → Above k l
        → All (λ e. lookup e.0 m ≡ some e.1) l
        → All (λ e. lookup e.0 ((k, w) ∷ m) ≡ some e.1) l
    later m [] a q = tt
    later m ((j, u) ∷ l) a q =
        (ground (arith, lookup-cons j k w m, bytes_lt_irrefl k, a.0, q.0), later m l a.1 q.1)

pub All-of_with_prefix :
    (p : Bytes) (files l : Files)
    → All (λ e. lookup e.0 (with_prefix p files) ≡ some e.1) l
    → All (λ e. lookup e.0 files ≡ some e.1) l
All-of_with_prefix p files [] h = tt
All-of_with_prefix p files ((k, w) ∷ l) h =
    (ground (arith, lookup-with_prefix p k files, h.0), All-of_with_prefix p files l h.1)

All-moved_free :
    (from to : Bytes) (files l : Files)
    → ((x : Bytes) → lookup (to ++ x) files ≡ none)
    → All (λ e. lookup e.0 files ≡ none) (moved_paths from to l)
unfolding moved_paths
All-moved_free from to files [] h = tt
All-moved_free from to files ((path, meta) ∷ l) h =
    (h (drop (length from) path), All-moved_free from to files l h)

module _ (files : Files) (source target : Bytes) (v : IsSorted files)
    (f : IsFree files target) where
  no_target : lookup target files ≡ none
  no_target =
      unfold exists contains in ground (arith, f.no_file, Option-cases (lookup target files))

  left_over-free : (q : Bytes) → lookup q files ≡ none → lookup q (kept files source) ≡ none
  left_over-free q e = rw (lookup-kept files source q v) (ground (arith, e))

  moved-free : All (λ e. lookup e.0 (kept files source) ≡ none) (moved files source target)
  moved-free = go (lookup source files)
    where
      rest :
          All
            (λ e. lookup e.0 (kept files source) ≡ none)
            (moved_paths (child_prefix source) (child_prefix target) (below files source))
      rest =
          All-moved_free _ _ _ (below files source)
            (λ x. left_over-free (child_prefix target ++ x) (IsFree-below files target x v f))

      go :
          (o : Option FileMeta)
          → All
              (λ e. lookup e.0 (kept files source) ≡ none)
              (moved_self target o
                ++ moved_paths (child_prefix source) (child_prefix target) (below files source))
      go none = rest
      go (some m) = (left_over-free target no_target, rest)

  total-kept :
      (weight : FileMeta → ℕ)
      → total weight (kept files source)
          + total weight (below files source)
          + weigh weight (lookup source files)
        ≡ total weight files
  total-kept weight = rw (below-with_prefix files source v) (
      omega (
        arith,
        total-erase_all weight l (erase source files) (erase-IsSorted source files v) sorted
            (All-of_with_prefix (child_prefix source) (erase source files) l (All-self l sorted)),
        total-erase weight source files v,
      ))
    where
      l : Files
      l = with_prefix (child_prefix source) (erase source files)

      sorted : IsSorted l
      sorted =
          with_prefix-IsSorted (child_prefix source) (erase source files)
            (erase-IsSorted source files v)

-- A rename onto a free target moves the files and changes none: every sum over the files' metas is
-- what it was.
pub total-rename_subtree :
    (weight : FileMeta → ℕ) (files : Files) (source target : Bytes)
    → IsSorted files
    → target ≢ root
    → IsFree files target
    → total weight (rename_subtree files source target) ≡ total weight files
unfolding rename_subtree
total-rename_subtree weight files source target v ht f = omega (
  arith,
  total-insert_all weight (moved files source target) (kept files source)
      (erase_all-IsSorted (below files source) (erase source files) (erase-IsSorted source files v))
      (moved-IsSorted files source target v ht) (moved-free files source target v f),
  total-moved_self weight target (lookup source files)
      (moved_paths (child_prefix source) (child_prefix target) (below files source)),
  total-moved_paths weight (child_prefix source) (child_prefix target) (below files source),
  total-kept files source target v f weight,
)

pub rename_subtree-IsSorted :
    (files : Files) (source target : Bytes)
    → IsSorted files
    → IsSorted (rename_subtree files source target)
unfolding rename_subtree
rename_subtree-IsSorted files source target v =
    insert_all-IsSorted (moved files source target) (kept files source)
      (erase_all-IsSorted (below files source) (erase source files) (erase-IsSorted source files v))
