-- ===== src/Master/Namespace/Rename.antt =====
-- What `RenameSubtree` does to every path.
use mathlib.Core.List.{append_assoc}
use gfs_impl_cpp.Common.Paths.{root, starts_with, bytes_eq, child_prefix}
use gfs_impl_cpp.Common.Paths.Split.{starts_with-append}
use gfs_impl_cpp.Master.Namespace.{
  FileMeta, Files, range, moved_paths, moved_self, erase_all, rename_subtree,
}
use gfs_impl_cpp.Master.Namespace.Ranges.{with_prefix, range-with_prefix}
use gfs_impl_cpp.Base.{
  if◌then◌else◌, length, drop, ◌≡◌, refl, ◌≢◌, ◌||◌, Option, none, some, [], ◌++◌, arith,
}
use gfs_impl_cpp.Base.Bytes.{Bytes, bytes_key}
use gfs_impl_cpp.Base.Map.{
  nat_key, lookup, erase, contains, lookup-cons, lookup-erase, lookup-cons, IsSorted,
  erase-IsSorted,
}
use gfs_impl_cpp.Master.Namespace.Moves.{
  lookup-with_prefix, with_prefix-IsSorted, lookup-erase_all, or_else, lookup-insert_all,
  with_prefix-HavePrefix, lookup-moved_paths, moved_paths-IsSorted, moved_self-Above,
  not-prefix_self, append-ne_self,
}

-- What a path names before a rename: itself, unless it is the target or stands below it.
abbrev pub origin : Files → Bytes → Bytes → Bytes → Option FileMeta
origin files source target q =
    if bytes_eq q target
    then lookup source files
    else if starts_with (child_prefix target) q
    then lookup (child_prefix source ++ drop (length (child_prefix target)) q) files
    else none

-- What is left of a path when the source and all below it are gone.
abbrev pub left_over : Files → Bytes → Bytes → Option FileMeta
left_over files source q =
    if bytes_eq q source || starts_with (child_prefix source) q then none else lookup q files

child_prefix-ne_root : (p : Bytes) → p ≢ root → child_prefix p ≡ p ++ root
unfolding child_prefix
child_prefix-ne_root p h = ground arith

-- The two stages of `rename_subtree`.
abbrev pub below : Files → Bytes → Files
below files source = range (child_prefix source) (erase source files)

abbrev pub moved : Files → Bytes → Bytes → Files
moved files source target =
    moved_self target (lookup source files)
    ++ moved_paths (child_prefix source) (child_prefix target) (below files source)

abbrev pub kept : Files → Bytes → Files
kept files source = erase_all (below files source) (erase source files)

pub below-with_prefix :
    (files : Files) (source : Bytes)
    → IsSorted files
    → below files source ≡ with_prefix (child_prefix source) (erase source files)
below-with_prefix files source v =
    range-with_prefix (child_prefix source) (erase source files) (erase-IsSorted source files v)

pub lookup-kept :
    (files : Files) (source q : Bytes)
    → IsSorted files
    → lookup q (kept files source) ≡ left_over files source q
lookup-kept files source q v =
    rw
      (
        lookup-erase_all q (below files source) (erase source files),
        below-with_prefix files source v,
      )
      (unfold contains in
        ground (
          arith,
          lookup-with_prefix (child_prefix source) q (erase source files),
          lookup-erase q source files,
        ))

pub moved-IsSorted :
    (files : Files) (source target : Bytes)
    → IsSorted files
    → target ≢ root
    → IsSorted (moved files source target)
moved-IsSorted files source target v h =
    rw (below-with_prefix files source v) (go (lookup source files))
  where
    l : Files
    l = with_prefix (child_prefix source) (erase source files)

    rest : IsSorted (moved_paths (child_prefix source) (child_prefix target) l)
    rest =
        moved_paths-IsSorted (child_prefix source) (child_prefix target) l
          (with_prefix-HavePrefix (child_prefix source) (erase source files))
          (with_prefix-IsSorted (child_prefix source) (erase source files)
            (erase-IsSorted source files v))

    go :
        (o : Option FileMeta)
        → IsSorted
            (moved_self target o ++ moved_paths (child_prefix source) (child_prefix target) l)
    go none = rest
    go (some m) =
        (rw (child_prefix-ne_root target h) (moved_self-Above (child_prefix source) target l), rest)

lookup-moved :
    (files : Files) (source target q : Bytes)
    → IsSorted files
    → source ≢ root
    → target ≢ root
    → lookup q (moved files source target) ≡ origin files source target q
lookup-moved files source target q v hs ht =
    rw (below-with_prefix files source v) (go (lookup source files) refl)
  where
    from : Bytes
    from = child_prefix source

    to : Bytes
    to = child_prefix target

    l : Files
    l = with_prefix from (erase source files)

    y : Bytes
    y = drop (length to) q

    rest :
        lookup q (moved_paths from to l)
        ≡ (if starts_with to q then lookup (from ++ y) files else none)
    rest = ground (
      arith,
      lookup-moved_paths from to q l (with_prefix-HavePrefix from (erase source files)),
      lookup-with_prefix from (from ++ y) (erase source files),
      starts_with-append from y,
      lookup-erase (from ++ y) source files,
      child_prefix-ne_root source hs,
      append_assoc source root y,
      append-ne_self source y 47,
    )

    go :
        (o : Option FileMeta)
        → lookup source files ≡ o
        → lookup q (moved_self target o ++ moved_paths from to l) ≡ origin files source target q
    go none e = ground (arith, rest, child_prefix-ne_root target ht, not-prefix_self target [] 47)
    go (some m) e = ground (arith, rest, lookup-cons q target m (moved_paths from to l))

-- After `RenameSubtree(source, target)` every path at the target or below names the file that stood
-- at the source or below, if there was one; every other path at the source or below names nothing;
-- all other paths are as they were. It holds for a map in order and for paths other than the root.
pub lookup-rename_subtree :
    (files : Files) (source target q : Bytes)
    → IsSorted files
    → source ≢ root
    → target ≢ root
    → lookup q (rename_subtree files source target)
      ≡ or_else (origin files source target q) (left_over files source q)
unfolding rename_subtree
lookup-rename_subtree files source target q v hs ht = rw (
  lookup-insert_all q (moved files source target) _ (moved-IsSorted files source target v ht),
  lookup-moved files source target q v hs ht,
  lookup-kept files source q v,
)
