-- ===== src/Master/Namespace/Ranges.antt =====
-- The paths with a common prefix stand together in the order of the map, from `lower_bound` on, so
-- that the loops that start there and break visit all of them and no other.
use gfs_impl_cpp.Common.Paths.{root, starts_with, bytes_eq, child_prefix}
use gfs_impl_cpp.Master.Namespace.{
  FileMeta, Files, lower_bound, while_prefix, range, head_has_prefix, is_directory,
}
use gfs_impl_cpp.Base.{
  if◌then◌else◌, Bool-cases, ◌≡◌, refl, sym, ◌∙◌, inl, inr, Bool, true, false, ◌||◌, [], ◌∷◌, arith,
}
use gfs_impl_cpp.Base.Bytes.{Bytes, bytes_lt, bytes_key, bytes_lt_trans}
use gfs_impl_cpp.Base.Map.{nat_key, Above, IsSorted}

-- A path with the prefix is not less than the prefix.
prefix-not-lt : (p s : Bytes) → starts_with p s ≡ true → bytes_lt s p ≡ false
unfolding starts_with bytes_lt
prefix-not-lt [] s h = refl
prefix-not-lt (x ∷ p) [] h = cc
prefix-not-lt (x ∷ p) (y ∷ s) h = ground (arith, prefix-not-lt p s)

-- Behind a path that is not less than the prefix and does not have it, no path has it.
prefix_over :
    (p s t : Bytes)
    → bytes_lt s p ≡ false
    → starts_with p s ≡ false
    → bytes_lt s t ≡ true
    → starts_with p t ≡ false
unfolding starts_with bytes_lt
prefix_over [] s t h n l = cc
prefix_over (x ∷ p) [] t h n l = cc
prefix_over (x ∷ p) (y ∷ s) [] h n l = refl
prefix_over (x ∷ p) (y ∷ s) (z ∷ t) h n l = ground (arith, prefix_over p s t)

-- The entries whose paths have the prefix, in order.
unfoldable pub with_prefix : Bytes → Files → Files
with_prefix p [] = []
with_prefix p ((path, meta) ∷ files) =
    let rest = with_prefix p files in if starts_with p path then (path, meta) ∷ rest else rest

with_prefix-Above :
    (p s : Bytes) (files : Files)
    → bytes_lt s p ≡ false
    → starts_with p s ≡ false
    → Above s files
    → with_prefix p files ≡ []
unfolding with_prefix
with_prefix-Above p s [] h n a = refl
with_prefix-Above p s ((path, meta) ∷ files) h n a =
    ground (arith, prefix_over p s path, with_prefix-Above p s files h n a.1)

not-lt-step : (p s t : Bytes) → bytes_lt s p ≡ false → bytes_lt s t ≡ true → bytes_lt t p ≡ false
not-lt-step p s t h l = ground (arith, bytes_lt_trans s t p l)

while_prefix-with_prefix :
    (p s : Bytes) (files : Files)
    → bytes_lt s p ≡ false
    → Above s files
    → IsSorted files
    → while_prefix p files ≡ with_prefix p files
unfolding while_prefix with_prefix
while_prefix-with_prefix p s [] h a v = refl
while_prefix-with_prefix p s ((path, meta) ∷ files) h a v =
    let low = not-lt-step p s path h a.0 in
    ground
      (arith, while_prefix-with_prefix p path files low v.0 v.1, with_prefix-Above p path files low)

lower_bound-cons :
    (p path : Bytes) (meta : FileMeta) (files : Files)
    → bytes_lt path p ≡ false
    → lower_bound p ((path, meta) ∷ files) ≡ (path, meta) ∷ files
unfolding lower_bound
lower_bound-cons p path meta files e = rw e

range_skips :
    (p path : Bytes) (meta : FileMeta) (files : Files)
    → bytes_lt path p ≡ true
    → range p ((path, meta) ∷ files) ≡ range p files
unfolding range lower_bound
range_skips p path meta files e = rw e

with_prefix-skips :
    (p path : Bytes) (meta : FileMeta) (files : Files)
    → bytes_lt path p ≡ true
    → with_prefix p ((path, meta) ∷ files) ≡ with_prefix p files
unfolding with_prefix
with_prefix-skips p path meta files e = ground (arith, prefix-not-lt p path)

unfoldable pub has_entry : Files → Bool
has_entry [] = false
has_entry (e ∷ files) = true

head-range :
    (p : Bytes) (files : Files) → head_has_prefix p files ≡ has_entry (while_prefix p files)
unfolding while_prefix has_entry
head-range p [] = refl
head-range p ((path, meta) ∷ files) = ground arith

head_has_prefix-range :
    (p : Bytes) (files : Files)
    → head_has_prefix p (lower_bound p files) ≡ has_entry (range p files)
unfolding range
head_has_prefix-range p files = head-range p (lower_bound p files)

-- On a map in order, the loop from `lower_bound` to the break visits exactly the entries whose paths
-- have the prefix.
pub range-with_prefix :
    (p : Bytes) (files : Files) → IsSorted files → range p files ≡ with_prefix p files
range-with_prefix p [] v = unfold range with_prefix in refl
range-with_prefix p ((path, meta) ∷ files) v = elim (Bool-cases (bytes_lt path p)) [
  | inl e ↦
      range_skips p path meta files e
      ∙ (range-with_prefix p files v.1 ∙ sym (with_prefix-skips p path meta files e))
  | inr e ↦
      unfold range in
      rw (lower_bound-cons p path meta files e) (
        unfold while_prefix with_prefix in
        ground (
          arith,
          while_prefix-with_prefix p path files e v.0 v.1,
          with_prefix-Above p path files e,
        ))
]

-- A path is a directory exactly when it is the root or some file's path has its child prefix.
pub is_directory-with_prefix :
    (files : Files) (path : Bytes)
    → IsSorted files
    → is_directory files path
      ≡ (bytes_eq path root || has_entry (with_prefix (child_prefix path) files))
unfolding is_directory
is_directory-with_prefix files path v =
    rw
      (
        head_has_prefix-range (child_prefix path) files,
        range-with_prefix (child_prefix path) files v,
      )
      (ground arith)
