-- ===== src/Master/State/Copied.antt =====
-- The reference counts after a snapshot: every chunk of a copied file is counted once more.
use gfs_impl_cpp.Common.Paths.{child_prefix}
use gfs_impl_cpp.Master.Namespace
use gfs_impl_cpp.Master.Namespace.{Files, FileMeta, insert_new, erase_file}
use gfs_impl_cpp.Master.State.{MasterState, ref_all, copied_path, copy_all, apply_snapshot}
use gfs_impl_cpp.Master.State.Refcounts.{count, refs, refcount_of, refcount_of-ref_all}
use gfs_impl_cpp.Base.{
  Bool-cases, Option-cases, All, ℕ, ◌+◌, ◌≤◌, ◌<◌, ◌≡◌, refl, sym, ap, ◌∙◌, inl, inr, Bool, true,
  false, not, ◌||◌, Option, none, some, List, [], ◌∷◌, ◌++◌, arith,
}
use gfs_impl_cpp.Base.Bytes.{Bytes, bytes_key}
use gfs_impl_cpp.Base.Map.{
  nat_key, lookup, insert, contains, lookup-insert, IsSorted, insert-IsSorted, weigh,
}
use gfs_impl_cpp.Master.Namespace.{subtree, own_entry, without_hidden, range}
use gfs_impl_cpp.Common.Paths.{is_hidden_path}
use gfs_impl_cpp.Master.Namespace.Ranges.{with_prefix, range-with_prefix}
use gfs_impl_cpp.Master.Namespace.Moves.{with_prefix-IsSorted}
use gfs_impl_cpp.Master.Namespace.Totals.{All-self, All-of_with_prefix}
use gfs_impl_cpp.Master.State.Counted.{IsCounted, IsSmall, refs-insert, refs-erase}

All-counted : (r : ℕ → ℕ) (xs : List ℕ) → ((h : ℕ) → count h xs ≤ r h) → All (λ h. 0 < r h) xs
All-counted r [] b = tt
All-counted r (x ∷ xs) b = (
  unfold count in ground (arith, b x),
  All-counted r xs (λ h. unfold count in ground (arith, b h)),
)

-- The entries stand in the files.
abbrev AreFiles : Files → Files → Type 0
AreFiles files = All (λ e. lookup e.0 files ≡ some e.1)

-- One round of the loop, for a path that is not there yet.
copy_one : MasterState → Bytes → FileMeta → MasterState
copy_one s copied meta = record s {
  chunks = ref_all s.chunks meta.chunks;
  files = (insert_new s.files copied meta).0;
}

module _ (s : MasterState) (copied : Bytes) (meta : FileMeta)
    (free : Namespace.exists s.files copied ≡ false) where
  files-copy_one : (copy_one s copied meta).files ≡ insert copied meta s.files
  unfolding copy_one insert_new Namespace.exists
  files-copy_one = ground (arith, free)

  lookup-copied : lookup copied s.files ≡ none
  unfolding Namespace.exists contains
  lookup-copied = ground (arith, free, Option-cases (lookup copied s.files))

  refs-copy_one :
      (h : ℕ)
      → IsSorted s.files
      → refs h (copy_one s copied meta).files ≡ refs h s.files + count h meta.chunks
  refs-copy_one h v = rw files-copy_one (
      omega (
        arith,
        refs-insert h copied meta s.files v,
        ap (weigh (λ (m : FileMeta). count h m.chunks)) lookup-copied,
      ))

  copy_one-AreFiles : (l : Files) → AreFiles s.files l → AreFiles (copy_one s copied meta).files l
  copy_one-AreFiles [] a = tt
  copy_one-AreFiles ((k, w) ∷ l) a = (
    rw files-copy_one (ground (arith, lookup-insert k copied meta s.files, lookup-copied, a.0)),
    copy_one-AreFiles l a.1,
  )

  copy_one-IsCounted :
      (path : Bytes)
      → lookup path s.files ≡ some meta
      → IsSmall (copy_one s copied meta)
      → IsCounted s
      → IsCounted (copy_one s copied meta)
  copy_one-IsCounted path e small v = record {
    sorted = rw files-copy_one (insert-IsSorted copied meta s.files v.sorted);
    agree = λ h.
        counted h
        ∙ (ap (λ (n : ℕ). n + count h meta.chunks) (v.agree h) ∙ sym (refs-copy_one h v.sorted));
  }
    where
      within : (h : ℕ) → count h meta.chunks ≤ refcount_of s.chunks h
      within h = ground (arith, v.agree h, refs-erase h path s.files v.sorted, e)

      counted :
          (h : ℕ)
          → refcount_of (copy_one s copied meta).chunks h
            ≡ refcount_of s.chunks h + count h meta.chunks
      counted h =
          unfold copy_one in
          refcount_of-ref_all s.chunks meta.chunks
            (All-counted (λ h. refcount_of s.chunks h) meta.chunks within)
            (λ g. omega (arith, small g, v.agree g, refs-copy_one g v.sorted)) h

copy_all-skips :
    (s : MasterState) (source target path : Bytes) (meta : FileMeta) (l : Files)
    → Namespace.exists s.files (copied_path source target path) ≡ true
    → copy_all s source target ((path, meta) ∷ l) ≡ copy_all s source target l
unfolding copy_all
copy_all-skips s source target path meta l e = rw e

copy_all-copies :
    (s : MasterState) (source target path : Bytes) (meta : FileMeta) (l : Files)
    → Namespace.exists s.files (copied_path source target path) ≡ false
    → copy_all s source target ((path, meta) ∷ l)
      ≡ copy_all (copy_one s (copied_path source target path) meta) source target l
unfolding copy_all copy_one
copy_all-copies s source target path meta l e = rw e

copy_one-IsSorted :
    (s : MasterState) (copied : Bytes) (meta : FileMeta)
    → Namespace.exists s.files copied ≡ false
    → IsSorted s.files
    → IsSorted (copy_one s copied meta).files
copy_one-IsSorted s copied meta free v =
    rw (files-copy_one s copied meta free) (insert-IsSorted copied meta s.files v)

-- The loop only adds files.
refs-copy_all-le :
    (s : MasterState) (source target : Bytes) (l : Files) (h : ℕ)
    → IsSorted s.files
    → refs h s.files ≤ refs h (copy_all s source target l).files
refs-copy_all-le s source target [] h v = unfold copy_all in omega arith
refs-copy_all-le s source target ((path, meta) ∷ l) h v =
    elim (Bool-cases (Namespace.exists s.files (copied_path source target path))) [
      | inl e ↦
          rw (copy_all-skips s source target path meta l e) (refs-copy_all-le s source target l h v)
      | inr e ↦
          let copied = copied_path source target path in
          rw (copy_all-copies s source target path meta l e) (
            omega (
              arith,
              refs-copy_one s copied meta e h v,
              refs-copy_all-le (copy_one s copied meta) source target l h
                  (copy_one-IsSorted s copied meta e v),
            ))
    ]

copy_all-IsCounted :
    (s : MasterState) (source target : Bytes) (l : Files)
    → AreFiles s.files l
    → IsSmall (copy_all s source target l)
    → IsCounted s
    → IsCounted (copy_all s source target l)
copy_all-IsCounted s source target [] a small v = unfold copy_all in v
copy_all-IsCounted s source target ((path, meta) ∷ l) a small v =
    elim (Bool-cases (Namespace.exists s.files (copied_path source target path))) [
      | inl e ↦
          let skips = copy_all-skips s source target path meta l e in
          rw skips (copy_all-IsCounted s source target l a.1 (rw skips at small) v)
      | inr e ↦
          let copied = copied_path source target path in
          let copies = copy_all-copies s source target path meta l e in
          let s' = copy_one s copied meta in
          let small' : IsSmall (copy_all s' source target l) = rw copies at small in
          let now : IsSmall s' = λ h. omega (
            arith,
            small' h,
            refs-copy_all-le s' source target l h (copy_one-IsSorted s copied meta e v.sorted),
          ) in
          rw copies (
            copy_all-IsCounted s' source target l (copy_one-AreFiles s copied meta e l a.1) small'
              (copy_one-IsCounted s copied meta e path a.0 now v))
    ]

without_hidden-AreFiles :
    (files : Files) (skip : Bool) (l : Files)
    → AreFiles files l
    → AreFiles files (without_hidden skip l)
unfolding without_hidden
without_hidden-AreFiles files skip [] a = tt
without_hidden-AreFiles files skip ((k, w) ∷ l) a =
    ground (arith, without_hidden-AreFiles files skip l a.1)

subtree-AreFiles :
    (files : Files) (path : Bytes) (skip : Bool)
    → IsSorted files
    → AreFiles files (subtree files path skip)
unfolding subtree Namespace.find
subtree-AreFiles files path skip v = go (lookup path files) refl
  where
    p : Bytes
    p = child_prefix path

    rest : AreFiles files (without_hidden skip (range p files))
    rest = without_hidden-AreFiles files skip (range p files) (
        rw (range-with_prefix p files v) (
          All-of_with_prefix p files (with_prefix p files)
            (All-self (with_prefix p files) (with_prefix-IsSorted p files v))))

    go :
        (o : Option FileMeta)
        → lookup path files ≡ o
        → AreFiles files (own_entry skip path o ++ without_hidden skip (range p files))
    go none e = rest
    go (some m) e = elim (Bool-cases (not skip || not (is_hidden_path path))) [
      | inl q ↦ rw q (e, rest)
      | inr q ↦ rw q rest
    ]

pub apply_snapshot-IsCounted :
    (s : MasterState) (source target : Bytes)
    → IsSmall (apply_snapshot s source target)
    → IsCounted s
    → IsCounted (apply_snapshot s source target)
unfolding apply_snapshot
apply_snapshot-IsCounted s source target small v =
    copy_all-IsCounted s source target _ (subtree-AreFiles s.files source true v.sorted) small v
