-- ===== src/Master/State/Counted.antt =====
-- The invariant of the reference counts, kept by every log record under the conditions that the
-- master checks before it logs the record.
use gfs_impl_cpp.Common.Paths.{root}
use gfs_impl_cpp.Master.ChunkTable
use gfs_impl_cpp.Master.ChunkTable.{ChunkTable, ChunkMeta}
use gfs_impl_cpp.Master.Namespace
use gfs_impl_cpp.Master.Namespace.{Files, FileMeta, insert_new, erase_file}
use gfs_impl_cpp.Master.Namespace.Totals.{IsFree, total-rename_subtree, rename_subtree-IsSorted}
use gfs_impl_cpp.Master.State.{
  u32_mod, MasterState, unref, apply_create, apply_rename, apply_remove, apply_alloc_handle,
  replace_at, apply_replace_chunk, append_at, apply_add_chunk, apply_bump_version, apply_drop_chunk,
}
use gfs_impl_cpp.Master.State.Refcounts.{
  count, refs, refcount_of, refcount_of-unref, refcount_of-unref_all, refcount_of-create_ref,
  refcount_of-erase_chunk, count-append, count-set, count-get_elem?,
}
use gfs_impl_cpp.Base.{
  ◌==◌, Bool-cases, Option-cases, length, get_elem?, set, ℕ, ◌+◌, ◌<◌, max, ◌≡◌, refl, sym, ◌∙◌,
  ◌≢◌, inl, inr, not, ◌&&◌, Option, none, some, [], ◌∷◌, ◌++◌, arith,
}
use gfs_impl_cpp.Base.Bytes.{Bytes, bytes_key}
use gfs_impl_cpp.Base.Map.{
  nat_key, lookup, insert, erase, contains, lookup-insert, IsSorted, insert-IsSorted,
  erase-IsSorted, weigh, total-insert, total-erase,
}

-- The files are in order, and every chunk's count is the number of times that files refer to it.
pub record IsCounted (s : MasterState) : Type 0 where
  pub sorted : IsSorted s.files
  pub agree : (h : ℕ) → refcount_of s.chunks h ≡ refs h s.files

-- No chunk is referred to so often that its `uint32_t` count would wrap.
abbrev pub IsSmall : MasterState → Type 0
IsSmall s = (h : ℕ) → refs h s.files < u32_mod

pub refs-insert :
    (h : ℕ) (path : Bytes) (meta : FileMeta) (files : Files)
    → IsSorted files
    → refs h (insert path meta files) + weigh (λ m. count h m.chunks) (lookup path files)
      ≡ refs h files + count h meta.chunks
refs-insert h path meta files v = total-insert (λ m. count h m.chunks) path meta files v

pub refs-erase :
    (h : ℕ) (path : Bytes) (files : Files)
    → IsSorted files
    → refs h (erase path files) + weigh (λ m. count h m.chunks) (lookup path files) ≡ refs h files
refs-erase h path files v = total-erase (λ m. count h m.chunks) path files v

pub apply_create-IsCounted :
    (s : MasterState) (path : Bytes) → IsCounted s → IsCounted (apply_create s path)
unfolding apply_create insert_new contains
apply_create-IsCounted s path v = record {
  sorted = ground (arith, v.sorted, insert-IsSorted path (record { chunks = [] }) s.files v.sorted);
  agree = λ h.
      unfold count in
      ground (
        arith,
        v.agree h,
        refs-insert h path (record { chunks = [] }) s.files v.sorted,
        Option-cases (lookup path s.files),
      );
}

pub apply_remove-IsCounted :
    (s : MasterState) (path : Bytes) → IsCounted s → IsCounted (apply_remove s path)
unfolding apply_remove
apply_remove-IsCounted s path v = elim (Option-cases (Namespace.find s.files path)) [
  | inl e ↦ rw (e, apply_remove) v
  | inr (m, e) ↦
      rw (e, apply_remove)
        (record {
          sorted = unfold erase_file in erase-IsSorted path s.files v.sorted;
          agree = λ h.
              unfold erase_file Namespace.find in
              ground (
                arith,
                v.agree h,
                e,
                refs-erase h path s.files v.sorted,
                refcount_of-unref_all s.chunks m.chunks h,
              );
        })
]

append_at-IsCounted :
    (s : MasterState) (path : Bytes) (m : FileMeta) (handle : ℕ)
    → Namespace.find s.files path ≡ some m
    → IsSmall (append_at s path m handle)
    → IsCounted s
    → IsCounted (append_at s path m handle)
unfolding append_at apply_alloc_handle
append_at-IsCounted s path m handle e small v = record {
  sorted = insert-IsSorted path _ s.files v.sorted;
  agree = λ h.
      unfold Namespace.find count in
      ground (
        arith,
        v.agree h,
        e,
        small h,
        refs-insert h path (record { chunks = m.chunks ++ handle ∷ [] }) s.files v.sorted,
        count-append h m.chunks (handle ∷ []),
        refcount_of-create_ref s.chunks handle h,
      );
}

replace_at-IsCounted :
    (s : MasterState) (path : Bytes) (m : FileMeta) (index old handle : ℕ)
    → Namespace.find s.files path ≡ some m
    → get_elem? m.chunks index ≡ some old
    → IsSmall (replace_at s path m index old handle)
    → IsCounted s
    → IsCounted (replace_at s path m index old handle)
unfolding replace_at apply_alloc_handle
replace_at-IsCounted s path m index old handle e g small v = record {
  sorted = insert-IsSorted path _ s.files v.sorted;
  agree = λ h.
      unfold Namespace.find count in
      ground (
        arith,
        v.agree h,
        e,
        small h,
        refs-insert h path (record { chunks = set m.chunks index handle }) s.files v.sorted,
        count-set h m.chunks index old handle g,
        count-get_elem? h m.chunks index old g,
        refs-erase h path s.files v.sorted,
        refcount_of-create_ref (unref s.chunks old) handle h,
        refcount_of-unref s.chunks old h,
      );
}

pub apply_replace_chunk-IsCounted :
    (s : MasterState) (path : Bytes) (index handle : ℕ)
    → IsSmall (apply_replace_chunk s path index handle)
    → IsCounted s
    → IsCounted (apply_replace_chunk s path index handle)
unfolding apply_replace_chunk
apply_replace_chunk-IsCounted s path index handle small v = go (Namespace.find s.files path) refl
  where
    at_index :
        (m : FileMeta)
        → Namespace.find s.files path ≡ some m
        → (o : Option ℕ) → get_elem? m.chunks index ≡ o
        → IsCounted (apply_replace_chunk s path index handle)
    at_index m e none g = rw (e, apply_replace_chunk, g, apply_replace_chunk) v
    at_index m e (some old) g = elim (Bool-cases (old == handle)) [
      | inl same ↦ rw (e, apply_replace_chunk, g, apply_replace_chunk, same) v
      | inr other ↦
          rw (e, apply_replace_chunk, g, apply_replace_chunk, other)
            (replace_at-IsCounted s path m index old handle e g
              (rw (e, apply_replace_chunk, g, apply_replace_chunk, other) at small) v)
    ]

    go :
        (o : Option FileMeta)
        → Namespace.find s.files path ≡ o
        → IsCounted (apply_replace_chunk s path index handle)
    go none e = rw (e, apply_replace_chunk) v
    go (some m) e = at_index m e (get_elem? m.chunks index) refl

pub apply_add_chunk-IsCounted :
    (s : MasterState) (path : Bytes) (index handle : ℕ)
    → IsSmall (apply_add_chunk s path index handle)
    → IsCounted s
    → IsCounted (apply_add_chunk s path index handle)
unfolding apply_add_chunk
apply_add_chunk-IsCounted s path index handle small v = go (Namespace.find s.files path) refl
  where
    at_index :
        (m : FileMeta)
        → Namespace.find s.files path ≡ some m
        → (o : Option ℕ) → get_elem? m.chunks index ≡ o
        → IsCounted (apply_add_chunk s path index handle)
    at_index m e (some old) g = elim (Bool-cases (old == handle)) [
      | inl same ↦ rw (e, apply_add_chunk, g, apply_add_chunk, same) v
      | inr other ↦
          rw (e, apply_add_chunk, g, apply_add_chunk, other)
            (apply_replace_chunk-IsCounted s path index handle
              (rw (e, apply_add_chunk, g, apply_add_chunk, other) at small) v)
    ]
    at_index m e none g = elim (Bool-cases (index == length m.chunks)) [
      | inl last ↦
          rw (e, apply_add_chunk, g, apply_add_chunk, last)
            (append_at-IsCounted s path m handle e
              (rw (e, apply_add_chunk, g, apply_add_chunk, last) at small) v)
      | inr hole ↦ rw (e, apply_add_chunk, g, apply_add_chunk, hole) v
    ]

    go :
        (o : Option FileMeta)
        → Namespace.find s.files path ≡ o
        → IsCounted (apply_add_chunk s path index handle)
    go none e = rw (e, apply_add_chunk) v
    go (some m) e = at_index m e (get_elem? m.chunks index) refl

pub apply_rename-IsCounted :
    (s : MasterState) (source target : Bytes)
    → target ≢ root
    → IsFree s.files target
    → IsCounted s
    → IsCounted (apply_rename s source target)
unfolding apply_rename
apply_rename-IsCounted s source target ht f v =
    elim (Bool-cases
      (not (Namespace.exists s.files source) && not (Namespace.is_directory s.files source))) [
        | inl e ↦ rw e v
        | inr e ↦ rw e (record {
          sorted = rename_subtree-IsSorted s.files source target v.sorted;
          agree = λ h.
              v.agree h
              ∙ sym (
                  total-rename_subtree (λ m. count h m.chunks) s.files source target v.sorted ht f);
        })
      ]

pub apply_bump_version-IsCounted :
    (s : MasterState) (handle version : ℕ)
    → IsCounted s
    → IsCounted (apply_bump_version s handle version)
unfolding apply_bump_version
apply_bump_version-IsCounted s handle version v =
    elim (Option-cases (lookup handle s.chunks.chunks)) [
      | inl e ↦ unfold ChunkTable.find in rw (e, apply_bump_version) v
      | inr (m, e) ↦
          unfold ChunkTable.find ChunkTable.put in
          rw (e, apply_bump_version)
            (record {
              sorted = v.sorted;
              agree = λ h. ground (
                arith,
                v.agree h,
                e,
                lookup-insert h handle (record m { version = max m.version version })
                    s.chunks.chunks,
              );
            })
    ]

pub apply_drop_chunk-IsCounted :
    (s : MasterState) (handle : ℕ)
    → refs handle s.files ≡ 0
    → IsCounted s
    → IsCounted (apply_drop_chunk s handle)
unfolding apply_drop_chunk
apply_drop_chunk-IsCounted s handle e v = record {
  sorted = v.sorted;
  agree = λ h. ground (arith, v.agree h, refcount_of-erase_chunk s.chunks handle h);
}
