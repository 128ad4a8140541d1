-- ===== src/Master/State/Saved/Restored.antt =====
-- What recovery restores.
use gfs_impl_cpp.Master.ChunkTable
use gfs_impl_cpp.Master.ChunkTable.{ChunkTable, ChunkMeta}
use gfs_impl_cpp.Master.Namespace
use gfs_impl_cpp.Master.Namespace.{Files, FileMeta}
use gfs_impl_cpp.Master.Namespace.Moves.{or_else}
use gfs_impl_cpp.Master.State.{u32_mod, u64_mod, MasterState, count_up, apply_alloc_handle}
use gfs_impl_cpp.Master.State.Refcounts.{
  count, refs, refcount, refcount_of, refcount_of-create, find-create,
}
use gfs_impl_cpp.Master.State.Counted.{IsCounted, IsSmall}
use gfs_impl_cpp.Master.State.Saved.{
  FileEntry, ChunkEntry, save_files, save_chunks, to_checkpoint, load_files, load_chunks, load,
  zero_counts, create_count, count_handles, count_files, recompute_refcounts,
}
use gfs_impl_cpp.Base.{
  ◌==◌, if◌then◌else◌, Bool-cases, Option-cases, All, ℕ, ◌+◌, ◌%◌, ◌≤◌, ◌<◌, max, ◌≡◌, refl, ◌∙◌,
  inl, inr, ite, Option, none, some, List, [], ◌∷◌, arith, ℕ_discrete,
}
use gfs_impl_cpp.Base.Bytes.{Bytes, bytes_key}
use gfs_impl_cpp.Base.Map.{
  nat_key, Map, lookup, insert, contains, lookup-cons, lookup-insert, IsSorted, lookup-Above,
  insert-IsSorted, Map-ext, total,
}

refcount_of-create_count :
    (t : ChunkTable) (h g : ℕ)
    → refcount_of (create_count t h) g
      ≡ (if g == h then (refcount_of t g + 1) % u32_mod else refcount_of t g)
unfolding create_count
refcount_of-create_count t h g = elim (Option-cases (ChunkTable.find (ChunkTable.create t h 1) h)) [
  | inl e ↦ absurd (find-create t h 1 e)
  | inr (m, e) ↦
      unfold ChunkTable.find ChunkTable.put in
      ground (
        arith,
        refcount_of-create t h 1 g,
        lookup-insert g h (count_up m) (ChunkTable.create t h 1).chunks,
      )
]

refcount_of-count_handles :
    (s : MasterState) (hs : List ℕ) (g : ℕ)
    → refcount_of s.chunks g + count g hs < u32_mod
    → refcount_of (count_handles s hs).chunks g ≡ refcount_of s.chunks g + count g hs
unfolding count_handles count apply_alloc_handle
refcount_of-count_handles s [] g b = omega arith
refcount_of-count_handles s (h ∷ hs) g b = ground (
  arith,
  refcount_of-count_handles (apply_alloc_handle (record s { chunks = create_count s.chunks h }) h)
      hs g,
  refcount_of-create_count s.chunks h g,
)

refcount_of-count_files :
    (s : MasterState) (files : Files) (g : ℕ)
    → refcount_of s.chunks g + refs g files < u32_mod
    → refcount_of (count_files s files).chunks g ≡ refcount_of s.chunks g + refs g files
unfolding count_files total
refcount_of-count_files s [] g b = omega arith
refcount_of-count_files s ((path, meta) ∷ files) g b = omega (
  arith,
  refcount_of-count_files (count_handles s meta.chunks) files g,
  refcount_of-count_handles s meta.chunks g,
)

files-count_handles : (s : MasterState) (hs : List ℕ) → (count_handles s hs).files ≡ s.files
unfolding count_handles apply_alloc_handle
files-count_handles s [] = refl
files-count_handles s (h ∷ hs) =
    files-count_handles (apply_alloc_handle (record s { chunks = create_count s.chunks h }) h) hs

files-count_files : (s : MasterState) (files : Files) → (count_files s files).files ≡ s.files
unfolding count_files
files-count_files s [] = refl
files-count_files s ((path, meta) ∷ files) =
    files-count_files (count_handles s meta.chunks) files ∙ files-count_handles s meta.chunks

refcount-zero_counts :
    (h : ℕ) (chunks : Map ℕ ChunkMeta) → refcount (lookup h (zero_counts chunks)) ≡ 0
unfolding zero_counts lookup
refcount-zero_counts h [] = refl
refcount-zero_counts h ((k, m) ∷ chunks) = ground (arith, refcount-zero_counts h chunks)

-- Whatever counts the replayed state holds, after `RecomputeRefcounts` every chunk's count is the
-- number of times that files refer to it, if the files are in order and no number reaches 2^32; and
-- the files are unchanged.
pub recompute_refcounts-IsCounted :
    (s : MasterState)
    → IsSorted s.files
    → IsSmall s
    → IsCounted (recompute_refcounts s) × ((recompute_refcounts s).files ≡ s.files)
unfolding recompute_refcounts
recompute_refcounts-IsCounted s v small = (
  record {
    sorted = rw (files-count_files zeroed s.files) v;
    agree = λ h. rw (files-count_files zeroed s.files) (
        omega (
          arith,
          small h,
          refcount-zero_counts h s.chunks.chunks,
          refcount_of-count_files zeroed s.files h,
        ));
  },
  files-count_files zeroed s.files,
)
  where
    zeroed : MasterState
    zeroed = record s { chunks = record s.chunks { chunks = zero_counts s.chunks.chunks } }

lookup-load_files :
    (l acc : Files) (q : Bytes)
    → lookup q (load_files acc (save_files l)) ≡ or_else (lookup q acc) (lookup q l)
unfolding load_files save_files Namespace.insert_new contains
lookup-load_files [] acc q = ground (arith, Option-cases (lookup q acc), lookup-nil q)
  where
    lookup-nil : (q : Bytes) → lookup {V = FileMeta} q [] ≡ none
    lookup-nil q = unfold lookup in refl
lookup-load_files ((path, meta) ∷ l) acc q = ground (
  arith,
  lookup-load_files l acc q,
  lookup-load_files l (insert path meta acc) q,
  lookup-insert q path meta acc,
  lookup-cons q path meta l,
  Option-cases (lookup q acc),
  Option-cases (lookup path acc),
)

load_files-IsSorted :
    (es : List FileEntry) (acc : Files) → IsSorted acc → IsSorted (load_files acc es)
unfolding load_files Namespace.insert_new
load_files-IsSorted [] acc v = v
load_files-IsSorted (e ∷ es) acc v =
    load_files-IsSorted es _
      (ground (arith, insert-IsSorted e.path (record { chunks = e.chunk_handles }) acc v))

-- The files of a checkpoint are the files that were saved.
load_files-save_files : (files : Files) → IsSorted files → load_files [] (save_files files) ≡ files
load_files-save_files files v =
    Map-ext (load_files [] (save_files files)) files (load_files-IsSorted (save_files files) [] tt)
      v λ q. lookup-load_files files [] q ∙ (unfold lookup in refl)

-- What a checkpoint keeps of a chunk: its version, unless its creation is pending.
abbrev pub restored : Option ChunkMeta → Option ChunkMeta
restored none = none
restored (some m) =
    if m.pending then none else some (record ChunkTable.fresh_meta { version = m.version })

lookup-create :
    (t : ChunkTable) (h v g : ℕ)
    → lookup g (ChunkTable.create t h v).chunks
      ≡ ite
          (ℕ_discrete g h)
          (or_else (lookup g t.chunks) (some (record ChunkTable.fresh_meta { version = v })))
          (lookup g t.chunks)
unfolding ChunkTable.create ChunkTable.put
lookup-create t h v g = ground (
  arith,
  Option-cases (lookup h t.chunks),
  lookup-insert g h (record ChunkTable.fresh_meta { version = v }) t.chunks,
)

lookup-load_chunks :
    (l : Map ℕ ChunkMeta) (s : MasterState) (h : ℕ)
    → IsSorted l
    → lookup h (load_chunks s (save_chunks l)).chunks.chunks
      ≡ or_else (lookup h s.chunks.chunks) (restored (lookup h l))
unfolding load_chunks save_chunks apply_alloc_handle
lookup-load_chunks [] s h v = unfold lookup in ground arith
lookup-load_chunks ((k, m) ∷ l) s h v = elim (Bool-cases m.pending) [
  | inl p ↦
      rw p (ground (arith, lookup-load_chunks l s h v.1, lookup-cons h k m l, lookup-Above k l v.0))
  | inr p ↦ rw p (
      ground (
        arith,
        lookup-load_chunks l
            (apply_alloc_handle (record s { chunks = ChunkTable.create s.chunks k m.version }) k) h
            v.1,
        lookup-create s.chunks k m.version h,
        lookup-cons h k m l,
        lookup-Above k l v.0,
      ))
]

files-load_chunks : (es : List ChunkEntry) (s : MasterState) → (load_chunks s es).files ≡ s.files
unfolding load_chunks apply_alloc_handle
files-load_chunks [] s = refl
files-load_chunks (e ∷ es) s = files-load_chunks es (
    apply_alloc_handle (record s { chunks = ChunkTable.create s.chunks e.handle e.version })
      e.handle)

next_handle-load_chunks :
    (es : List ChunkEntry) (s : MasterState) (n : ℕ)
    → n < u64_mod
    → n ≤ s.next_handle
    → All (λ e. e.handle < n) es
    → (load_chunks s es).next_handle ≡ s.next_handle
unfolding load_chunks apply_alloc_handle
next_handle-load_chunks [] s n b le h = refl
next_handle-load_chunks (e ∷ es) s n b le h =
    next_handle-load_chunks es
      (apply_alloc_handle (record s { chunks = ChunkTable.create s.chunks e.handle e.version })
        e.handle)
      n b (omega arith) h.1
    ∙ omega (arith, h.0)

save_chunks-below :
    (n : ℕ) (l : Map ℕ ChunkMeta) → All (λ e. e.0 < n) l → All (λ e. e.handle < n) (save_chunks l)
unfolding save_chunks
save_chunks-below n [] h = tt
save_chunks-below n ((k, m) ∷ l) h = ground (arith, save_chunks-below n l h.1)

-- Loading a checkpoint of a state gives back its files, its next handle, and every chunk that was
-- not pending, with its version, no references counted yet, no locations and no lease. It holds for
-- tables in order with a next handle of at least 1 that is above every handle and below 2^64.
pub load-to_checkpoint :
    (s : MasterState)
    → IsSorted s.files
    → IsSorted s.chunks.chunks
    → 1 ≤ s.next_handle
    → s.next_handle < u64_mod
    → All (λ e. e.0 < s.next_handle) s.chunks.chunks
    → let t = load (to_checkpoint s) in
      (t.files ≡ s.files)
      × (t.next_handle ≡ s.next_handle)
      × ((h : ℕ) → lookup h t.chunks.chunks ≡ restored (lookup h s.chunks.chunks))
unfolding load to_checkpoint
load-to_checkpoint s vf vc one b below =
    let start : MasterState = record {
      files = load_files [] (save_files s.files);
      chunks = ChunkTable.empty;
      next_handle = max 1 s.next_handle;
    } in
    let same : max 1 s.next_handle ≡ s.next_handle = omega arith in
    (
      files-load_chunks (save_chunks s.chunks.chunks) start ∙ load_files-save_files s.files vf,
      next_handle-load_chunks (save_chunks s.chunks.chunks) start s.next_handle b (omega arith)
            (save_chunks-below s.next_handle s.chunks.chunks below)
          ∙ same,
      λ h. lookup-load_chunks s.chunks.chunks start h vc ∙ (unfold lookup in refl),
    )
