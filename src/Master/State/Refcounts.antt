-- ===== src/Master/State/Refcounts.antt =====
-- The reference counts of the chunk table: what each update does to them, for every handle.
use gfs_impl_cpp.Master.ChunkTable
use gfs_impl_cpp.Master.ChunkTable.{ChunkTable, ChunkMeta, find, put, create, erase_chunk}
use gfs_impl_cpp.Master.Namespace.{Files}
use gfs_impl_cpp.Master.State.{u32_mod, unref, unref_all, count_up, ref, ref_all, create_ref}
use gfs_impl_cpp.Base.{
  ◌==◌, if◌then◌else◌, Option-cases, get_elem?, set, All, ℕ, zero, suc, ◌+◌, ◌-◌, ◌%◌, ◌≤◌, ◌<◌,
  ◌≡◌, ◌≢◌, inl, inr, false, Option, none, some, List, [], ◌∷◌, ◌++◌, arith,
}
use gfs_impl_cpp.Base.Bytes.{bytes_key}
use gfs_impl_cpp.Base.Map.{nat_key, lookup, lookup-insert, lookup-erase, total}

-- How often the handle occurs in the list.
unfoldable pub count : ℕ → List ℕ → ℕ
count h [] = 0
count h (x ∷ xs) = if h == x then suc (count h xs) else count h xs

-- How often files refer to the handle.
abbrev pub refs : ℕ → Files → ℕ
refs h files = total (λ m. count h m.chunks) files

abbrev pub refcount : Option ChunkMeta → ℕ
refcount none = 0
refcount (some m) = m.refcount

-- The count that the table keeps; 0 for a chunk that it does not have.
abbrev pub refcount_of : ChunkTable → ℕ → ℕ
refcount_of t h = refcount (lookup h t.chunks)

pub refcount_of-unref :
    (t : ChunkTable) (h g : ℕ)
    → refcount_of (unref t h) g ≡ (if g == h then refcount_of t g - 1 else refcount_of t g)
unfolding unref find put
refcount_of-unref t h g = elim (Option-cases (lookup h t.chunks)) [
  | inl e ↦ ground arith
  | inr (m, e) ↦ ground (arith, lookup-insert g h (record m { refcount = m.refcount - 1 }) t.chunks)
]

pub refcount_of-unref_all :
    (t : ChunkTable) (hs : List ℕ) (g : ℕ)
    → refcount_of (unref_all t hs) g ≡ refcount_of t g - count g hs
unfolding unref_all count
refcount_of-unref_all t [] g = omega arith
refcount_of-unref_all t (h ∷ hs) g =
    ground (arith, refcount_of-unref_all (unref t h) hs g, refcount_of-unref t h g)

pub refcount_of-create :
    (t : ChunkTable) (h v g : ℕ) → refcount_of (create t h v) g ≡ refcount_of t g
unfolding create put
refcount_of-create t h v g = ground (
  arith,
  Option-cases (lookup h t.chunks),
  lookup-insert g h (record ChunkTable.fresh_meta { version = v }) t.chunks,
)

pub find-create : (t : ChunkTable) (h v : ℕ) → find (create t h v) h ≢ none
unfolding find create put
find-create t h v e = ground (
  arith,
  Option-cases (lookup h t.chunks),
  lookup-insert h h (record ChunkTable.fresh_meta { version = v }) t.chunks,
)

pub refcount_of-create_ref :
    (t : ChunkTable) (h g : ℕ)
    → refcount_of (create_ref t h) g
      ≡ (if g == h then (refcount_of t g + 1) % u32_mod else refcount_of t g)
unfolding create_ref
refcount_of-create_ref t h g = elim (Option-cases (find (create t h 1) h)) [
  | inl e ↦ absurd (find-create t h 1 e)
  | inr (m, e) ↦
      unfold find put in
      ground (
        arith,
        refcount_of-create t h 1 g,
        lookup-insert g h (record (count_up m) { pending = false }) (create t h 1).chunks,
      )
]

refcount_of-ref :
    (t : ChunkTable) (h g : ℕ)
    → 0 < refcount_of t h
    → refcount_of (ref t h) g
      ≡ (if g == h then (refcount_of t g + 1) % u32_mod else refcount_of t g)
unfolding ref find put
refcount_of-ref t h g p = elim (Option-cases (lookup h t.chunks)) [
  | inl e ↦ absurd (ground arith)
  | inr (m, e) ↦ ground (arith, lookup-insert g h (count_up m) t.chunks)
]

-- With every handle counted already and no count near the limit, each occurrence adds one.
pub refcount_of-ref_all :
    (t : ChunkTable) (hs : List ℕ)
    → All (λ h. 0 < refcount_of t h) hs
    → ((g : ℕ) → refcount_of t g + count g hs < u32_mod)
    → (g : ℕ) → refcount_of (ref_all t hs) g ≡ refcount_of t g + count g hs
unfolding ref_all count
refcount_of-ref_all t [] p b g = omega arith
refcount_of-ref_all t (h ∷ hs) p b g =
    ground (
      arith,
      refcount_of-ref_all (ref t h) hs (still hs p.1) bound g,
      refcount_of-ref t h g p.0,
      b g,
    )
  where
    still :
        (l : List ℕ) → All (λ h. 0 < refcount_of t h) l → All (λ x. 0 < refcount_of (ref t h) x) l
    still [] q = tt
    still (x ∷ l) q = (ground (arith, refcount_of-ref t h x p.0, b x), still l q.1)

    bound : (x : ℕ) → refcount_of (ref t h) x + count x hs < u32_mod
    bound x = ground (arith, refcount_of-ref t h x p.0, b x)

pub refcount_of-erase_chunk :
    (t : ChunkTable) (h g : ℕ)
    → refcount_of (erase_chunk t h) g ≡ (if g == h then 0 else refcount_of t g)
unfolding erase_chunk
refcount_of-erase_chunk t h g = elim (Option-cases (lookup h t.chunks)) [
  | inl e ↦ ground arith
  | inr (m, e) ↦ ground (arith, lookup-erase g h t.chunks)
]

pub count-append : (g : ℕ) (xs ys : List ℕ) → count g (xs ++ ys) ≡ count g xs + count g ys
unfolding count
count-append g [] ys = omega arith
count-append g (x ∷ xs) ys = ground (arith, count-append g xs ys)

pub count-set :
    (g : ℕ) (xs : List ℕ) (i old new : ℕ)
    → get_elem? xs i ≡ some old
    → count g (set xs i new) + count g (old ∷ []) ≡ count g xs + count g (new ∷ [])
unfolding count
count-set g [] i old new e = cc
count-set g (x ∷ xs) zero old new e = ground arith
count-set g (x ∷ xs) (suc i) old new e = ground (arith, count-set g xs i old new e)

pub count-get_elem? :
    (g : ℕ) (xs : List ℕ) (i old : ℕ) → get_elem? xs i ≡ some old → count g (old ∷ []) ≤ count g xs
unfolding count
count-get_elem? g [] i old e = cc
count-get_elem? g (x ∷ xs) zero old e = ground arith
count-get_elem? g (x ∷ xs) (suc i) old e = ground (arith, count-get_elem? g xs i old e)
