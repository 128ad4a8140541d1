-- ===== src/Master/Handlers/Collection.antt =====
-- `Master::GcPass` of src/master/master.cc: which chunks the last section drops.
use gfs_impl_cpp.Base.{
  ltb, ◌==◌, if◌then◌else◌, Option-cases, ℕ, ◌≡◌, refl, inl, inr, Bool, false, not, ◌&&◌, ◌||◌,
  Option, none, some, List, [], ◌∷◌, arith,
}
use gfs_impl_cpp.Base.Bytes.{bytes_key}
use gfs_impl_cpp.Base.Map.{
  nat_key, Map, Set, lookup, contains, lookup-erase, contains-insert, IsSorted, lookup-Above, total,
}
use gfs_impl_cpp.Master.ChunkTable.{ChunkTable, ChunkMeta, erase_chunk}
use gfs_impl_cpp.Master.Namespace.{Files}
use gfs_impl_cpp.Master.State.{apply_drop_chunk, drop_chunk}
use gfs_impl_cpp.Master.State.Refcounts.{count, refs, count-append}
use gfs_impl_cpp.Master.Handlers.{Master, log, all_handles, handle_set}
use gfs_impl_cpp.Master.Handlers.Gc.{orphans, drop_orphans, gc_collect}

count-all_handles : (h : ℕ) (files : Files) → count h (all_handles files) ≡ refs h files
unfolding all_handles total count
count-all_handles h [] = refl
count-all_handles h ((path, m) ∷ files) =
    ground (arith, count-append h m.chunks (all_handles files), count-all_handles h files)

contains-handle_set :
    (h : ℕ) (handles : List ℕ) → contains h (handle_set handles) ≡ ltb 0 (count h handles)
unfolding handle_set count
contains-handle_set h [] = unfold contains lookup in refl
contains-handle_set h (x ∷ handles) =
    ground (arith, contains-insert h x tt (handle_set handles), contains-handle_set h handles)

-- What is left of a chunk to which so many files refer.
abbrev pub collected : ℕ → Option ChunkMeta → Option ChunkMeta
collected references none = none
collected references (some meta) = if meta.pending || ltb 0 references then some meta else none

abbrev is_orphan : Bool → Option ChunkMeta → Bool
is_orphan referenced none = false
is_orphan referenced (some meta) = not meta.pending && not referenced

is_orphan-orphans :
    (referenced : Set ℕ) (h : ℕ) (chunks : Map ℕ ChunkMeta)
    → IsSorted chunks
    → ltb 0 (count h (orphans referenced chunks))
      ≡ is_orphan (contains h referenced) (lookup h chunks)
unfolding orphans count lookup
is_orphan-orphans referenced h [] v = refl
is_orphan-orphans referenced h ((handle, meta) ∷ chunks) v =
    ground (arith, is_orphan-orphans referenced h chunks v.1, lookup-Above handle chunks v.0)

lookup-erase_chunk :
    (t : ChunkTable) (handle h : ℕ)
    → lookup h (erase_chunk t handle).chunks ≡ (if h == handle then none else lookup h t.chunks)
unfolding erase_chunk
lookup-erase_chunk t handle h = elim (Option-cases (lookup handle t.chunks)) [
  | inl e ↦ ground (arith, e)
  | inr (m, e) ↦ ground (arith, e, lookup-erase h handle t.chunks)
]

abbrev dropped : Master → ℕ → Master
dropped m handle = log (record m { state = apply_drop_chunk m.state handle }) (drop_chunk handle)

lookup-drop_orphans :
    (m : Master) (handles : List ℕ) (h : ℕ)
    → lookup h (drop_orphans m handles).state.chunks.chunks
      ≡ (if ltb 0 (count h handles) then none else lookup h m.state.chunks.chunks)
unfolding drop_orphans count apply_drop_chunk
lookup-drop_orphans m [] h = refl
lookup-drop_orphans m (handle ∷ handles) h = ground (
  arith,
  lookup-drop_orphans (dropped m handle) handles h,
  lookup-erase_chunk m.state.chunks handle h,
)

files-drop_orphans :
    (m : Master) (handles : List ℕ) → (drop_orphans m handles).state.files ≡ m.state.files
unfolding drop_orphans apply_drop_chunk
files-drop_orphans m [] = refl
files-drop_orphans m (handle ∷ handles) = files-drop_orphans (dropped m handle) handles

-- The last section of a garbage collection leaves the files alone and drops exactly the chunks that
-- are not pending and that no file refers to; every other chunk keeps all that is known of it.
pub lookup-gc_collect :
    (m : Master)
    → IsSorted m.state.chunks.chunks
    → ((gc_collect m).state.files ≡ m.state.files)
      × ((h : ℕ)
          → lookup h (gc_collect m).state.chunks.chunks
            ≡ collected (refs h m.state.files) (lookup h m.state.chunks.chunks))
unfolding gc_collect
lookup-gc_collect m v = (
  files-drop_orphans m _,
  λ h.
      let referenced = handle_set (all_handles m.state.files) in
      ground (
        arith,
        lookup-drop_orphans m (orphans referenced m.state.chunks.chunks) h,
        is_orphan-orphans referenced h m.state.chunks.chunks v,
        contains-handle_set h (all_handles m.state.files),
        count-all_handles h m.state.files,
        Option-cases (lookup h m.state.chunks.chunks),
      ),
)
