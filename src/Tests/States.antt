-- ===== src/Tests/States.antt =====
-- The master's state under its log records.
use gfs_impl_cpp.Base.{ℕ, ◌≡◌, refl, [], ◌∷◌, arith}
use gfs_impl_cpp.Base.Bytes.{bytes, bytes_key}
use gfs_impl_cpp.Base.Map.{nat_key, keys, lookup, insert, IsSorted, total}
use gfs_impl_cpp.Master.ChunkTable.{ChunkMeta, fresh_meta}
use gfs_impl_cpp.Master.State.{MasterState, add_chunk, snapshot, apply}
use gfs_impl_cpp.Master.State.Refcounts.{count}
use gfs_impl_cpp.Master.State.Counted.{IsCounted, IsSmall}
use gfs_impl_cpp.Master.State.Records.{apply-IsCounted}
use gfs_impl_cpp.Master.State.Saved.{to_checkpoint, load, recompute_refcounts}
use gfs_impl_cpp.Master.State.Saved.Restored.{
  restored, recompute_refcounts-IsCounted, load-to_checkpoint,
}
use gfs_impl_cpp.Tests.{strings, state, of_chunks, files, files-IsSorted}

abbrev counted : ℕ → ChunkMeta
counted n = record fresh_meta { refcount = n }

abbrev before : MasterState
before = record {
  files = files;
  chunks = record { chunks = (1, counted 1) ∷ (2, counted 2) ∷ (3, counted 1) ∷ []; held_by = [] };
  next_handle = 4;
}

-- "/d" and what is below it are copied to "/e".
copied :
    keys (apply before (snapshot (bytes "/d") (bytes "/e"))).files
    ≡ bytes "/a" ∷ bytes "/d/x" ∷ bytes "/d/y/z" ∷ bytes "/d0" ∷ bytes "/e/x" ∷ bytes "/e/y/z" ∷ []
unfolding state
copied = refl

before-IsCounted : IsCounted before
unfolding lookup count total
before-IsCounted = record { sorted = files-IsSorted; agree = λ h. ground arith }

before-IsSmall : IsSmall before
unfolding lookup count total
before-IsSmall h = ground arith

after-files :
    (apply before (add_chunk (bytes "/a") 1 4)).files
    ≡ insert (bytes "/a") (of_chunks (1 ∷ 4 ∷ [])) files
unfolding state
after-files = refl

after-IsSmall : IsSmall (apply before (add_chunk (bytes "/a") 1 4))
unfolding strings count total
after-IsSmall h = rw after-files (ground arith)

apply-IsCounted_example : IsCounted (apply before (add_chunk (bytes "/a") 1 4))
apply-IsCounted_example =
    apply-IsCounted before (add_chunk (bytes "/a") 1 4) tt after-IsSmall before-IsCounted

recompute_refcounts-IsCounted_example :
    IsCounted (recompute_refcounts before) × ((recompute_refcounts before).files ≡ before.files)
recompute_refcounts-IsCounted_example =
    recompute_refcounts-IsCounted before files-IsSorted before-IsSmall

chunks-IsSorted : IsSorted before.chunks.chunks
chunks-IsSorted = ((refl, (refl, tt)), ((refl, tt), (tt, tt)))

load-to_checkpoint_example :
    let t = load (to_checkpoint before) in
    (t.files ≡ before.files)
    × (t.next_handle ≡ before.next_handle)
    × ((h : ℕ) → lookup h t.chunks.chunks ≡ restored (lookup h before.chunks.chunks))
load-to_checkpoint_example =
    load-to_checkpoint before files-IsSorted chunks-IsSorted (omega arith) (omega arith)
      (omega arith, (omega arith, (omega arith, tt)))
