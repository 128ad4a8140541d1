-- ===== src/Tests/Tables.antt =====
-- The chunk table and the namespace.
use gfs_impl_cpp.Base.{length, ◌≡◌, refl, ◌≢◌, true, false, ◌||◌, some, List, [], ◌∷◌}
use gfs_impl_cpp.Base.Bytes.{bytes, bytes_key}
use gfs_impl_cpp.Base.Int.{pos}
use gfs_impl_cpp.Base.Map.{nat_key, lookup, contains, total}
use gfs_impl_cpp.Common.Paths.{bytes_eq, root, child_prefix}
use gfs_impl_cpp.Master.ChunkTable.{empty, held_by_server}
use gfs_impl_cpp.Master.ChunkTable.Index.{run-held_by_server}
use gfs_impl_cpp.Master.ChunkTable.Located.{Call, creates, erases, adds, removes, run, located}
use gfs_impl_cpp.Master.Namespace.{range, is_directory, list_directory, rename_subtree}
use gfs_impl_cpp.Master.Namespace.Ranges.{
  with_prefix, has_entry, range-with_prefix, is_directory-with_prefix,
}
use gfs_impl_cpp.Master.Namespace.Rename.{origin, left_over, lookup-rename_subtree}
use gfs_impl_cpp.Master.Namespace.Moves.{or_else}
use gfs_impl_cpp.Master.Namespace.Totals.{total-rename_subtree}
use gfs_impl_cpp.Base.{◌||◌}
use gfs_impl_cpp.Tests.{tree, of_chunks, files, files-IsSorted}

abbrev calls : List Call
calls =
    creates 7 1
    ∷ adds 7 (bytes "s1") (pos 5)
    ∷ adds 7 (bytes "s2") (pos 6)
    ∷ removes 7 (bytes "s1")
    ∷ adds 7 (bytes "s1") (pos 9)
    ∷ erases 8
    ∷ []

run-held_by_server_example :
    (contains 7 (held_by_server (run empty calls) (bytes "s1"))
      ≡ located (run empty calls).chunks (bytes "s1") 7)
    × (lookup (bytes "s1") (run empty calls).held_by ≢ some [])
run-held_by_server_example = run-held_by_server calls (bytes "s1") 7

listing :
    list_directory files (bytes "/d") false
    ≡ record { name = bytes "x"; is_directory = false }
      ∷ record { name = bytes "y"; is_directory = true }
      ∷ []
unfolding tree
listing = refl

renamed :
    rename_subtree files (bytes "/d") (bytes "/e")
    ≡ (bytes "/a", of_chunks (1 ∷ []))
      ∷ (bytes "/d0", of_chunks [])
      ∷ (bytes "/e/x", of_chunks (2 ∷ []))
      ∷ (bytes "/e/y/z", of_chunks (3 ∷ 2 ∷ []))
      ∷ []
unfolding tree
renamed = refl

range-with_prefix_example : range (bytes "/d/") files ≡ with_prefix (bytes "/d/") files
range-with_prefix_example = range-with_prefix (bytes "/d/") files files-IsSorted

is_directory-with_prefix_example :
    is_directory files (bytes "/d")
    ≡ (bytes_eq (bytes "/d") root || has_entry (with_prefix (child_prefix (bytes "/d")) files))
is_directory-with_prefix_example = is_directory-with_prefix files (bytes "/d") files-IsSorted

lookup-rename_subtree_example :
    lookup (bytes "/e/x") (rename_subtree files (bytes "/d") (bytes "/e"))
    ≡ or_else
        (origin files (bytes "/d") (bytes "/e") (bytes "/e/x"))
        (left_over files (bytes "/d") (bytes "/e/x"))
lookup-rename_subtree_example =
    lookup-rename_subtree files (bytes "/d") (bytes "/e") (bytes "/e/x") files-IsSorted (cc) (cc)

total-rename_subtree_example :
    total (λ m. length m.chunks) (rename_subtree files (bytes "/d") (bytes "/e"))
    ≡ total (λ m. length m.chunks) files
total-rename_subtree_example =
    total-rename_subtree (λ m. length m.chunks) files (bytes "/d") (bytes "/e") files-IsSorted (cc)
      (unfold tree in record { no_file = refl; no_directory = refl })
