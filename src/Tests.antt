-- ===== src/Tests.antt =====
-- Concrete inputs: runs of the model, and the theorems applied where their hypotheses hold.
mod Texts
mod Tables
mod States
mod Leases
mod Buffers
mod Requests
mod Chunks
mod Locks
use gfs_impl_cpp.Base.{ℕ, refl, List, [], ◌∷◌, ℕ_discrete}
use gfs_impl_cpp.Base.Bytes.{bytes, bytes_discrete, bytes_lt, bytes_key, List-discrete}
use gfs_impl_cpp.Base.Map.{nat_key, lookup, insert, erase, contains, IsSorted}
use gfs_impl_cpp.Common.Decimal.{
  to_string, from_chars, digits_of, print_nat, parse_from, parse_nat, negated, unsigned,
}
use gfs_impl_cpp.Common.Paths.{
  until, beyond, rfind, starts_with, bad_component, check_components, ends_with, is_valid_path,
  parent_at, parent_of, base_name, cuts, ancestors_of, is_ancestor_or_self, child_prefix,
  is_hidden_path, hidden_name_for, parse_stamped, parse_hidden_name,
}
use gfs_impl_cpp.Master.ChunkTable
use gfs_impl_cpp.Master.ChunkTable.{ChunkTable}
use gfs_impl_cpp.Master.Namespace
use gfs_impl_cpp.Master.Namespace.{
  Files, FileMeta, lower_bound, while_prefix, range, is_directory, has_file_ancestor, insert_new,
  erase_file, without_hidden, subtree, list_from, list_directory, moved_paths, erase_all,
  insert_all, rename_subtree,
}
use gfs_impl_cpp.Master.State.{
  unref, unref_all, ref, ref_all, create_ref, apply_create, apply_rename, apply_remove,
  apply_alloc_handle, replace_at, apply_replace_chunk, append_at, apply_add_chunk, copy_all,
  apply_snapshot, apply_bump_version, apply_drop_chunk, apply,
}
use gfs_impl_cpp.Master.State.Refcounts.{count}
use gfs_impl_cpp.Master.State.Saved.{
  to_checkpoint, load, recompute_refcounts, save_files, save_chunks, load_files, load_chunks,
}
use gfs_impl_cpp.Chunkserver.LeaseTable
use gfs_impl_cpp.Chunkserver.LeaseTable.Serials
use gfs_impl_cpp.Master.LeaseManager

unfoldable pub strings : Unit {0}
unfolding List-discrete bytes_discrete bytes_lt ℕ_discrete lookup insert erase contains until beyond
    rfind starts_with bad_component check_components ends_with is_valid_path parent_at parent_of
    base_name cuts ancestors_of is_ancestor_or_self child_prefix is_hidden_path hidden_name_for
    parse_stamped parse_hidden_name to_string from_chars digits_of print_nat parse_from parse_nat
    negated unsigned
strings = tt

unfoldable pub tree : Unit {0}
unfolding strings Namespace.find Namespace.exists lower_bound while_prefix range is_directory
    has_file_ancestor insert_new erase_file without_hidden subtree list_from list_directory
    moved_paths erase_all insert_all rename_subtree
tree = tt

abbrev pub of_chunks : List ℕ → FileMeta
of_chunks handles = record { chunks = handles }

abbrev pub files : Files
files =
    (bytes "/a", of_chunks (1 ∷ []))
    ∷ (bytes "/d/x", of_chunks (2 ∷ []))
    ∷ (bytes "/d/y/z", of_chunks (3 ∷ 2 ∷ []))
    ∷ (bytes "/d0", of_chunks [])
    ∷ []

pub files-IsSorted : IsSorted files
unfolding strings
files-IsSorted = ((refl, (refl, (refl, tt))), ((refl, (refl, tt)), ((refl, tt), (tt, tt))))

unfoldable pub state : Unit {0}
unfolding tree ChunkTable.find ChunkTable.put ChunkTable.create unref unref_all ref ref_all
    create_ref apply_create apply_rename apply_remove apply_alloc_handle replace_at
    apply_replace_chunk append_at apply_add_chunk copy_all apply_snapshot apply_bump_version
    apply_drop_chunk apply count to_checkpoint load recompute_refcounts save_files save_chunks
    load_files load_chunks
state = tt
