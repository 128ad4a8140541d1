-- ===== src/Master/Namespace.antt =====
-- src/master/namespace.h and namespace.cc: the files by path, in the order of `std::map`. A file's
-- meta is its list of chunk handles. A loop from `lower_bound(prefix)` that breaks at the first path
-- without the prefix runs over `range prefix files`.
pub mod Ranges
pub mod Moves
pub mod Rename
pub mod Totals
use gfs_impl_cpp.Common.Paths.{
  slash, root, until, beyond, starts_with, bytes_eq, child_prefix, ancestors_of, is_hidden_path,
}
use gfs_impl_cpp.Base.{
  if◌then◌else◌, length, drop, ℕ, Bool, true, false, not, ◌&&◌, ◌||◌, Option, none, some, List, [],
  ◌∷◌, ◌++◌,
}
use gfs_impl_cpp.Base.Bytes.{Bytes, bytes_lt, bytes_key}
use gfs_impl_cpp.Base.Map.{nat_key, Map, lookup, insert, erase, contains}

pub record FileMeta : Type 0 where
  pub chunks : List ℕ

abbrev pub Files : Type 0
Files = Map Bytes FileMeta

pub record ListEntry : Type 0 where
  pub name : Bytes
  pub is_directory : Bool

unfoldable pub find : Files → Bytes → Option FileMeta
find files path = lookup path files

unfoldable pub exists : Files → Bytes → Bool
exists files path = contains path files

-- The entries from the first path that is not less than `prefix`.
unfoldable pub lower_bound : Bytes → Files → Files
lower_bound prefix [] = []
lower_bound prefix ((path, meta) ∷ files) =
    let rest = lower_bound prefix files in
    if bytes_lt path prefix then rest else (path, meta) ∷ files

-- The entries up to the first path without the prefix.
unfoldable pub while_prefix : Bytes → Files → Files
while_prefix prefix [] = []
while_prefix prefix ((path, meta) ∷ files) =
    let rest = while_prefix prefix files in
    if starts_with prefix path then (path, meta) ∷ rest else []

unfoldable pub range : Bytes → Files → Files
unfolding lower_bound while_prefix
range prefix files = while_prefix prefix (lower_bound prefix files)

abbrev pub head_has_prefix : Bytes → Files → Bool
head_has_prefix prefix [] = false
head_has_prefix prefix ((path, meta) ∷ files) = starts_with prefix path

unfoldable pub is_directory : Files → Bytes → Bool
is_directory files path =
    if bytes_eq path root
    then true
    else head_has_prefix (child_prefix path) (lower_bound (child_prefix path) files)

abbrev pub any_file : Files → List Bytes → Bool
any_file files [] = false
any_file files (ancestor ∷ more) =
    not (bytes_eq ancestor root) && exists files ancestor || any_file files more

unfoldable pub has_file_ancestor : Files → Bytes → Bool
has_file_ancestor files path = any_file files (ancestors_of path)

-- `emplace`: a path that is there already is left as it is.
unfoldable pub insert_new : Files → Bytes → FileMeta → Files × Bool
insert_new files path meta =
    if contains path files then (files, false) else (insert path meta files, true)

unfoldable pub erase_file : Files → Bytes → Files × Bool
erase_file files path = (erase path files, contains path files)

-- The body of the loop of `Subtree`.
unfoldable pub without_hidden : Bool → Files → Files
without_hidden skip_hidden [] = []
without_hidden skip_hidden ((path, meta) ∷ files) =
    let rest = without_hidden skip_hidden files in
    if skip_hidden && is_hidden_path path then rest else (path, meta) ∷ rest

abbrev pub own_entry : Bool → Bytes → Option FileMeta → Files
own_entry skip_hidden path none = []
own_entry skip_hidden path (some meta) =
    if not skip_hidden || not (is_hidden_path path) then (path, meta) ∷ [] else []

unfoldable pub subtree : Files → Bytes → Bool → Files
subtree files path skip_hidden =
    own_entry skip_hidden path (find files path)
    ++ without_hidden skip_hidden (range (child_prefix path) files)

-- The loop of `List`: `last_directory` is the directory that was pushed last.
unfoldable pub list_from : ℕ → Bool → Bytes → Files → List ListEntry
list_from size include_hidden last_directory [] = []
list_from size include_hidden last_directory ((path, meta) ∷ files) =
    let rest = drop size path in
    let name = until slash rest in
    let same = list_from size include_hidden last_directory files in
    let fresh = list_from size include_hidden name files in
    elim (beyond slash rest) [
      | none ↦
          if not include_hidden && is_hidden_path path
          then same
          else record { name = rest; is_directory = false } ∷ same
      | some _ ↦
          if bytes_eq name last_directory
          then same
          else record { name = name; is_directory = true } ∷ fresh
    ]

unfoldable pub list_directory : Files → Bytes → Bool → List ListEntry
list_directory files directory include_hidden =
    let prefix = child_prefix directory in
    list_from (length prefix) include_hidden [] (range prefix files)

-- The entries that the loop of `RenameSubtree` moves, under their new paths.
unfoldable pub moved_paths : Bytes → Bytes → Files → Files
moved_paths from to [] = []
moved_paths from to ((path, meta) ∷ files) =
    (to ++ drop (length from) path, meta) ∷ moved_paths from to files

unfoldable pub erase_all : Files → Files → Files
erase_all [] files = files
erase_all ((path, _) ∷ gone) files = erase_all gone (erase path files)

-- `for (auto& [path, meta] : moved) files_[path] = std::move(meta);`
unfoldable pub insert_all : Files → Files → Files
insert_all [] files = files
insert_all ((path, meta) ∷ more) files = insert_all more (insert path meta files)

abbrev pub moved_self : Bytes → Option FileMeta → Files
moved_self target none = []
moved_self target (some meta) = (target, meta) ∷ []

unfoldable pub rename_subtree : Files → Bytes → Bytes → Files
unfolding moved_paths erase_all insert_all
rename_subtree files source target =
    let rest = erase source files in
    let below = range (child_prefix source) rest in
    let moved =
      moved_self target (lookup source files)
      ++ moved_paths (child_prefix source) (child_prefix target) below in
    insert_all moved (erase_all below rest)
