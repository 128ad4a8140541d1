-- ===== src/Common/Paths.antt =====
-- src/common/paths.h and paths.cc: the rules for paths. `path.find(c)` with the two `substr` calls
-- around its result is `until` and `beyond`; a position is a number, `npos` is `none`.
pub mod Split
pub mod Validity
pub mod Hidden
use gfs_impl_cpp.Common.Decimal.{to_string, from_chars}
use gfs_impl_cpp.Base.{
  ltb, ◌==◌, if◌then◌else◌, length, get_elem?, take, drop, ℕ, zero, suc, ◌+◌, ite, Bool, true,
  false, not, ◌&&◌, ◌||◌, Option, none, some, List, [], ◌∷◌, ◌++◌,
}
use gfs_impl_cpp.Base.Bytes.{Bytes, bytes, bytes_discrete, bytes_key}
use gfs_impl_cpp.Base.Int.{ℤ}

abbrev pub slash : ℕ
slash = b'/'

abbrev pub dot : ℕ
dot = b'.'

-- The text before the first `c`, or all of it.
unfoldable pub until : ℕ → Bytes → Bytes
until c [] = []
until c (x ∷ xs) = let rest = until c xs in if x == c then [] else x ∷ rest

-- The text behind the first `c`.
unfoldable pub beyond : ℕ → Bytes → Option Bytes
beyond c [] = none
beyond c (x ∷ xs) = let rest = beyond c xs in if x == c then some xs else rest

-- `std::string::rfind`: the last position of `c`.
unfoldable pub rfind : ℕ → Bytes → Option ℕ
rfind c [] = none
rfind c (x ∷ xs) = elim (rfind c xs) [
  | none ↦ if x == c then some 0 else none
  | some i ↦ some (suc i)
]

-- `s.compare(0, prefix.size(), prefix) == 0`.
unfoldable pub starts_with : Bytes → Bytes → Bool
starts_with [] s = true
starts_with (p ∷ ps) [] = false
starts_with (p ∷ ps) (x ∷ xs) = p == x && starts_with ps xs

abbrev pub bytes_eq : Bytes → Bytes → Bool
bytes_eq a b = ite (bytes_discrete a b) true false

abbrev pub root : Bytes
root = slash ∷ []

unfoldable pub bad_component : Bytes → Bool
bad_component c = bytes_eq c [] || bytes_eq c (dot ∷ []) || bytes_eq c (dot ∷ dot ∷ [])

-- The loop of `IsValidPath` over what stands from `start` on. The fuel bounds the components, of
-- which there are fewer than bytes.
unfoldable pub check_components : ℕ → Bytes → Bool
unfolding bad_component
check_components zero rest = false
check_components (suc fuel) rest = elim (bad_component (until slash rest)) [
  | true ↦ false
  | false ↦ elim (beyond slash rest) [ none ↦ true | some more ↦ check_components fuel more ]
]

-- `path.back() == c`.
unfoldable pub ends_with : ℕ → Bytes → Bool
ends_with c [] = false
ends_with c (x ∷ []) = x == c
ends_with c (x ∷ y ∷ ys) = ends_with c (y ∷ ys)

unfoldable pub is_valid_path : Bytes → Bool
unfolding check_components ends_with
is_valid_path [] = false
is_valid_path (c ∷ rest) =
    if not (c == slash)
    then false
    else if bytes_eq (c ∷ rest) root
    then true
    else if ends_with slash (c ∷ rest)
    then false
    else check_components (length (c ∷ rest) + 1) rest

abbrev pub cut : Option ℕ → Bytes → Bytes
cut none s = s
cut (some i) s = take i s

abbrev pub past : Option ℕ → Bytes → Bytes
past none s = s
past (some i) s = drop (i + 1) s

unfoldable pub parent_at : Option ℕ → Bytes → Bytes
parent_at none path = path
parent_at (some zero) path = root
parent_at (some (suc i)) path = take (suc i) path

unfoldable pub parent_of : Bytes → Bytes
unfolding parent_at rfind
parent_of path = if bytes_eq path root then root else parent_at (rfind slash path) path

unfoldable pub base_name : Bytes → Bytes
unfolding rfind
base_name path = past (rfind slash path) path

-- The loop of `AncestorsOf`: `taken` is `path.substr(0, i)`.
unfoldable pub cuts : Bytes → Bytes → List Bytes
cuts taken [] = []
cuts taken (c ∷ rest) =
    let more = cuts (taken ++ c ∷ []) rest in if c == slash then taken ∷ more else more

unfoldable pub ancestors_of : Bytes → List Bytes
unfolding cuts
ancestors_of [] = root ∷ []
ancestors_of (c ∷ rest) = if bytes_eq (c ∷ rest) root then [] else root ∷ cuts (c ∷ []) rest

unfoldable pub is_ancestor_or_self : Bytes → Bytes → Bool
is_ancestor_or_self ancestor path =
    bytes_eq ancestor path
    || bytes_eq ancestor root
    || ltb (length ancestor) (length path)
      && bytes_eq (take (length ancestor) path) ancestor
      && elim (get_elem? path (length ancestor)) [ none ↦ false | some c ↦ c == slash ]

unfoldable pub child_prefix : Bytes → Bytes
child_prefix directory = if bytes_eq directory root then root else directory ++ root

abbrev pub hidden_prefix : Bytes
hidden_prefix = bytes ".deleted."

unfoldable pub is_hidden_path : Bytes → Bool
unfolding base_name starts_with
is_hidden_path path =
    ltb (length hidden_prefix) (length (base_name path))
    && starts_with hidden_prefix (base_name path)

unfoldable pub hidden_name_for : Bytes → ℤ → Bytes
unfolding parent_of base_name child_prefix
hidden_name_for path unix_seconds =
    child_prefix (parent_of path)
    ++ (hidden_prefix ++ (to_string unix_seconds ++ (dot ∷ base_name path)))

-- The number up to the first dot of `rest`, and the text behind it.
unfoldable pub parse_stamped : Bytes → Option (ℤ × Bytes)
unfolding until beyond
parse_stamped rest = elim (beyond dot rest) [
  | none ↦ none
  | some name ↦
      if bytes_eq (until dot rest) [] || bytes_eq name []
      then none
      else elim (from_chars (until dot rest)) [ none ↦ none | some ts ↦ some (ts, name) ]
]

-- The stamp and the original path.
unfoldable pub parse_hidden_name : Bytes → Option (ℤ × Bytes)
parse_hidden_name path =
    if not (is_hidden_path path)
    then none
    else elim (parse_stamped (drop (length hidden_prefix) (base_name path))) [
      | none ↦ none
      | some (ts, name) ↦ some (ts, child_prefix (parent_of path) ++ name)
    ]
