-- ===== src/Common/Paths/Hidden.antt =====
-- A path is its directory's prefix and its base name; a hidden name reads back as its stamp and the
-- path that it hides.
use mathlib.Core.List.{append-nil, append_assoc}
use gfs_impl_cpp.Common.Decimal.{
  to_string, IsInt64, from_chars-to_string, all_digits, to_string-cases,
}
use gfs_impl_cpp.Common.Paths.{
  slash, dot, root, is_valid_path, parent_at, parent_of, base_name, child_prefix, hidden_prefix,
  is_hidden_path, hidden_name_for, parse_stamped, parse_hidden_name,
}
use gfs_impl_cpp.Common.Paths.Split.{
  free, until-append, beyond-append, rfind-append, free-append, drop-append_suc, starts_with-append,
  append-ne-nil,
}
use gfs_impl_cpp.Common.Paths.Validity.{IsName, join, is_valid_path_iff}
use gfs_impl_cpp.Base.{
  ltb, All, length-append, take-append_self, drop-append_self, ℕ, ◌≡◌, refl, sym, ap, ◌≢◌, inl, inr,
  true, some, List, [], ◌∷◌, ◌++◌, arith,
}
use gfs_impl_cpp.Base.Bytes.{Bytes, bytes_key}
use gfs_impl_cpp.Base.Int.{ℤ}
use gfs_impl_cpp.Base.Map.{nat_key}

-- A path as its directory (empty for the root) and its last component.
pub record Parts (p : Bytes) : Type 0 where
  pub directory : Bytes
  pub name : Bytes
  pub parts : p ≡ directory ++ (slash ∷ name)
  pub is_name : IsName name
  pub below : directory ≢ root

join-Parts : (c : Bytes) (cs : List Bytes) → All IsName (c ∷ cs) → Parts (join (c ∷ cs))
join-Parts c [] names = record {
  directory = [];
  name = c;
  parts = rw append-nil refl;
  is_name = names.0;
  below = λ e. cc;
}
join-Parts c (e ∷ cs) names =
    let rest = join-Parts e cs names.1 in
    record {
      directory = (slash ∷ c) ++ rest.directory;
      name = rest.name;
      parts = rw rest.parts (sym (append_assoc (slash ∷ c) rest.directory (slash ∷ rest.name)));
      is_name = rest.is_name;
      below = λ q. slashed c names.0.present rest.directory q;
    }
  where
    slashed : (c : Bytes) → c ≢ [] → (d : Bytes) → (slash ∷ c) ++ d ≢ root
    slashed [] h d q = h refl
    slashed (x ∷ c) h d q = cc

valid-Parts : (p : Bytes) → is_valid_path p ≡ true → p ≢ root → Parts p
valid-Parts p h n = elim ((is_valid_path_iff p).0 h) [
  | inl e ↦ absurd (n e)
  | inr (c, cs, names, e) ↦ rw e (join-Parts c cs names)
]

base_name-append : (d n : Bytes) → free slash n ≡ true → base_name (d ++ (slash ∷ n)) ≡ n
unfolding base_name
base_name-append d n h = rw (rfind-append slash d n h) (drop-append_suc d n slash)

prefix-append :
    (d n : Bytes)
    → free slash n ≡ true
    → n ≢ []
    → d ≢ root
    → child_prefix (parent_of (d ++ (slash ∷ n))) ≡ d ++ root
unfolding child_prefix parent_of parent_at
prefix-append [] n h ne b = ground (arith, rfind-append slash [] n h)
prefix-append (x ∷ d) n h ne b = ground (
  arith,
  rfind-append slash (x ∷ d) n h,
  take-append_self (x ∷ d) (slash ∷ n),
  append-ne-nil d n slash,
)

-- For a valid path other than the root, `ChildPrefix(ParentOf(path)) + BaseName(path)` is the path,
-- and the base name is a proper name.
pub child_prefix-parent_of :
    (p : Bytes)
    → is_valid_path p ≡ true
    → p ≢ root
    → (child_prefix (parent_of p) ++ base_name p ≡ p) × IsName (base_name p)
child_prefix-parent_of p h n =
    let q = valid-Parts p h n in
    rw q.parts (
      rw
        (
          base_name-append q.directory q.name q.is_name.whole,
          prefix-append q.directory q.name q.is_name.whole q.is_name.present q.below,
        )
        (append_assoc q.directory root q.name, q.is_name))

free-digits : (c : ℕ) (s : Bytes) → ltb c 48 ≡ true → all_digits s ≡ true → free c s ≡ true
free-digits c [] h d = refl
free-digits c (x ∷ s) h d = ground (arith, free-digits c s)

free-to_string :
    (c : ℕ) (z : ℤ)
    → ltb c 48 ≡ true
    → c ≢ b'-'
    → (free c (to_string z) ≡ true) × (to_string z ≢ [])
free-to_string c z h n =
    let (x, s, e, first, d) = to_string-cases z in
    rw e (ground (arith, free-digits c s h d), λ q. cc)

parse_stamped-append :
    (z : ℤ) (n : Bytes)
    → IsInt64 z
    → n ≢ []
    → parse_stamped (to_string z ++ (dot ∷ n)) ≡ some (z, n)
unfolding parse_stamped
parse_stamped-append z n h ne =
    let (f, p) = free-to_string dot z refl (λ q. absurd (omega arith)) in
    ground (
      arith,
      until-append dot (to_string z) n f,
      beyond-append dot (to_string z) n f,
      from_chars-to_string z h,
      p,
    )

-- The base name that `HiddenNameFor` builds.
abbrev stamped : ℤ → Bytes → Bytes
stamped z name = hidden_prefix ++ (to_string z ++ (dot ∷ name))

free-stamped : (z : ℤ) (name : Bytes) → free slash name ≡ true → free slash (stamped z name) ≡ true
free-stamped z name h = ground (
  arith,
  free-append slash hidden_prefix (to_string z ++ (dot ∷ name)),
  free-append slash (to_string z) (dot ∷ name),
  (free-to_string slash z refl (λ q. absurd (omega arith))).0,
)

hidden-stamped :
    (d name : Bytes) (z : ℤ)
    → free slash name ≡ true
    → is_hidden_path (d ++ (slash ∷ stamped z name)) ≡ true
unfolding is_hidden_path
hidden-stamped d name z h =
    rw
      (
        base_name-append d (stamped z name) (free-stamped z name h),
        starts_with-append hidden_prefix (to_string z ++ (dot ∷ name)),
      )
      (ground (
        arith,
        length-append (to_string z) (dot ∷ name),
        length-append hidden_prefix (to_string z ++ (dot ∷ name)),
      ))

parse-stamped :
    (d name : Bytes) (z : ℤ)
    → IsInt64 z
    → IsName name
    → d ≢ root
    → parse_hidden_name (d ++ (slash ∷ stamped z name)) ≡ some (z, d ++ (slash ∷ name))
unfolding parse_hidden_name
parse-stamped d name z h n b =
    rw
      (
        hidden-stamped d name z n.whole,
        base_name-append d (stamped z name) (free-stamped z name n.whole),
        drop-append_self hidden_prefix (to_string z ++ (dot ∷ name)),
        parse_stamped-append z name h n.present,
        prefix-append d (stamped z name) (free-stamped z name n.whole) (λ q. cc) b,
      )
      (ap (λ (t : Bytes). some (z, t)) (append_assoc d root name))

-- The name under which a deleted file is kept reads back as the stamp and the path: for every valid
-- path but the root and every stamp of an `int64_t`, `ParseHiddenName` inverts `HiddenNameFor`.
pub parse_hidden_name-hidden_name_for :
    (p : Bytes) (z : ℤ)
    → is_valid_path p ≡ true
    → p ≢ root
    → IsInt64 z
    → parse_hidden_name (hidden_name_for p z) ≡ some (z, p)
unfolding hidden_name_for
parse_hidden_name-hidden_name_for p z h n r =
    let q = valid-Parts p h n in
    let free_name = q.is_name.whole in
    rw q.parts (
      rw
        (
          prefix-append q.directory q.name free_name q.is_name.present q.below,
          base_name-append q.directory q.name free_name,
          append_assoc q.directory root (stamped z q.name),
        )
        (parse-stamped q.directory q.name z r q.is_name q.below))
