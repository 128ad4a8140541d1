-- ===== src/Common/Paths/Validity.antt =====
-- `IsValidPath` accepts the root and the absolute paths whose components are proper names.
use mathlib.Core.Path.{ap₂}
use mathlib.Core.List.{append-nil, append_assoc}
use gfs_impl_cpp.Common.Paths.{
  slash, dot, root, until, beyond, bytes_eq, bad_component, check_components, ends_with,
  is_valid_path,
}
use gfs_impl_cpp.Common.Paths.Split.{
  free, until-append, beyond-append, until_of_free, beyond_of_free, until-free, until-beyond,
  ends_with-append,
}
use gfs_impl_cpp.Base.{
  Bool-cases, length, All, length-append, ℕ, zero, suc, ◌+◌, ◌≤◌, ◌≡◌, refl, ap, ◌∙◌, ◌≢◌, ◌↔◌, ◌⊎◌,
  inl, inr, if_pos, if_neg, true, false, some, List, [], ◌∷◌, ◌++◌, arith,
}
use gfs_impl_cpp.Base.Bytes.{Bytes, bytes_discrete, bytes_key}
use gfs_impl_cpp.Base.Map.{nat_key}

-- A name that may stand between two slashes: not empty, not "." and not "..".
pub record IsName (c : Bytes) : Type 0 where
  pub present : c ≢ []
  pub not_dot : c ≢ dot ∷ []
  pub not_dots : c ≢ dot ∷ dot ∷ []
  pub whole : free slash c ≡ true

-- "/a/b" for the components "a", "b".
abbrev pub join : List Bytes → Bytes
join [] = []
join (c ∷ cs) = slash ∷ (c ++ join cs)

bytes_eq_refl : (a : Bytes) → bytes_eq a a ≡ true
bytes_eq_refl a = if_pos (bytes_discrete a a) refl true false

bytes_eq-ne : (a b : Bytes) → a ≢ b → bytes_eq a b ≡ false
bytes_eq-ne a b n = if_neg (bytes_discrete a b) n true false

IsName-bad_component : (c : Bytes) → IsName c → bad_component c ≡ false
unfolding bad_component
IsName-bad_component c n =
    rw
      (
        bytes_eq-ne c [] n.present,
        bytes_eq-ne c (dot ∷ []) n.not_dot,
        bytes_eq-ne c (dot ∷ dot ∷ []) n.not_dots,
      )
      refl

ne_of_bytes_eq : (a b : Bytes) → bytes_eq a b ≡ false → a ≢ b
ne_of_bytes_eq a b h e =
    let same : bytes_eq a b ≡ true = if_pos (bytes_discrete a b) e true false in cc

proper-ne : (c : Bytes) → bad_component c ≡ false → (c ≢ []) × (c ≢ dot ∷ []) × (c ≢ dot ∷ dot ∷ [])
unfolding bad_component
proper-ne c h = (
  ne_of_bytes_eq c [] (ground arith),
  ne_of_bytes_eq c (dot ∷ []) (ground arith),
  ne_of_bytes_eq c (dot ∷ dot ∷ []) (ground arith),
)

check_components-join :
    (c : Bytes) (cs : List Bytes) (fuel : ℕ)
    → All IsName (c ∷ cs)
    → length (c ∷ cs) ≤ fuel
    → check_components fuel (c ++ join cs) ≡ true
unfolding check_components
check_components-join c cs zero names h = absurd (omega arith)
check_components-join c [] (suc fuel) names h =
    let n = names.0 in
    rw append-nil (
      ground (
        arith,
        IsName-bad_component c n,
        until_of_free slash c n.whole,
        beyond_of_free slash c n.whole,
      ))
check_components-join c (d ∷ ds) (suc fuel) names h =
    let n = names.0 in
    ground (
      arith,
      IsName-bad_component c n,
      until-append slash c (d ++ join ds) n.whole,
      beyond-append slash c (d ++ join ds) n.whole,
      check_components-join d ds fuel names.1 (omega arith),
    )

length-le-join : (cs : List Bytes) → length cs ≤ length (join cs)
length-le-join [] = omega arith
length-le-join (c ∷ cs) = omega (arith, length-append c (join cs), length-le-join cs)

ends_with-join :
    (c : Bytes) (cs : List Bytes) (d : Bytes)
    → All IsName (c ∷ cs)
    → ends_with slash (d ++ join (c ∷ cs)) ≡ false
ends_with-join c [] d names =
    rw (append-nil, ← append_assoc d (slash ∷ []) c)
      (ends_with-append slash (d ++ slash ∷ []) c names.0.present names.0.whole)
ends_with-join c (e ∷ cs) d names =
    rw (← append_assoc d (slash ∷ c) (join (e ∷ cs))) (ends_with-join e cs (d ++ slash ∷ c) names.1)

check_components-cases :
    (fuel : ℕ) (rest : Bytes)
    → check_components fuel rest ≡ true
    → (c : Bytes) × (cs : List Bytes) × All IsName (c ∷ cs) × (rest ≡ c ++ join cs)
unfolding check_components
check_components-cases zero rest h = cc
check_components-cases (suc fuel) rest h = elim (until-beyond slash rest) [
  | inl (b, e) ↦ (until slash rest, [], (name, tt), rw append-nil e)
  | inr (r, b, e) ↦
      let (c, cs, names, e') = check_components-cases fuel r (more r b) in
      (until slash rest, c ∷ cs, (name, names), e ∙ ap (λ t. until slash rest ++ slash ∷ t) e')
]
  where
    proper : bad_component (until slash rest) ≡ false
    proper = ground (arith, Bool-cases (bad_component (until slash rest)))

    name : IsName (until slash rest)
    name =
        let distinct = proper-ne (until slash rest) proper in
        record {
          present = distinct.0;
          not_dot = distinct.1;
          not_dots = distinct.2;
          whole = until-free slash rest;
        }

    more : (r : Bytes) → beyond slash rest ≡ some r → check_components fuel r ≡ true
    more r b = ground (arith, Bool-cases (bad_component (until slash rest)))

valid-join :
    (c : Bytes) (cs : List Bytes) → All IsName (c ∷ cs) → is_valid_path (join (c ∷ cs)) ≡ true
unfolding is_valid_path
valid-join c cs names = ground (
  arith,
  ends_with-join c cs [] names,
  check_components-join c cs (length (join (c ∷ cs)) + 1) names
      (omega (arith, length-le-join (c ∷ cs))),
)

abbrev pub Spelled : Bytes → Type 0
Spelled p = (c : Bytes) × (cs : List Bytes) × All IsName (c ∷ cs) × (p ≡ join (c ∷ cs))

valid-cases : (p : Bytes) → is_valid_path p ≡ true → (p ≡ root) ⊎ Spelled p
unfolding is_valid_path
valid-cases [] h = cc
valid-cases (x ∷ rest) h = elim (bytes_discrete (x ∷ rest) root) [
  | yes e ↦ inl e
  | no n ↦
      let (c, cs, names, e) = check_components-cases (length (x ∷ rest) + 1) rest (ground arith) in
      inr (c, cs, names, ap₂ ◌∷◌ (ground arith) e)
]

-- `IsValidPath` accepts the root and the texts "/c1/.../cn" with n at least one whose components are
-- not empty, not "." or "..", and hold no slash; and it accepts nothing else.
pub is_valid_path_iff : (p : Bytes) → (is_valid_path p ≡ true) ↔ ((p ≡ root) ⊎ Spelled p)
is_valid_path_iff p = (valid-cases p, accepted)
  where
    accepted : (p ≡ root) ⊎ Spelled p → is_valid_path p ≡ true
    accepted (inl e) = rw e (unfold is_valid_path in ground (arith, bytes_eq_refl root))
    accepted (inr (c, cs, names, e)) = rw e (valid-join c cs names)
