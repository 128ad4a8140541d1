-- ===== src/Common/Paths/Split.antt =====
-- What the searches for a byte return on texts that are put together around it.
use gfs_impl_cpp.Base.{
  ◌==◌, Bool-cases, Option-cases, length, take, drop, ℕ, zero, suc, ◌+◌, ◌≡◌, refl, ◌≢◌, ◌⊎◌, inl,
  inr, Bool, true, false, not, ◌&&◌, none, some, [], ◌∷◌, ◌++◌, arith,
}
use gfs_impl_cpp.Base.Bytes.{Bytes, bytes_key}
use gfs_impl_cpp.Base.Map.{nat_key}
use gfs_impl_cpp.Common.Paths.{until, beyond, rfind, ends_with, starts_with}

-- `c` does not occur.
abbrev pub free : ℕ → Bytes → Bool
free c [] = true
free c (x ∷ xs) = not (x == c) && free c xs

module _ (c : ℕ) where
  pub until-append : (a r : Bytes) → free c a ≡ true → until c (a ++ (c ∷ r)) ≡ a
  unfolding until
  until-append [] r h = ground arith
  until-append (x ∷ a) r h = ground (arith, until-append a r)

  pub beyond-append : (a r : Bytes) → free c a ≡ true → beyond c (a ++ (c ∷ r)) ≡ some r
  unfolding beyond
  beyond-append [] r h = ground arith
  beyond-append (x ∷ a) r h = ground (arith, beyond-append a r)

  pub until_of_free : (a : Bytes) → free c a ≡ true → until c a ≡ a
  unfolding until
  until_of_free [] h = refl
  until_of_free (x ∷ a) h = ground (arith, until_of_free a)

  pub beyond_of_free : (a : Bytes) → free c a ≡ true → beyond c a ≡ none
  unfolding beyond
  beyond_of_free [] h = refl
  beyond_of_free (x ∷ a) h = ground (arith, beyond_of_free a)

  pub until-free : (s : Bytes) → free c (until c s) ≡ true
  unfolding until
  until-free [] = refl
  until-free (x ∷ s) = ground (arith, until-free s)

  -- A text is what stands before the first `c`, with `c` and what stands behind it, if any.
  pub until-beyond :
      (s : Bytes)
      → ((beyond c s ≡ none) × (s ≡ until c s))
        ⊎ ((r : Bytes) × (beyond c s ≡ some r) × (s ≡ until c s ++ (c ∷ r)))
  unfolding until beyond
  until-beyond [] = inl (refl, refl)
  until-beyond (x ∷ s) = elim (Bool-cases (x == c)) [
    | inl e ↦ inr (s, ground arith, ground arith)
    | inr e ↦ elim (until-beyond s) [
      | inl (b, u) ↦ inl (ground arith, ground arith)
      | inr (r, b, u) ↦ inr (r, ground arith, ground arith)
    ]
  ]

  pub rfind_of_free : (n : Bytes) → free c n ≡ true → rfind c n ≡ none
  unfolding rfind
  rfind_of_free [] h = refl
  rfind_of_free (x ∷ n) h = ground (arith, rfind_of_free n)

  pub rfind-append : (d n : Bytes) → free c n ≡ true → rfind c (d ++ (c ∷ n)) ≡ some (length d)
  unfolding rfind
  rfind-append [] n h = ground (arith, rfind_of_free n)
  rfind-append (x ∷ d) n h = ground (arith, rfind-append d n)

  pub rfind-none : (s : Bytes) → rfind c s ≡ none → free c s ≡ true
  unfolding rfind
  rfind-none [] h = refl
  rfind-none (x ∷ s) h = ground (arith, rfind-none s, Option-cases (rfind c s))

  pub rfind-some :
      (s : Bytes) (i : ℕ)
      → rfind c s ≡ some i
      → (s ≡ take i s ++ (c ∷ drop (i + 1) s)) × (free c (drop (i + 1) s) ≡ true)
  unfolding rfind
  rfind-some [] i h = cc
  rfind-some (x ∷ s) zero h = ground (arith, rfind-none s, Option-cases (rfind c s))
  rfind-some (x ∷ s) (suc i) h = ground (arith, rfind-some s i, Option-cases (rfind c s))

  pub ends_with-append : (d n : Bytes) → n ≢ [] → free c n ≡ true → ends_with c (d ++ n) ≡ false
  unfolding ends_with
  ends_with-append [] [] h f = absurd (h refl)
  ends_with-append [] (x ∷ []) h f = ground arith
  ends_with-append [] (x ∷ y ∷ n) h f = ends_with-append [] (y ∷ n) (λ e. cc) (ground arith)
  ends_with-append (x ∷ []) [] h f = absurd (h refl)
  ends_with-append (x ∷ []) (y ∷ n) h f = ends_with-append [] (y ∷ n) h f
  ends_with-append (x ∷ y ∷ d) n h f = ends_with-append (y ∷ d) n h f

pub free-append : (c : ℕ) (a b : Bytes) → free c (a ++ b) ≡ (free c a && free c b)
free-append c [] b = refl
free-append c (x ∷ a) b = ground (arith, free-append c a b)

pub drop-append_suc : (d n : Bytes) (c : ℕ) → drop (length d + 1) (d ++ (c ∷ n)) ≡ n
drop-append_suc [] n c = refl
drop-append_suc (x ∷ d) n c =
    let e : length (x ∷ d) + 1 ≡ suc (length d + 1) = omega arith in rw e (drop-append_suc d n c)

pub append-ne-nil : (d n : Bytes) (c : ℕ) → d ++ (c ∷ n) ≢ []
append-ne-nil [] n c e = cc
append-ne-nil (x ∷ d) n c e = cc

pub starts_with-append : (p s : Bytes) → starts_with p (p ++ s) ≡ true
unfolding starts_with
starts_with-append [] s = refl
starts_with-append (x ∷ p) s = ground (arith, starts_with-append p s)

pub starts_with-split : (p s : Bytes) → starts_with p s ≡ true → s ≡ p ++ drop (length p) s
unfolding starts_with
starts_with-split [] s h = refl
starts_with-split (x ∷ p) [] h = cc
starts_with-split (x ∷ p) (y ∷ s) h = ground (arith, starts_with-split p s)

pub append-injective_right : (p a b : Bytes) → p ++ a ≡ p ++ b → a ≡ b
append-injective_right [] a b h = h
append-injective_right (x ∷ p) a b h = append-injective_right p a b (ground arith)
