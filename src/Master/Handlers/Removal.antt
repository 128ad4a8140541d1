-- ===== src/Master/Handlers/Removal.antt =====
-- `Master::Remove` of src/master/master.cc: the loop over the hidden names ends.
use gfs_impl_cpp.Base.{
  Bool-cases, Option-cases, is_some, length, ℕ, zero, suc, ◌+◌, ◌≤◌, ◌<◌, ◌≡◌, refl, sym, ap, ◌∙◌,
  ◌≢◌, inl, inr, if_neg, Bool, true, false, Option, none, some, [], ◌∷◌, arith,
}
use gfs_impl_cpp.Base.Bytes.{Bytes, bytes_discrete, bytes_key}
use gfs_impl_cpp.Base.Int.{ℤ, pos, pos_part, ◌+ℤ◌, int_laws}
use gfs_impl_cpp.Base.Map.{
  nat_key, erase, contains, contains-erase, IsSorted, erase-IsSorted, total, total-erase,
}
use gfs_impl_cpp.Common.Decimal.{int64_limit}
use gfs_impl_cpp.Common.Paths.{
  root, is_valid_path, hidden_name_for, parse_hidden_name, is_hidden_path,
}
use gfs_impl_cpp.Common.Paths.Hidden.{parse_hidden_name-hidden_name_for}
use gfs_impl_cpp.Master.Namespace
use gfs_impl_cpp.Master.Namespace.{Files, FileMeta}
use gfs_impl_cpp.Master.Handlers.{
  Master, check_path, free_hidden_name, remove_section, remove, rename_section, status_ok,
}
use mathlib.Core.Option.{some-injective, none-ne-some}

pos_suc : (n : ℕ) → pos n +ℤ pos 1 ≡ pos (n + 1)
pos_suc n = omega int_laws

total-length : (files : Files) → total (λ (_ : FileMeta). 1) files ≡ length files
unfolding total
total-length [] = refl
total-length ((_, _) ∷ files) = ground (arith, total-length files)

length-erase :
    (path : Bytes) (files : Files)
    → IsSorted files
    → contains path files ≡ true
    → length (erase path files) + 1 ≡ length files
unfolding contains
length-erase path files v c = ground (
  arith,
  total-length files,
  total-length (erase path files),
  total-erase (λ (_ : FileMeta). 1) path files v,
  c,
)

abbrev stamp_of : Option (ℤ × Bytes) → ℕ
stamp_of none = 0
stamp_of (some (stamp, _)) = pos_part stamp

module _ (path : Bytes) (valid : is_valid_path path ≡ true) (below : path ≢ root) where
  hidden_name_for-ne :
      (n k : ℕ)
      → n < k
      → k < int64_limit
      → hidden_name_for path (pos n) ≢ hidden_name_for path (pos k)
  hidden_name_for-ne n k l b e =
      let read : some (pos n, path) ≡ some (pos k, path) =
        sym (parse_hidden_name-hidden_name_for path (pos n) valid below (omega (arith, l, b)))
        ∙ (ap parse_hidden_name e ∙ parse_hidden_name-hidden_name_for path (pos k) valid below b) in
      let same : n ≡ k = ap stamp_of read in omega (arith, l, same)

  -- The names of `fuel` stamps from `n` on are taken.
  AllTaken : ℕ → ℕ → Files → Type 0
  AllTaken zero n files = Unit {0}
  AllTaken (suc fuel) n files =
      (contains (hidden_name_for path (pos n)) files ≡ true) × AllTaken fuel (n + 1) files

  AllTaken-erase :
      (fuel n k : ℕ) (files : Files)
      → n < k
      → k + fuel ≤ int64_limit
      → AllTaken fuel k files
      → AllTaken fuel k (erase (hidden_name_for path (pos n)) files)
  unfolding AllTaken
  AllTaken-erase zero n k files l b a = tt
  AllTaken-erase (suc fuel) n k files l b a = (
    rw
        (
          contains-erase (hidden_name_for path (pos k)) (hidden_name_for path (pos n)) files,
          if_neg {C = Bool}
              (bytes_discrete (hidden_name_for path (pos k)) (hidden_name_for path (pos n)))
              (λ e. hidden_name_for-ne n k l (omega (arith, b)) (sym e)),
        )
        a.0,
    AllTaken-erase fuel n (k + 1) files (omega (arith, l)) (omega (arith, b)) a.1,
  )

  AllTaken-le-length :
      (fuel n : ℕ) (files : Files)
      → n + fuel ≤ int64_limit
      → IsSorted files
      → AllTaken fuel n files
      → fuel ≤ length files
  unfolding AllTaken
  AllTaken-le-length zero n files b v a = omega arith
  AllTaken-le-length (suc fuel) n files b v a =
      let hidden = hidden_name_for path (pos n) in
      omega (
        arith,
        length-erase hidden files v a.0,
        AllTaken-le-length fuel (n + 1) (erase hidden files) (omega (arith, b))
            (erase-IsSorted hidden files v)
            (AllTaken-erase fuel n (n + 1) files (omega arith) (omega (arith, b)) a.1),
      )

  free_hidden_name-taken :
      (fuel n : ℕ) (files : Files)
      → Namespace.exists files (hidden_name_for path (pos n)) ≡ true
      → free_hidden_name (suc fuel) files path (pos n)
        ≡ free_hidden_name fuel files path (pos (n + 1))
  unfolding free_hidden_name
  free_hidden_name-taken fuel n files c = rw (c, pos_suc n) refl

  free_hidden_name-free :
      (fuel n : ℕ) (files : Files)
      → Namespace.exists files (hidden_name_for path (pos n)) ≡ false
      → free_hidden_name (suc fuel) files path (pos n) ≡ some (hidden_name_for path (pos n))
  unfolding free_hidden_name
  free_hidden_name-free fuel n files c = rw c refl

  free_hidden_name-none :
      (fuel n : ℕ) (files : Files)
      → free_hidden_name fuel files path (pos n) ≡ none
      → AllTaken fuel n files
  unfolding AllTaken Namespace.exists
  free_hidden_name-none zero n files e = tt
  free_hidden_name-none (suc fuel) n files e =
      elim (Bool-cases (Namespace.exists files (hidden_name_for path (pos n)))) [
        | inl c ↦ (
          c,
          free_hidden_name-none fuel (n + 1) files
              (sym (free_hidden_name-taken fuel n files c) ∙ e),
        )
        | inr c ↦ absurd (
            none-ne-some (hidden_name_for path (pos n))
              (sym e ∙ free_hidden_name-free fuel n files c))
      ]

  -- What the loop finds is free, and names the path with a stamp among those it tried.
  abbrev IsFound : ℕ → ℕ → Files → Bytes → Type 0
  IsFound fuel n files hidden =
      (k : ℕ) × (hidden ≡ hidden_name_for path (pos k))
      × (n ≤ k)
      × (k < n + fuel)
      × (Namespace.exists files hidden ≡ false)

  free_hidden_name-IsFound :
      (fuel n : ℕ) (files : Files) (hidden : Bytes)
      → free_hidden_name fuel files path (pos n) ≡ some hidden
      → IsFound fuel n files hidden
  free_hidden_name-IsFound zero n files hidden e =
      absurd (none-ne-some hidden (unfold free_hidden_name in e))
  free_hidden_name-IsFound (suc fuel) n files hidden e =
      elim (Bool-cases (Namespace.exists files (hidden_name_for path (pos n)))) [
        | inl c ↦
            let (k, named, low, high, free) : IsFound fuel (n + 1) files hidden =
              free_hidden_name-IsFound fuel (n + 1) files hidden
                (sym (free_hidden_name-taken fuel n files c) ∙ e) in
            (k, named, omega (arith, low), omega (arith, high), free)
        | inr c ↦
            let named =
              some-injective hidden (hidden_name_for path (pos n))
                (sym e ∙ free_hidden_name-free fuel n files c) in
            (n, named, omega arith, omega arith, rw named c)
      ]

  finds :
      (n : ℕ) (files : Files)
      → IsSorted files
      → n + length files < int64_limit
      → (hidden : Bytes) × (free_hidden_name (length files + 1) files path (pos n) ≡ some hidden)
  finds n files v b = elim (Option-cases (free_hidden_name (length files + 1) files path (pos n))) [
    | inr found ↦ found
    | inl e ↦ absurd (
        omega (
          arith,
          AllTaken-le-length (length files + 1) n files (omega (arith, b)) v
              (free_hidden_name-none (length files + 1) n files e),
        ))
  ]

  -- Deleting a file that is not hidden yet moves it, and logs that, to a hidden name that is free. The
  -- garbage collector reads the path and a stamp of the time of the call or later off that name. The
  -- path must be valid and not the root, and the clock far enough from the end of its range.
  pub remove_section-hides :
      (m : Master) (n : ℕ)
      → Namespace.exists m.state.files path ≡ true
      → is_hidden_path path ≡ false
      → IsSorted m.state.files
      → n + length m.state.files < int64_limit
      → (hidden : Bytes) × (k : ℕ) × (remove_section m path (pos n)
          ≡ some (rename_section m path hidden, status_ok))
        × (Namespace.exists m.state.files hidden ≡ false)
        × (parse_hidden_name hidden ≡ some (pos k, path))
        × (n ≤ k)
  unfolding remove_section rename_section
  remove_section-hides m n e h v b =
      let (hidden, found) = finds n m.state.files v b in
      let (k, named, low, high, free) =
        free_hidden_name-IsFound (length m.state.files + 1) n m.state.files hidden found in
      (
        hidden,
        k,
        rw (e, h, found) refl,
        free,
        rw named
            (parse_hidden_name-hidden_name_for path (pos k) valid below (omega (arith, high, b))),
        low,
      )

check_path-none :
    (path : Bytes) → check_path path false ≡ none → (is_valid_path path ≡ true) × (path ≢ root)
unfolding check_path
check_path-none path e = elim (Bool-cases (is_valid_path path)) [
  | inr q ↦ absurd (ground (arith, e, q))
  | inl q ↦ (q, λ r. ground (arith, e, q, r))
]

-- Deleting a path comes to an end whatever the path: the loop over the hidden names finds a free one
-- within one round more than there are files, as long as the clock is far enough from the end of
-- its range.
pub remove-IsSome :
    (m : Master) (path : Bytes) (n : ℕ)
    → IsSorted m.state.files
    → n + length m.state.files < int64_limit
    → is_some (remove m path (pos n)) ≡ true
unfolding remove remove_section
remove-IsSome m path n v b = elim (Option-cases (check_path path false)) [
  | inr (status, e) ↦ rw (e, remove) refl
  | inl e ↦ elim (Bool-cases (Namespace.exists m.state.files path)) [
    | inr x ↦ rw (e, remove, x, remove_section) refl
    | inl x ↦ elim (Bool-cases (is_hidden_path path)) [
      | inl h ↦ rw (e, remove, x, remove_section, h) refl
      | inr h ↦
          let passed = check_path-none path e in
          let found = finds path passed.0 passed.1 n m.state.files v b in
          rw (e, remove, x, remove_section, h, found.1) refl
    ]
  ]
]
