-- ===== src/Master/LeaseManager/Attempts.antt =====
-- What `PrepareLocked` of src/master/lease_manager.cc chooses.
use gfs_impl_cpp.Base.{
  ltb, Bool-cases, Option-cases, All, is_some, length, ◌≤◌, ◌+◌, ◌%◌, ◌≡◌, refl, sym, ◌∙◌, ◌≢◌, inl,
  inr, if_pos, if_neg, Bool, true, false, Option, none, some, List, [], ◌∷◌, arith,
}
use gfs_impl_cpp.Base.Bytes.{Bytes, bytes_key, bytes_discrete}
use gfs_impl_cpp.Base.Int.{ℤ}
use gfs_impl_cpp.Base.Map.{nat_key, Map, lookup, contains, contains-cons}
use gfs_impl_cpp.Common.Config.{Config}
use gfs_impl_cpp.Common.Paths.{bytes_eq}
use gfs_impl_cpp.Common.Replica.{Replica}
use gfs_impl_cpp.Master.ChunkTable.{ChunkMeta, Lease}
use gfs_impl_cpp.Master.State.{u64_mod}
use gfs_impl_cpp.Master.LeaseManager.Grants.{
  Attempt, live_locations, is_among, choose_primary, all_but, attempt_for, resolve_all,
}
use mathlib.Core.List.{Mem, mem-cons_self, mem-cons_of_mem}
use mathlib.Core.Option.{some-injective}
use mathlib.Core.Path.{subst}

abbrev pub AllAcked : (Bytes → Bool) → List Bytes → Type 0
AllAcked acked = All (λ id. acked id ≡ true)

bytes_eq_refl : (id : Bytes) → bytes_eq id id ≡ true
bytes_eq_refl id = if_pos (bytes_discrete id id) refl true false

-- The two cases of a test for equal texts.
data SameOrNot (a b : Bytes) : Type 0 where
  same : a ≡ b → bytes_eq a b ≡ true → SameOrNot a b
  differ : a ≢ b → bytes_eq a b ≡ false → SameOrNot a b

same_or_not : (a b : Bytes) → SameOrNot a b
same_or_not a b = elim (bytes_discrete a b) [
  | yes e ↦ same e (if_pos (bytes_discrete a b) e true false)
  | no n ↦ differ n (if_neg (bytes_discrete a b) n true false)
]

is_among-cons_self : (id : Bytes) (ids : List Bytes) → is_among id (id ∷ ids) ≡ true
unfolding is_among
is_among-cons_self id ids = rw (bytes_eq_refl id) refl

contains-head :
    (id other : Bytes) (since : ℤ) (locations : Map Bytes ℤ)
    → other ≡ id
    → contains id ((other, since) ∷ locations) ≡ true
contains-head id other since locations e =
    contains-cons id other since locations
    ∙ if_pos (bytes_discrete id other) (sym e) true (contains id locations)

contains_tail :
    (id other : Bytes) (since : ℤ) (locations : Map Bytes ℤ)
    → other ≢ id
    → contains id ((other, since) ∷ locations) ≡ contains id locations
contains_tail id other since locations n =
    contains-cons id other since locations
    ∙ if_neg (bytes_discrete id other) (λ e. n (sym e)) true (contains id locations)

module _ (resolve : Bytes → Option Replica) where
  pub is_among-live_locations :
      (id : Bytes) (locations : Map Bytes ℤ)
      → contains id locations ≡ true
      → is_some (resolve id) ≡ true
      → is_among id (live_locations resolve locations) ≡ true
  unfolding live_locations is_among
  is_among-live_locations id [] c l = unfold contains lookup in cc
  is_among-live_locations id ((other, since) ∷ locations) c l = elim (same_or_not other id) [
    | same e b ↦
        let live : is_some (resolve other) ≡ true =
          subst (λ (x : Bytes). is_some (resolve x) ≡ true) (sym e) l in
        rw (live, is_among, b) refl
    | differ n b ↦
        let rest =
          is_among-live_locations id locations (sym (contains_tail id other since locations n) ∙ c)
            l in
        elim (Bool-cases (is_some (resolve other))) [
          | inl live ↦ rw (live, is_among, b) rest
          | inr gone ↦ rw gone rest
        ]
  ]

  pub live_locations-live :
      (id : Bytes) (locations : Map Bytes ℤ)
      → is_among id (live_locations resolve locations) ≡ true
      → (contains id locations ≡ true) × (is_some (resolve id) ≡ true)
  unfolding live_locations is_among
  live_locations-live id [] a = cc
  live_locations-live id ((other, since) ∷ locations) a = elim (same_or_not other id) [
    | same e b ↦ elim (Bool-cases (is_some (resolve other))) [
      | inl live ↦ (
        contains-head id other since locations e,
        subst (λ (x : Bytes). is_some (resolve x) ≡ true) e live,
      )
      | inr gone ↦
          let rest = live_locations-live id locations (rw gone at a) in
          (contains-head id other since locations e, rest.1)
    ]
    | differ n b ↦
        let later : is_among id (live_locations resolve locations) ≡ true =
          elim (Bool-cases (is_some (resolve other))) [
            | inl live ↦ rw (live, is_among, b) at a
            | inr gone ↦ rw gone at a
          ] in
        let rest = live_locations-live id locations later in
        (contains_tail id other since locations n ∙ rest.0, rest.1)
  ]

  pub mem-resolve_all :
      (id : Bytes) (replica : Replica) (ids : List Bytes)
      → is_among id ids ≡ true
      → resolve id ≡ some replica
      → Mem replica (resolve_all resolve ids)
  unfolding resolve_all is_among
  mem-resolve_all id replica [] a r = cc
  mem-resolve_all id replica (other ∷ ids) a r = elim (same_or_not other id) [
    | same e b ↦
        let found : resolve other ≡ some replica =
          subst (λ (x : Bytes). resolve x ≡ some replica) (sym e) r in
        rw (resolve_all, found) mem-cons_self
    | differ n b ↦
        let rest = mem-resolve_all id replica ids (rw b at a) r in
        elim (Option-cases (resolve other)) [
          | inl gone ↦ rw (resolve_all, gone) rest
          | inr (found, live) ↦ rw (resolve_all, live) (mem-cons_of_mem found rest)
        ]
  ]

pub is_among-all_but :
    (primary id : Bytes) (ids : List Bytes)
    → is_among id ids ≡ true
    → id ≢ primary
    → is_among id (all_but primary ids) ≡ true
unfolding all_but is_among
is_among-all_but primary id [] a n = a
is_among-all_but primary id (other ∷ ids) a n = elim (same_or_not other id) [
  | same e b ↦ elim (same_or_not other primary) [
    | same e' b' ↦ absurd (n (sym e ∙ e'))
    | differ n' b' ↦ rw (b', is_among, b) refl
  ]
  | differ m b ↦
      let later : is_among id ids ≡ true = rw b at a in
      let rest = is_among-all_but primary id ids later n in
      elim (same_or_not other primary) [
        | same e' b' ↦ rw b' rest
        | differ n' b' ↦ rw (b', is_among, rest) (ground arith)
      ]
]

acked-AllAcked :
    (acked : Bytes → Bool) (id : Bytes) (ids : List Bytes)
    → AllAcked acked ids
    → is_among id ids ≡ true
    → acked id ≡ true
unfolding is_among
acked-AllAcked acked id [] h a = ground arith
acked-AllAcked acked id (other ∷ ids) h a = elim (same_or_not other id) [
  | same e b ↦ subst (λ (x : Bytes). acked x ≡ true) e h.0
  | differ n b ↦ acked-AllAcked acked id ids h.1 (rw b at a)
]

-- All live servers answered, the primary among them or not.
pub acked-attempt :
    (acked : Bytes → Bool) (primary id : Bytes) (live : List Bytes)
    → AllAcked acked (primary ∷ all_but primary live)
    → is_among id live ≡ true
    → acked id ≡ true
acked-attempt acked primary id live h a = elim (bytes_discrete id primary) [
  | yes e ↦ subst (λ (x : Bytes). acked x ≡ true) (sym e) h.0
  | no n ↦ acked-AllAcked acked id (all_but primary live) h.1 (is_among-all_but primary id live a n)
]

-- An attempt for a chunk with these live servers.
pub record IsAttempt (config : Config) (meta : ChunkMeta) (live : List Bytes) (attempt : Attempt)
    : Type 0 where
  pub enough : config.min_replicas_for_write ≤ length live
  pub among : is_among attempt.primary live ≡ true
  pub others : attempt.secondaries ≡ all_but attempt.primary live
  pub next_version : attempt.version ≡ (meta.version + 1) % u64_mod
  pub keeps :
      (lease : Lease)
      → meta.lease ≡ some lease
      → is_among lease.primary live ≡ true
      → attempt.primary ≡ lease.primary

chosen-among :
    (old : Option Lease) (first : Bytes) (ids : List Bytes)
    → is_among (choose_primary old first (first ∷ ids)) (first ∷ ids) ≡ true
chosen-among none first ids = is_among-cons_self first ids
chosen-among (some lease) first ids =
    ground (arith, is_among-cons_self first ids, Bool-cases (is_among lease.primary (first ∷ ids)))

pub attempt_for-IsAttempt :
    (config : Config) (meta : ChunkMeta) (live : List Bytes) (attempt : Attempt)
    → attempt_for config meta live ≡ some attempt
    → IsAttempt config meta live attempt
unfolding attempt_for
attempt_for-IsAttempt config meta [] attempt h = cc
attempt_for-IsAttempt config meta (first ∷ ids) attempt h =
    elim (Bool-cases (ltb (length (first ∷ ids)) config.min_replicas_for_write)) [
      | inl few ↦ absurd (ground (arith, few, h))
      | inr enough ↦
          let chosen : Attempt = record {
            primary = choose_primary meta.lease first (first ∷ ids);
            secondaries = all_but (choose_primary meta.lease first (first ∷ ids)) (first ∷ ids);
            version = (meta.version + 1) % u64_mod;
          } in
          let is_chosen : chosen ≡ attempt = some-injective chosen attempt (rw enough at h) in
          subst (IsAttempt config meta (first ∷ ids)) is_chosen (record {
            enough = ground (arith, enough);
            among = chosen-among meta.lease first ids;
            others = refl;
            next_version = refl;
            keeps = λ lease l a. rw (l, a) refl;
          })
    ]
