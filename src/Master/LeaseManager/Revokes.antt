-- ===== src/Master/LeaseManager/Revokes.antt =====
-- `Revoke` of src/master/lease_manager.cc, and what it leaves.
use gfs_impl_cpp.Master.LeaseManager.Granted.{find-put}
use mathlib.Core.Option.{some-injective}
use mathlib.Core.Path.{subst}
use gfs_impl_cpp.Base.{
  if◌then◌else◌, Bool-cases, Option-cases, ℕ, ◌≡◌, refl, sym, ◌∙◌, inl, inr, Bool, true, false, not,
  ◌&&◌, Option, none, some,
}
use gfs_impl_cpp.Base.Bytes.{Bytes, bytes_key}
use gfs_impl_cpp.Base.Int.{ℤ, pos}
use gfs_impl_cpp.Base.Map.{nat_key, Set, insert, contains}
use gfs_impl_cpp.Master.ChunkTable
use gfs_impl_cpp.Master.ChunkTable.{ChunkTable, ChunkMeta, Lease}
use gfs_impl_cpp.Common.Paths.{bytes_eq}
use gfs_impl_cpp.Common.Config.{Config}
use gfs_impl_cpp.Master.LeaseManager.{is_current, is_valid}

-- What `Revoke` reports.
pub record RevokeResult : Type 0 where
  pub had_lease : Bool
  pub acked : Bool
  pub expiry : ℤ

-- The first critical section of `Revoke`: the table, the result so far, and the primary to call.
unfoldable pub revoke_begin : Config → ChunkTable → ℕ → ℤ → ChunkTable × Option Lease
revoke_begin config t handle now = elim (ChunkTable.find t handle) [
  | none ↦ (t, none)
  | some meta ↦ elim meta.lease [
    | none ↦ (t, none)
    | some lease ↦
        if not (is_current config lease now)
        then (ChunkTable.put t handle (record meta { lease = none }), none)
        else (
          ChunkTable.put t handle (record meta { lease = some (record lease { revoked = true }) }),
          some lease,
        )
  ]
]

-- The second critical section, with the primary's answer: the table and `acked`.
unfoldable pub revoke_end : ChunkTable → ℕ → Bytes → Bool → ChunkTable × Bool
revoke_end t handle primary answered = elim (ChunkTable.find t handle) [
  | none ↦ (t, false)
  | some meta ↦ elim meta.lease [
    | none ↦ (t, false)
    | some lease ↦
        if answered && bytes_eq lease.primary primary
        then (ChunkTable.put t handle (record meta { lease = none }), true)
        else (t, false)
  ]
]

-- `Revoke`: `answers` tells which chunkservers answer OK, `during` is what other threads do meanwhile.
unfoldable pub revoke :
    Config
    → (ChunkTable → ChunkTable)
    → (Bytes → Bool)
    → ChunkTable
    → Set Bytes
    → ℕ
    → ℤ
    → ChunkTable × RevokeResult × Set Bytes
revoke config during answers t unreachable handle now =
    let begun = revoke_begin config t handle now in
    elim begun.1 [
      | none ↦ (begun.0, record { had_lease = false; acked = false; expiry = pos 0 }, unreachable)
      | some lease ↦
          let called = not (contains lease.primary unreachable) in
          let answered = called && answers lease.primary in
          let ended = revoke_end (during begun.0) handle lease.primary answered in
          (
            ended.0,
            record { had_lease = true; acked = ended.1; expiry = lease.expiry },
            if called && not answered then insert lease.primary tt unreachable else unreachable,
          )
    ]

-- A lease that no call takes for valid.
abbrev pub IsDead : Option Lease → Type 0
IsDead none = Unit {0}
IsDead (some lease) = lease.revoked ≡ true

abbrev pub IsDeadAt : ℕ → ChunkTable → Type 0
IsDeadAt handle t = (meta : ChunkMeta) → ChunkTable.find t handle ≡ some meta → IsDead meta.lease

pub is_valid-IsDead :
    (config : Config) (meta : ChunkMeta) (later : ℤ)
    → IsDead meta.lease
    → is_valid config meta later ≡ false
unfolding is_valid
is_valid-IsDead config meta later d = elim (Option-cases meta.lease) [
  | inl e ↦ rw (e, is_valid) refl
  | inr (lease, e) ↦ let r = rw e at d in rw (e, is_valid, r) refl
]

pub found-IsDeadAt :
    (t : ChunkTable) (handle : ℕ) (meta : ChunkMeta)
    → ChunkTable.find t handle ≡ some meta
    → IsDead meta.lease
    → IsDeadAt handle t
found-IsDeadAt t handle meta f d m e =
    subst (λ (x : ChunkMeta). IsDead x.lease) (some-injective meta m (sym f ∙ e)) d

pub put-IsDeadAt :
    (t : ChunkTable) (handle : ℕ) (meta : ChunkMeta)
    → IsDead meta.lease
    → IsDeadAt handle (ChunkTable.put t handle meta)
put-IsDeadAt t handle meta d =
    found-IsDeadAt (ChunkTable.put t handle meta) handle meta (find-put t handle meta) d

pub IsDeadAt-revoke_begin :
    (config : Config) (t : ChunkTable) (handle : ℕ) (now : ℤ)
    → IsDeadAt handle (revoke_begin config t handle now).0
unfolding revoke_begin
IsDeadAt-revoke_begin config t handle now = elim (Option-cases (ChunkTable.find t handle)) [
  | inl n ↦ rw (n, revoke_begin) (λ m e. cc)
  | inr (meta, f) ↦ elim (Option-cases meta.lease) [
    | inl n ↦ rw (f, revoke_begin, n) (found-IsDeadAt t handle meta f (rw n tt))
    | inr (lease, l) ↦ elim (Bool-cases (is_current config lease now)) [
      | inl c ↦ rw (f, revoke_begin, l, c) (put-IsDeadAt t handle _ refl)
      | inr c ↦ rw (f, revoke_begin, l, c) (put-IsDeadAt t handle _ tt)
    ]
  ]
]

pub IsDeadAt-revoke_end :
    (t : ChunkTable) (handle : ℕ) (primary : Bytes) (answered : Bool)
    → IsDeadAt handle t
    → IsDeadAt handle (revoke_end t handle primary answered).0
unfolding revoke_end
IsDeadAt-revoke_end t handle primary answered d = elim (Option-cases (ChunkTable.find t handle)) [
  | inl n ↦ rw (n, revoke_end) d
  | inr (meta, f) ↦ elim (Option-cases meta.lease) [
    | inl n ↦ rw (f, revoke_end, n) d
    | inr (lease, l) ↦ elim (Bool-cases (answered && bytes_eq lease.primary primary)) [
      | inl c ↦ rw (f, revoke_end, l, c) (put-IsDeadAt t handle _ tt)
      | inr c ↦ rw (f, revoke_end, l, c) d
    ]
  ]
]
