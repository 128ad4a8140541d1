-- ===== src/Master/LeaseManager/Safety.antt =====
-- Both sides of a lease: the master's `IsValid` and `WaitUntil`, and the chunkserver's `Check`.
use gfs_impl_cpp.Base.{
  Bool-cases, Option-cases, ℕ, ◌≡◌, refl, sym, ap, ◌∙◌, ◌≢◌, inl, inr, Bool, true, false, not, ◌&&◌,
  some, List, arith,
}
use gfs_impl_cpp.Base.Bytes.{bytes_key}
use gfs_impl_cpp.Base.Int.{ℤ, ◌+ℤ◌, ◌-ℤ◌, ◌≤ℤ◌, ◌<ℤ◌, int_laws}
use gfs_impl_cpp.Base.Map.{nat_key, lookup, contains}
use gfs_impl_cpp.Common.Replica.{Replica}
use gfs_impl_cpp.Master.ChunkTable.{ChunkMeta, Lease}
use gfs_impl_cpp.Common.Config.{Config}
use gfs_impl_cpp.Master.LeaseManager.{is_current, is_valid, is_pending_expiry, wait_until}
use gfs_impl_cpp.Chunkserver.LeaseTable.{LeaseTable, Slot, primary, check, grant, extend}
use gfs_impl_cpp.Chunkserver.LeaseTable.Serials.{slot_of, slot_of-write_same}

-- A call that waited until `WaitUntil` finds the lease neither valid nor pending its expiry, so that
-- it neither uses the old lease nor waits again.
pub wait_until-is_valid :
    (config : Config) (meta : ChunkMeta) (lease : Lease) (now : ℤ)
    → meta.lease ≡ some lease
    → wait_until config lease ≤ℤ now
    → (is_valid config meta now ≡ false) × (is_pending_expiry config meta now ≡ false)
unfolding is_valid is_pending_expiry wait_until
wait_until-is_valid config meta lease now e h =
    let late : lease.expiry +ℤ config.lease_clock_skew_margin <ℤ now = omega int_laws in
    let p : is_current config lease now ≡ false = ground arith in
    rw e (rw p (ground arith), rw p refl)

check-expiry :
    (t : LeaseTable) (now : ℤ) (handle : ℕ)
    → (check t now handle).0 ≡ primary
    → ((slot_of t handle).held ≡ true) × (now ≤ℤ (slot_of t handle).expiry)
unfolding check
check-expiry t now handle p = ground arith

-- The latest time at which the chunkserver's record of the lease can have been made, in terms of the
-- two clocks: between the master's readings `recorded` and `here` and the chunkserver's `received`
-- and `there`, the chunkserver's clock fell behind by at most twice the margin.
abbrev pub IsInMargin : Config → ℤ → ℤ → ℤ → ℤ → Type 0
IsInMargin config recorded here received there =
    here +ℤ received
    ≤ℤ recorded +ℤ there +ℤ config.lease_clock_skew_margin +ℤ config.lease_clock_skew_margin

current_in_margin :
    (config : Config) (lease : Lease) (expiry recorded here received there : ℤ)
    → IsInMargin config recorded here received there
    → lease.expiry ≡ recorded +ℤ config.lease_duration
    → expiry ≡ received +ℤ config.lease_duration -ℤ config.lease_clock_skew_margin
    → there ≤ℤ expiry
    → is_current config lease here ≡ true
current_in_margin config lease expiry recorded here received there d x y h =
    let early : here ≤ℤ lease.expiry +ℤ config.lease_clock_skew_margin =
      rw x (let k = rw y at h in omega int_laws) in
    ground arith

-- The chunkserver's record of a lease that was granted or extended at `received`.
abbrev pub records_lease : Config → LeaseTable → ℕ → ℤ → Bool → List Replica → LeaseTable
records_lease config t handle received true secondaries =
    grant t received handle config.lease_duration secondaries
records_lease config t handle received false secondaries =
    (extend t received handle config.lease_duration).0

true_ne_false : true ≢ false
true_ne_false = cc

extended :
    (t : LeaseTable) (now : ℤ) (handle : ℕ) (lease : ℤ)
    → (slot_of (extend t now handle lease).0 handle).held ≡ true
    → (slot_of (extend t now handle lease).0 handle).expiry ≡ now +ℤ lease -ℤ t.skew_margin
unfolding extend
extended t now handle lease h = elim (Option-cases (lookup handle t.slots)) [
  | inl k ↦ absurd (true_ne_false (sym h ∙ (rw (k, extend) (rw k refl))))
  | inr (slot, k) ↦ elim (Bool-cases slot.held) [
    | inl b ↦ rw (k, extend, b) (ap (λ (s : Slot). s.expiry) (slot_of-write_same t handle _))
    | inr b ↦ absurd (true_ne_false (sym h ∙ (rw (k, extend, b) (rw k b))))
  ]
]

expiry-records_lease :
    (config : Config) (t : LeaseTable) (handle : ℕ) (received : ℤ) (granted : Bool)
    (secondaries : List Replica)
    → (slot_of (records_lease config t handle received granted secondaries) handle).held ≡ true
    → (slot_of (records_lease config t handle received granted secondaries) handle).expiry
      ≡ received +ℤ config.lease_duration -ℤ t.skew_margin
unfolding grant extend
expiry-records_lease config t handle received true secondaries h =
    ap (λ (s : Slot). s.expiry) (slot_of-write_same t handle _)
expiry-records_lease config t handle received false secondaries h =
    extended t received handle config.lease_duration h

-- At most one primary at a time rests on this: while a chunkserver takes itself for the primary, on
-- the strength of a lease that it recorded at its time `received` and the master at its time
-- `recorded`, by a grant or by an extension, the lease has not run out for the master, which finds it
-- valid unless it revoked the lease or dropped the primary from the chunk's locations. Both use the
-- same duration and margin, and the clocks are as in `IsInMargin`.
pub check-is_valid :
    (config : Config) (t : LeaseTable) (handle : ℕ) (granted : Bool) (secondaries : List Replica)
    (meta : ChunkMeta) (lease : Lease) (recorded here received there : ℤ)
    → t.skew_margin ≡ config.lease_clock_skew_margin
    → meta.lease ≡ some lease
    → lease.expiry ≡ recorded +ℤ config.lease_duration
    → IsInMargin config recorded here received there
    → (check (records_lease config t handle received granted secondaries) there handle).0 ≡ primary
    → is_valid config meta here ≡ (not lease.revoked && contains lease.primary meta.locations)
unfolding is_valid
check-is_valid config t handle granted secondaries meta lease recorded here received there m e x d
      p =
    let t' = records_lease config t handle received granted secondaries in
    let (held, early) = check-expiry t' there handle p in
    let y = expiry-records_lease config t handle received granted secondaries held in
    let c =
      current_in_margin config lease (slot_of t' handle).expiry recorded here received there d x
        (y ∙ ap (λ (z : ℤ). received +ℤ config.lease_duration -ℤ z) m) early in
    rw (e, is_valid, c) (ground arith)
