-- ===== src/Master/LeaseManager.antt =====
-- src/master/lease_manager.h and lease_manager.cc: the leases that the master grants, extends and
-- revokes. `now` is the reading of the clock that a call takes; times count the clock's ticks.
pub mod Grants
pub mod Attempts
pub mod Granted
pub mod Rounds
pub mod Safety
pub mod Revokes
use gfs_impl_cpp.Base.{if◌then◌else◌, ℕ, Bool, true, false, not, ◌||◌, none, some}
use gfs_impl_cpp.Base.Bytes.{Bytes, bytes_key}
use gfs_impl_cpp.Base.Int.{ℤ, pos, ◌+ℤ◌, ltb_ℤ}
use gfs_impl_cpp.Base.Map.{nat_key, contains}
use gfs_impl_cpp.Master.ChunkTable
use gfs_impl_cpp.Master.ChunkTable.{ChunkMeta, Lease}
use gfs_impl_cpp.Common.Config.{Config}
use gfs_impl_cpp.Common.Paths.{bytes_eq}

-- `Millis(1)` in nanoseconds, the ticks of `steady_clock`.
abbrev pub millisecond : ℤ
millisecond = pos 1000000

-- `!(now > lease.expiry + config_.lease_clock_skew_margin)`
abbrev pub is_current : Config → Lease → ℤ → Bool
is_current config lease now = not (ltb_ℤ (lease.expiry +ℤ config.lease_clock_skew_margin) now)

unfoldable pub is_valid : Config → ChunkMeta → ℤ → Bool
is_valid config meta now = elim meta.lease [
  | none ↦ false
  | some lease ↦
      if lease.revoked
      then false
      else if not (is_current config lease now)
      then false
      else contains lease.primary meta.locations
]

unfoldable pub is_pending_expiry : Config → ChunkMeta → ℤ → Bool
is_pending_expiry config meta now = elim meta.lease [
  | none ↦ false
  | some lease ↦
      if not (is_current config lease now)
      then false
      else lease.revoked || not (contains lease.primary meta.locations)
]

-- Called only where `meta` has a lease.
unfoldable pub wait_until : Config → Lease → ℤ
wait_until config lease = lease.expiry +ℤ config.lease_clock_skew_margin +ℤ millisecond

unfoldable pub extend_locked : Config → ChunkMeta → Bytes → ℤ → ChunkMeta × Bool
extend_locked config meta primary now = elim meta.lease [
  | none ↦ (meta, false)
  | some lease ↦
      if not (is_valid config meta now) || not (bytes_eq lease.primary primary)
      then (meta, false)
      else (
        record meta { lease = some (record lease { expiry = now +ℤ config.lease_duration }) },
        true,
      )
]
