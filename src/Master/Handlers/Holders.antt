-- ===== src/Master/Handlers/Holders.antt =====
-- `RevokeLeasesOn` and `FindLeaseHolder` of src/master/master.cc.
use gfs_impl_cpp.Base.{
  ltb, if◌then◌else◌, is_some, get_elem?, ℕ, Bool, false, not, ◌&&◌, Option, none, some, List, [],
  ◌∷◌, ◌++◌,
}
use gfs_impl_cpp.Base.Bytes.{Bytes, bytes, bytes_key}
use gfs_impl_cpp.Base.Int.{ℤ, ◌+ℤ◌, ltb_ℤ}
use gfs_impl_cpp.Base.Map.{nat_key, Set}
use gfs_impl_cpp.Common.Config.{Config}
use gfs_impl_cpp.Common.Decimal.{print_nat}
use gfs_impl_cpp.Common.Replica.{Replica}
use gfs_impl_cpp.Common.Paths.{bytes_eq}
use gfs_impl_cpp.Master.Namespace
use gfs_impl_cpp.Master.ChunkTable
use gfs_impl_cpp.Master.ChunkTable.{ChunkTable, ChunkMeta, Lease}
use gfs_impl_cpp.Master.Registry.{resolve}
use gfs_impl_cpp.Master.LeaseManager.{is_valid, is_pending_expiry, wait_until, millisecond}
use gfs_impl_cpp.Common.ResultCode.{ResultCode, ok}
use gfs_impl_cpp.Master.LeaseManager.Grants.{GrantResult}
use gfs_impl_cpp.Master.LeaseManager.Revokes.{revoke}
use gfs_impl_cpp.Master.Handlers.{Status, missing, Master}
use gfs_impl_cpp.Master.Handlers.Chunks.{resolve_locations}

abbrev has_lease : Option ChunkMeta → Bool
has_lease none = false
has_lease (some meta) = is_some meta.lease

abbrev max_ℤ : ℤ → ℤ → ℤ
max_ℤ a b = if ltb_ℤ a b then b else a

-- The table, the unreachable chunkservers and `wait_until` after the revocations. `clock` reads the
-- clock when the lease of a chunk is revoked.
unfoldable pub revoke_leases_on :
    Config
    → (ChunkTable → ChunkTable)
    → (Bytes → Bool)
    → (ℕ → ℤ)
    → List ℕ
    → ChunkTable
    → Set Bytes
    → ℤ
    → ChunkTable × ℤ
revoke_leases_on config during answers clock [] t unreachable wait = (t, wait)
revoke_leases_on config during answers clock (handle ∷ handles) t unreachable wait =
    let revoked = revoke config during answers t unreachable handle (clock handle) in
    let result = revoked.1 in
    let until = result.expiry +ℤ config.lease_clock_skew_margin +ℤ millisecond in
    let wait' = if result.had_lease && not result.acked then max_ℤ wait until else wait in
    let on = has_lease (ChunkTable.find t handle) in
    revoke_leases_on config during answers clock handles (if on then revoked.0 else t)
      (if on then revoked.2 else unreachable) (if on then wait' else wait)

-- What the first section of `FindLeaseHolderAttempt` finds: an error, or the chunk and `shared`.
pub data HolderPlan : Type 0 where
  finishes : Status → HolderPlan
  continues : ℕ → Bool → HolderPlan

unfoldable pub holder_begin : Master → Bytes → ℕ → HolderPlan
holder_begin m path index = elim (Namespace.find m.state.files path) [
  | none ↦ finishes (missing path)
  | some file ↦ elim (get_elem? file.chunks index) [
    | none ↦ finishes (missing (bytes "no chunk " ++ (print_nat index ++ (bytes " in " ++ path))))
    | some handle ↦ elim (ChunkTable.find m.state.chunks handle) [
      | none ↦ finishes (missing (bytes "chunk metadata missing"))
      | some meta ↦ continues handle (ltb 1 meta.refcount)
    ]
  ]
]

pub record HolderResponse : Type 0 where
  pub code : ResultCode
  pub handle : ℕ
  pub version : ℕ
  pub primary : Option Replica
  pub secondaries : List Replica

unfoldable pub without_server : Bytes → List Replica → List Replica
without_server id [] = []
without_server id (replica ∷ replicas) =
    let rest = without_server id replicas in
    if bytes_eq replica.chunkserver_id id then rest else replica ∷ rest

-- What comes of the last section: a response, an error, another attempt at a time, or a grant.
pub data HolderStep : Type 0 where
  responds : HolderResponse → HolderStep
  fails : Status → HolderStep
  waits : ℤ → HolderStep
  grants : HolderStep

unfoldable pub current_holder : Master → ℕ → ChunkMeta → Lease → HolderResponse
current_holder m handle meta lease = record {
  code = ok;
  handle = handle;
  version = meta.version;
  primary = resolve m.registry lease.primary;
  secondaries = without_server lease.primary (resolve_locations m.registry meta);
}

unfoldable pub holder_section : Config → Master → ℕ → ℤ → Master × HolderStep
holder_section config m handle now = elim (ChunkTable.find m.state.chunks handle) [
  | none ↦ (m, fails (missing (bytes "chunk metadata missing")))
  | some meta ↦ elim meta.lease [
    | none ↦ (m, grants)
    | some lease ↦
        if is_valid config meta now
        then (m, responds (current_holder m handle meta lease))
        else if is_pending_expiry config meta now
        then (m, waits (wait_until config lease))
        else (
          record m {
            state = record m.state {
              chunks = ChunkTable.put m.state.chunks handle (record meta { lease = none });
            };
          },
          grants,
        )
  ]
]

-- The response after `Grant`.
unfoldable pub granted_response : ℕ → GrantResult → HolderResponse
granted_response handle result = elim result.code [
  | ok ↦ record {
    code = ok;
    handle = handle;
    version = result.version;
    primary = result.primary;
    secondaries = result.secondaries;
  }
  | code ↦ record { code = code; handle = 0; version = 0; primary = none; secondaries = [] }
]
