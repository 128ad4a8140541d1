-- ===== src/Common/ResultCode.antt =====
-- `ResultCode` of proto/gfs.proto: the outcome in a response.
pub data ResultCode : Type 0 where
  ok : ResultCode
  stale_version : ResultCode
  not_primary : ResultCode
  data_missing : ResultCode
  retry_next_chunk : ResultCode
  checksum_mismatch : ResultCode
  no_such_chunk : ResultCode
  out_of_range : ResultCode
  no_replicas : ResultCode
  lease_expired : ResultCode
  failed : ResultCode
