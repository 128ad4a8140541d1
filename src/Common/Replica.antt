-- ===== src/Common/Replica.antt =====
-- proto/gfs.proto: the message `Replica`.
use gfs_impl_cpp.Base.Bytes.{Bytes}

pub record Replica : Type 0 where
  pub chunkserver_id : Bytes
  pub address : Bytes
  pub rack : Bytes
