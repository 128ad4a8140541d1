-- ===== src/Common/Config.antt =====
-- src/common/config.h and config.cc: the settings that the modelled parts read. A duration counts ticks
-- of the clock, but for the retention of deleted files, which is in milliseconds.
use gfs_impl_cpp.Base.{◌==◌, if◌then◌else◌, ℕ, ◌/◌}
use gfs_impl_cpp.Base.Int.{ℤ}

pub record Config : Type 0 where
  pub chunk_size : ℕ
  pub max_record_append_size : ℕ
  pub replication_goal : ℕ
  pub min_replicas_for_write : ℕ
  pub lease_duration : ℤ
  pub lease_clock_skew_margin : ℤ
  pub heartbeat_interval : ℤ
  pub chunkserver_dead_timeout : ℤ
  pub deleted_file_retention : ℕ

unfoldable pub effective_max_record_append_size : Config → ℕ
effective_max_record_append_size config =
    if config.max_record_append_size == 0
    then config.chunk_size / 4
    else config.max_record_append_size
