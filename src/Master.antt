-- ===== src/Master.antt =====
-- The master: its tables (src/master), and what its operations do to them.
pub mod ChunkTable
pub mod Namespace
pub mod State
pub mod Registry
pub mod LeaseManager
pub mod LockTable
pub mod Handlers
