-- ===== src/Chunkserver.antt =====
-- Chunkservers.
pub mod LeaseTable
pub mod DataBuffer
pub mod ChunkStore
pub mod Requests
