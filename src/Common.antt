-- ===== src/Common.antt =====
-- src/common: path rules, decimal text, framing, and the other pieces that both servers share.
pub mod Decimal
pub mod Paths
pub mod Framing
pub mod Replica
pub mod Ids
pub mod Config
pub mod ResultCode
