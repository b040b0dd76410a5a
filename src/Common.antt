-- ===== src/Common.antt =====
-- The package common/, which the three replication strategies share.
pub mod Models
pub mod Storage
pub mod Server
pub mod Config
pub mod Waiting
pub mod Replies
