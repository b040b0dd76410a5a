-- ===== src/LeaderFollower.antt =====
-- The package leader_follower/.
pub mod Replicator
pub mod Sending
pub mod Config
pub mod Leader
