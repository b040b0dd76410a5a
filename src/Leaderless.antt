-- ===== src/Leaderless.antt =====
-- The package leaderless/.
pub mod Config
pub mod Coordinator
pub mod Node
pub mod Quorum
