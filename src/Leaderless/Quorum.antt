-- ===== src/Leaderless/Quorum.antt =====
-- The overlap of read and write quorums that leaderless/node.py promises when W + R > N.
pub mod Members
pub mod Answers
pub mod Overlap
