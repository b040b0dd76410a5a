-- ===== src/LoadTest.antt =====
-- experiments/: the staleness load tests of the three strategies, with the code that they share
-- (experiments/_load_test_common.py).
pub mod Plan
pub mod Records
pub mod Worker
pub mod LeaderFollower
pub mod Leaderless
pub mod MessageQueue
pub mod Runs
