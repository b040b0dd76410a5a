-- ===== src/Tests.antt =====
-- Runs of the modelled code on small inputs, to which the theorems apply.
pub mod Sends
pub mod Smoke
pub mod Stores
pub mod Sweep
pub mod Reports
pub mod Demos
pub mod Leader
pub mod Cluster
pub mod Queue
pub mod Load
