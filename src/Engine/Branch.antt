-- ===== src/Engine/Branch.antt =====
-- crates/borg-engine/src/branch.rs: branches, forks and merges.
pub mod Tree
pub mod Replay
pub mod Rounds
