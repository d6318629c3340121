-- ===== src/Engine.antt =====
-- crates/borg-engine/src: the log, its indexes, and branches.
pub mod Touch
pub mod Log
pub mod Branch
pub mod Index
pub mod Poison
pub mod Defs
pub mod Session
pub mod Resolve
mod Tests
