-- ===== src/Storage/Memory.antt =====
-- crates/borg-storage/src/memory.rs: an in-memory store of layers and events.
pub mod Index
pub mod State
pub mod OpenLayer
pub mod Provider
pub mod Replay
pub mod Rebuild
pub mod Sound
pub mod Reading
