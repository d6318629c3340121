-- ===== src/Storage.antt =====
-- crates/borg-storage/src: the storage seam, by its in-memory implementation.
pub mod Memory
mod Tests
