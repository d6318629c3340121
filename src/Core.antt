-- ===== src/Core.antt =====
-- crates/borg-core/src: the data that every other crate shares.
pub mod Ids
pub mod Pid
pub mod PidText
pub mod Value
pub mod Cell
pub mod Layer
pub mod Error
pub mod Def
pub mod Freshness
pub mod Content
pub mod Transaction
pub mod Round
mod Tests
