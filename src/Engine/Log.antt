-- ===== src/Engine/Log.antt =====
-- crates/borg-engine/src/log.rs: the layers' life cycle, over the in-memory store.
pub mod State
pub mod Reading
pub mod Guarding
pub mod Lifecycle
unfoldable pub use State.*
unfoldable pub use Reading.*
unfoldable pub use Guarding.*
unfoldable pub use Lifecycle.*
