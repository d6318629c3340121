-- ===== src/Storage/Memory/Provider.antt =====
-- memory.rs: the `StorageProvider` of the store. A lock that is taken and released round each
-- operation makes the operation one step.
mod Reads
mod Commit
unfoldable pub use Reads.*
unfoldable pub use Commit.*
