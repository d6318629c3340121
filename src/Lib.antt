-- ===== src/Lib.antt =====
-- Borg's core: cells, layers and branches, the in-memory store, the log over it, and merges.
--
-- A cell is a field of an object; a layer is an ordered group of events that write cells; a
-- branch is a line of layers that forks from a layer of another branch. A read of a cell walks a
-- path of branches outward. A client's transaction, and a round of derivation, writes on a fork
-- and is merged into its parent, guarded by what it read. The log
-- (crates/borg-engine/src/log.rs) calls the store (crates/borg-storage/src/memory.rs) for every
-- read and write and the touch index (crates/borg-engine/src/touch.rs) for every guard; branches
-- (crates/borg-engine/src/branch.rs) call the log.
--
-- Core models crates/borg-core/src: Core/Ids (ids.rs), Core/Pid (pid.rs; its text form in
-- Core/PidText), Core/Value (value.rs), Core/Cell (cell.rs), Core/Layer (layer.rs), Core/Def
-- (def.rs), Core/Error (error.rs), Core/Content (content.rs, over a hash function that is a
-- parameter), Core/Transaction and Core/Round (transaction.rs, the client's half and the round's
-- half).
-- Storage/Memory models crates/borg-storage/src/memory.rs: Index is the read index, State is
-- Inner, OpenLayer is MemoryOpenLayer, and Provider the operations of StorageProvider on
-- MemoryStorage. An operation is a function from the state to a result and the state that it
-- leaves, on every path; the source holds one lock for each operation, so an operation is one
-- step. Sound holds the invariant, Sound/Reachable the steps, Rebuild and Reading what reads
-- answer.
-- Engine models crates/borg-engine/src: Touch (touch.rs), Index (index.rs), Poison (poison.rs),
-- Log/State, Log/Reading, Log/Guarding and Log/Lifecycle (log.rs), Branch/Tree, Branch/Replay
-- and Branch/Rounds (branch.rs), Defs (defs.rs: Fold is DefView::apply, Paths DefView::path,
-- Writes DefView::check_write, Registry DefRegistry), Session (write.rs), and Resolve
-- (resolve.rs: the watermarks of producers, with their meaning in Frontier; Validate is
-- Resolver::validate, Answer the read, Explain the lineage). Core/Freshness
-- (crates/borg-core/src/freshness.rs) is what a read returns. A session asks Defs for each write
-- and the log for its layer; a read folds the reader's view for the version, takes the record
-- from the store, and validates what its producer read. The manager of the log holds the
-- in-memory store, the counter of the process-local sequencer (seams.rs) and the touch index,
-- which is the one projection that LayerManager::new folds. A mutable object is a record that is
-- passed along.
--
-- Hash maps and ordered maps are association lists. The order of a hash map's entries is the
-- order of first insertion; an ordered map is kept in the order of its keys where the code reads
-- the order. Ids are natural numbers; the counters of events, layers and branches wrap at 2 ^
-- 64. A panic, and a loop that never ends, are errors of their own.
--
-- Loops on fuel: the cascade has fuel for the failed layers and those of the round, since each
-- layer is pushed once; read_path has fuel for the registered branches and one more, since a
-- chain that is longer returns to a branch and never ends; the search for an unused branch id
-- has fuel for the branches and heads and one more; the validation of a derived value has fuel
-- for the records of the read index, since each nested call comes after a record that no call
-- has reached.
--
-- A text is the list of its code points, and a message of an error is what it is formatted from.
--
-- Deriving a value within a read (InlineDerivation) is a parameter of resolve.
--
-- Not modelled: the SQLite store, derivation, the text setters of a session, how waiters on the
-- frontier are woken, executors, the host, the server, the protocol and the command line; the
-- text forms of cells and numbers; interleavings inside one operation of the log. The SHA-256 of
-- the sha2 crate is a parameter.
pub mod Prelude
pub mod Core
pub mod Storage
pub mod Engine
