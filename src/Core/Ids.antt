-- ===== src/Core/Ids.antt =====
-- crates/borg-core/src/ids.rs. An id is its number: the newtypes of the source are names here.
use borg_core.Prelude.{ℕ}

abbrev pub BranchId : Type 0
BranchId = ℕ

abbrev pub LayerId : Type 0
LayerId = ℕ

abbrev pub EventId : Type 0
EventId = ℕ

-- A def-version is the def-layer that last mutated the definition.
abbrev pub DefVersion : Type 0
DefVersion = LayerId

-- The version of a cell that has no definition to version.
abbrev pub unversioned : DefVersion
unversioned = 0

abbrev pub AllocatorId : Type 0
AllocatorId = ℕ

abbrev pub ProducerId : Type 0
ProducerId = ℕ

abbrev pub RepoId : Type 0
RepoId = ℕ
