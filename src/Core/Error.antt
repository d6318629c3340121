-- ===== src/Core/Error.antt =====
-- crates/borg-core/src/error.rs: the errors, and the results that carry them.
use borg_core.Core.Ids.{BranchId, LayerId, EventId, ProducerId, RepoId}
use borg_core.Core.Pid.{PidKind}
use borg_core.Core.Cell.{CellRef, ObjectTypeName, FieldName, Writer}
use borg_core.Core.Value.{Value, ValueType}
use borg_core.Core.Def.{Ownership}
use borg_core.Core.Layer.{LayerState}

-- What a `Storage` message is formatted from, in place of its text.
pub data Fault : Type 0 where
  layer_not_open layer_is_sealed layer_exists layer_not_staged layer_not_sealed : LayerId → Fault
  unknown_layer : LayerId → Fault
  unknown_event : EventId → Fault
  authored_elsewhere : EventId → LayerId → LayerId → Fault
  merge_of_root child_without_parent : Fault

pub data MergeRejection : Type 0 where
  def_diverged : ObjectTypeName → MergeRejection
  dangling_write : CellRef → LayerId → MergeRejection
  guard_conflict : CellRef → MergeRejection

-- Why a write was refused. The names of the fields that are declared are left out of the second, and
-- the third holds the value in place of its text.
pub data WriteRejection : Type 0 where
  undeclared_struct : CellRef → ObjectTypeName → WriteRejection
  undeclared_field : CellRef → ObjectTypeName → FieldName → WriteRejection
  type_mismatch : CellRef → ValueType → Value → WriteRejection
  ownership_violation : CellRef → Ownership → Writer → WriteRejection

-- The variants that the modelled operations return; those of other operations are left out.
pub data BorgError : Type 0 where
  field_collision : ObjectTypeName → FieldName → RepoId → BorgError
  -- The repo that asks, and the one that declared the field.
  not_declaring_repo : RepoId → RepoId → ObjectTypeName → FieldName → BorgError
  missing_migration : ObjectTypeName → FieldName → BorgError
  migration_on_derived_field : ObjectTypeName → FieldName → ProducerId → BorgError
  write_rejected : WriteRejection → BorgError
  guard_violated : CellRef → LayerId → LayerId → BorgError
  guard_on_derived_cell : CellRef → BorgError
  merge_rejected : MergeRejection → BorgError
  layer_state_violation : LayerId → LayerState → LayerState → BorgError
  layer_not_on_branch : LayerId → BranchId → BorgError
  mixed_layer_kind : BorgError
  not_content_addressed : PidKind → BorgError
  storage : Fault → BorgError
  -- Not values of the source: the code panics there, or never returns.
  panicked diverged : BorgError

-- `Result<T>`.
pub data Result {ℓ} (T : Type ℓ) : Type ℓ where
  err : BorgError → Result T
  ok : T → Result T

-- `?`, and what follows it.
abbrev pub ◌>>=◌ {ℓ κ} : {T : Type ℓ} {S : Type κ} → Result T → (T → Result S) → Result S
err failure >>= next = err failure
ok value >>= next = next value

-- `?` on a check that returns nothing.
abbrev pub ◌>>◌ {κ} : {S : Type κ} → Result (Unit {0}) → Result S → Result S
err failure >> then_result = err failure
ok done >> then_result = then_result

infixl 10 ◌>>=◌ ◌>>◌
