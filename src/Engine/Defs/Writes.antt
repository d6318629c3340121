-- ===== src/Engine/Defs/Writes.antt =====
-- defs.rs: whether the definitions in force permit a write.
pub mod Permitted
use borg_core.Prelude.{
  ℕ, Bool, true, false, Option, none, some, List, [], ◌∷◌, ◌||◌, ◌==◌, if◌then◌else◌, same, nat_eq,
  string_eq, unwrap_or, any,
}
use borg_core.Prelude.Map.{get}
use borg_core.Core.Ids.{ProducerId}
use borg_core.Core.Cell.{
  BufferId, CellRef, FieldName, ObjectTypeName, Writer, client, producer, object, object_prop,
}
use borg_core.Core.Value.{Value, ValueType, accepts}
use borg_core.Core.Def.{FieldDef, ObjectDef, Ownership, source, derived}
use borg_core.Core.Error.{
  Result, ok, err, write_rejected, undeclared_struct, undeclared_field, type_mismatch,
  ownership_violation, ◌>>◌,
}
use borg_core.Engine.Defs.{VersionStep, DefView, field, key_of, field_key_eq}

unfoldable pub named_by : ProducerId → VersionStep → Bool
named_by p step =
    (step.carries_up == p) || elim step.carries_down [ none ↦ false | some d ↦ d == p ]

migrates_in : Option (List VersionStep) → ProducerId → Bool
migrates_in none p = false
migrates_in (some chain) p = any (named_by p) chain

-- Whether a producer is a declared migration of a field.
unfoldable pub migrates : DefView → ObjectTypeName → FieldName → ProducerId → Bool
unfolding migrates_in
migrates view s f p = migrates_in (get view.chains (key_of s f)) p

unfoldable pub permitted : DefView → ObjectTypeName → FieldName → Ownership → Writer → Bool
permitted view s f source client = true
permitted view s f (derived owner) (producer attempted) = owner == attempted
permitted view s f source (producer attempted) = migrates view s f attempted
permitted view s f (derived owner) client = false

unfoldable pub check_ownership :
    DefView → CellRef → ObjectTypeName → FieldName → FieldDef → Writer → Result (Unit {0})
check_ownership view cell s f d writer =
    if permitted view s f d.ownership writer
    then ok tt
    else err (write_rejected (ownership_violation cell d.ownership writer))

unfoldable pub check_type : CellRef → ValueType → Value → Result (Unit {0})
check_type cell ty value =
    if accepts ty value then ok tt else err (write_rejected (type_mismatch cell ty value))

-- The arm of a declared property. `view` is the writer's, `authority` the branch's.
check_declared :
    CellRef
    → ObjectTypeName
    → FieldName
    → Value
    → Writer
    → DefView
    → Option FieldDef
    → Result (Unit {0})
check_declared cell s f value writer authority none =
    err (write_rejected (undeclared_field cell s f))
check_declared cell s f value writer authority (some d) =
    check_ownership authority cell s f (unwrap_or (field authority cell) d) writer
    >> check_type cell d.ty value

check_prop :
    CellRef
    → ObjectTypeName
    → FieldName
    → Value
    → Writer
    → DefView
    → Option ObjectDef
    → Result (Unit {0})
unfolding check_declared
check_prop cell s f value writer authority none = err (write_rejected (undeclared_struct cell s))
check_prop cell s f value writer authority (some o) =
    check_declared cell s f value writer authority (get o.fields f)

-- An existence cell has no declaration of its own, and takes what a Boolean field would.
check_existence : CellRef → ObjectTypeName → Value → Option ObjectDef → Result (Unit {0})
check_existence cell s value none = err (write_rejected (undeclared_struct cell s))
check_existence cell s value (some o) = check_type cell ValueType.bool value

check_buffer : DefView → CellRef → Value → Writer → DefView → BufferId → Result (Unit {0})
unfolding check_prop check_existence
check_buffer view cell value writer authority (object_prop s f) =
    check_prop cell s f value writer authority (get view.objects s)
check_buffer view cell value writer authority (object s) =
    check_existence cell s value (get view.objects s)
check_buffer view cell value writer authority _ = ok tt

unfoldable pub check_write : DefView → CellRef → Value → Writer → DefView → Result (Unit {0})
unfolding check_buffer
check_write view cell value writer authority =
    check_buffer view cell value writer authority cell.buffer
