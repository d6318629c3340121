-- ===== src/Engine/Defs.antt =====
-- defs.rs: the definitions in force at one point of one branch, and what is asked of them.
pub mod Fold
pub mod Writes
pub mod Paths
pub mod Registry
use borg_core.Prelude.{
  ℕ, Bool, true, false, Option, none, some, List, [], ◌∷◌, Eq, string_discrete, if◌then◌else◌, same,
  nat_eq, string_eq,
}
use borg_core.Prelude.Map.{Map, get}
use borg_core.Core.Ids.{LayerId, DefVersion, ProducerId, RepoId, unversioned}
use borg_core.Core.Cell.{BufferId, CellRef, FieldName, ObjectTypeName, object_prop}
use borg_core.Core.Def.{
  FieldDef, ObjectDef, ProducerDef, MigrationDirection, ProducerKind, pipeline, migration,
}
use borg_core.Core.Def.MigrationDirection.{up, down}

-- One step of a field's version chain, and the migrations that bridge it.
pub record VersionStep : Type 0 where
  pub from : DefVersion
  pub to : DefVersion
  pub carries_up : ProducerId
  pub carries_down : Option ProducerId

-- A hop along a chain, in a direction.
pub record MigrationHop : Type 0 where
  pub producer : ProducerId
  pub direction : MigrationDirection
  pub from : DefVersion
  pub to : DefVersion

pub record MigrationRole : Type 0 where
  pub input : DefVersion
  pub output : DefVersion
  pub step : List ProducerId

-- A struct's field: the key of a chain.
pub record FieldKey : Type 0 where
  pub struct_name : ObjectTypeName
  pub field : FieldName

unfoldable pub FieldKey-discrete : Discrete FieldKey
FieldKey-discrete = hlevel (string_discrete)

instance abbrev pub field_key_eq : Eq FieldKey
field_key_eq = record { dec = FieldKey-discrete }

abbrev pub key_of : ObjectTypeName → FieldName → FieldKey
key_of s f = record { struct_name = s; field = f }

pub record DefView : Type 0 where
  pub objects : Map ObjectTypeName ObjectDef
  pub chains : Map FieldKey (List VersionStep)
  pub producers : Map ProducerId ProducerDef

abbrev pub default_view : DefView
default_view = record { objects = []; chains = []; producers = [] }

abbrev pub object : DefView → ObjectTypeName → Option ObjectDef
object view name = get view.objects name

abbrev pub producer : DefView → ProducerId → Option ProducerDef
producer view id = get view.producers id

field_in : Option ObjectDef → FieldName → Option FieldDef
field_in none f = none
field_in (some o) f = get o.fields f

-- The declaration of a struct's field.
unfoldable pub declared : DefView → ObjectTypeName → FieldName → Option FieldDef
unfolding field_in
declared view s f = field_in (get view.objects s) f

field_of_buffer : DefView → BufferId → Option FieldDef
field_of_buffer view (object_prop s f) = declared view s f
field_of_buffer view _ = none

-- `DefView::field`.
unfoldable pub field : DefView → CellRef → Option FieldDef
unfolding field_of_buffer
field view cell = field_of_buffer view cell.buffer

version_or : Option FieldDef → DefVersion
version_or none = unversioned
version_or (some d) = d.version

unfoldable pub version_of : DefView → CellRef → DefVersion
unfolding version_or
version_of view cell = version_or (field view cell)

names_step : MigrationDirection → ProducerId → VersionStep → Bool
names_step up id step = same step.carries_up id
names_step down id step = elim step.carries_down [ none ↦ false | some d ↦ same d id ]

-- `Iterator::find`.
unfoldable pub find {ℓ} : {A : Type ℓ} → (A → Bool) → List A → Option A
find p [] = none
find p (x ∷ xs) = let rest = find p xs in if p x then some x else rest

both_halves : VersionStep → List ProducerId
both_halves step = elim step.carries_down [
  | none ↦ step.carries_up ∷ []
  | some d ↦ step.carries_up ∷ d ∷ []
]

role_in : MigrationDirection → Option VersionStep → Option MigrationRole
unfolding both_halves
role_in direction none = none
role_in up (some step) =
    some (record { input = step.from; output = step.to; step = both_halves step })
role_in down (some step) =
    some (record { input = step.to; output = step.from; step = both_halves step })

chain_step : MigrationDirection → ProducerId → Option (List VersionStep) → Option VersionStep
unfolding names_step
chain_step direction id none = none
chain_step direction id (some chain) = find (names_step direction id) chain

migration_of : DefView → ProducerId → ProducerKind → BufferId → Option MigrationRole
unfolding role_in chain_step
migration_of view id (migration direction) (object_prop s f) =
    role_in direction (chain_step direction id (get view.chains (key_of s f)))
migration_of view id _ _ = none

-- Where a migration sits in the version chain of its field.
unfoldable pub migration_role : DefView → ProducerDef → Option MigrationRole
unfolding migration_of
migration_role view d = migration_of view d.id d.kind d.source
