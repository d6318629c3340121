-- ===== src/Core/Def.antt =====
-- crates/borg-core/src/def.rs: definitions, and the events that mutate them.
use borg_core.Prelude.{String, Option, none, some, Eq, ℕ_discrete}
use borg_core.Prelude.Map.{Map}
use borg_core.Core.Ids.{LayerId, ProducerId, RepoId}
use borg_core.Core.Cell.{BufferId, FieldName, ObjectTypeName}
use borg_core.Core.Value.{ValueType}

pub data Ownership : Type 0 where
  source : Ownership
  derived : ProducerId → Ownership

abbrev pub owner : Ownership → Option ProducerId
owner source = none
owner (derived producer) = some producer

-- A field: its version is the def-layer that last mutated it.
pub record FieldDef : Type 0 where
  pub name : FieldName
  pub ty : ValueType
  pub declaring_repo : RepoId
  pub ownership : Ownership
  pub version : LayerId

-- The union of every repo's field declarations.
pub record ObjectDef : Type 0 where
  pub name : ObjectTypeName
  pub fields : Map FieldName FieldDef

pub data MigrationDirection : Type 0 where
  up down : MigrationDirection

pub data ProducerKind : Type 0 where
  pipeline : ProducerKind
  migration : MigrationDirection → ProducerKind

pub record ProducerDef : Type 0 where
  pub id : ProducerId
  pub kind : ProducerKind
  pub source : BufferId
  pub version : LayerId
  pub declaring_repo : RepoId
  pub fingerprint : Option String

pub data DefEvent : Type 0 where
  declare_field : ObjectTypeName → FieldName → ValueType → RepoId → Ownership → DefEvent
  mutate_field :
      ObjectTypeName → FieldName → ValueType → RepoId → ProducerId → Option ProducerId → DefEvent
  delete_field : ObjectTypeName → FieldName → RepoId → DefEvent
  push_producer : ProducerDef → DefEvent

-- The field that a def event is about.
unfoldable pub touches : DefEvent → Option (ObjectTypeName × FieldName)
touches (declare_field struct_name field ty repo ownership) = some (struct_name, field)
touches (mutate_field struct_name field ty repo forward backward) = some (struct_name, field)
touches (delete_field struct_name field repo) = some (struct_name, field)
touches (push_producer p) = none

abbrev pub repo_of : DefEvent → Option RepoId
repo_of (declare_field struct_name field ty repo ownership) = some repo
repo_of (mutate_field struct_name field ty repo forward backward) = some repo
repo_of (delete_field struct_name field repo) = some repo
repo_of (push_producer p) = some p.declaring_repo

unfoldable pub Ownership-discrete : Discrete Ownership
Ownership-discrete = hlevel (ℕ_discrete)

instance abbrev pub ownership_eq : Eq Ownership
ownership_eq = record { dec = Ownership-discrete }
