-- ===== src/Core/Cell.antt =====
-- crates/borg-core/src/cell.rs: cells, their addresses, and the events that write them.
use borg_core.Prelude.{ℕ, String, Option, none, some, List, Eq, ℕ_discrete}
use borg_core.Prelude.{string_discrete}
use borg_core.Core.Ids.{EventId, DefVersion, LayerId, ProducerId}
use borg_core.Core.Pid.{Pid, Pid-discrete}
use borg_core.Core.Value.{Value}

abbrev pub FieldName : Type 0
FieldName = String

abbrev pub ObjectTypeName : Type 0
ObjectTypeName = String

-- A partition of cells: one buffer for each definition.
pub data BufferId : Type 0 where
  object : ObjectTypeName → BufferId
  object_prop : ObjectTypeName → FieldName → BufferId
  list list_elem : ObjectTypeName → BufferId
  any_object any_array : BufferId

-- Locates a cell within its buffer.
pub data CellKey : Type 0 where
  pid : Pid → CellKey
  elem : Pid → ℕ → CellKey

abbrev pub pid_of_key : CellKey → Pid
pid_of_key (pid p) = p
pid_of_key (elem p index) = p

pub record CellRef : Type 0 where
  pub buffer : BufferId
  pub key : CellKey

abbrev pub prop : ObjectTypeName → FieldName → Pid → CellRef
prop struct_name field p = record { buffer = object_prop struct_name field; key = pid p }

abbrev pub existence : ObjectTypeName → Pid → CellRef
existence struct_name p = record { buffer = object struct_name; key = pid p }

abbrev pub list_cell : ObjectTypeName → Pid → CellRef
list_cell element p = record { buffer = list element; key = pid p }

abbrev pub elem_cell : ObjectTypeName → Pid → ℕ → CellRef
elem_cell list_def p index = record { buffer = list_elem list_def; key = elem p index }

abbrev pub pid_of : CellRef → Pid
pid_of cell = pid_of_key cell.key

unfoldable pub existence_in : BufferId → CellRef → CellRef
existence_in (object_prop struct_name field) cell = existence struct_name (pid_of cell)
existence_in _ cell = cell

-- The existence cell of the object that a cell belongs to.
unfoldable pub existence_of : CellRef → CellRef
unfolding existence_in
existence_of cell = existence_in cell.buffer cell

-- A cell at one def-version: the full address of a stored record.
pub record CellAt : Type 0 where
  pub cell : CellRef
  pub version : DefVersion

pub data Origin : Type 0 where
  source derived : Origin

pub data Writer : Type 0 where
  client : Writer
  producer : ProducerId → Writer

abbrev pub origin : Writer → Origin
origin client = source
origin (producer p) = derived

-- Derived-cell metadata: the layer that it reflects, and the records that were read.
pub record Derivation : Type 0 where
  pub producer : ProducerId
  pub fresh_as_of : LayerId
  pub read_set : List CellAt

pub record Event : Type 0 where
  pub id : EventId
  pub cell : CellRef
  pub value : Value
  pub version : DefVersion
  pub origin : Origin
  pub derivation : Option Derivation
  pub authored : LayerId

-- An event before the log has given it an identity and a layer.
pub record EventDraft : Type 0 where
  pub value : Value
  pub version : DefVersion
  pub origin : Origin
  pub derivation : Option Derivation

-- What a read finds: the event, and the layer where it landed on the branch that was read.
pub record Landed : Type 0 where
  pub event : Event
  pub landed_at : LayerId

reflects_of : Option Derivation → LayerId → LayerId
reflects_of none landed_at = landed_at
reflects_of (some by) landed_at = by.fresh_as_of

unfoldable pub reflects : Landed → LayerId
unfolding reflects_of
reflects l = reflects_of l.event.derivation l.landed_at

unfoldable pub BufferId-discrete : Discrete BufferId
BufferId-discrete = hlevel (string_discrete)

CellKey-discrete : Discrete CellKey
CellKey-discrete = hlevel (ℕ_discrete, Pid-discrete)

unfoldable pub CellRef-discrete : Discrete CellRef
unfolding CellKey-discrete
CellRef-discrete = hlevel (BufferId-discrete, CellKey-discrete)

unfoldable pub CellAt-discrete : Discrete CellAt
CellAt-discrete = hlevel (ℕ_discrete, CellRef-discrete)

instance abbrev pub buffer_eq : Eq BufferId
buffer_eq = record { dec = BufferId-discrete }

instance abbrev pub cell_eq : Eq CellRef
cell_eq = record { dec = CellRef-discrete }

instance abbrev pub cell_at_eq : Eq CellAt
cell_at_eq = record { dec = CellAt-discrete }
