-- ===== src/Engine/Tests/Sessions.antt =====
-- A client's session on a branch with one declared field.
use borg_core.Prelude.{ℕ, ◌≡◌, Bool, true, none, some, List, [], ◌∷◌, refl, map}
use borg_core.Core.Cell.{CellRef, Event, prop, existence, client, Writer.producer}
use borg_core.Core.Value.{Value, Value.int, Value.bool, pos}
use borg_core.Core.Layer.{Layer, LayerAuthor.source, open', value}
use borg_core.Core.Value.{ValueType}
use borg_core.Engine.Log.{Manager}
use borg_core.Engine.Defs.Registry.{u64_max}
use borg_core.Engine.Session.{WriteSession, fresh_session, open_on, put_cell}
use borg_core.Engine.Session.Conforming.{staged_events}
use borg_core.Engine.Session.Runs.{Writes}
use borg_core.Engine.Tests.Schemas.{schema, schema_path, now, alice}

abbrev age_of_alice : CellRef
age_of_alice = prop "Person" "age" alice

abbrev handle : Layer
handle = record {
  id = 6;
  branch = 1;
  kind = value;
  author = source;
  state = open';
  parent = some 5;
  guards = [];
}

abbrev session : WriteSession
session = fresh_session schema_path now now client handle

abbrev open_log : Manager
open_log = (open_on schema 1 1 u64_max client source).1

-- Two writes, of which the second has a value of another type.
abbrev after_one : Manager × WriteSession
after_one = let r = put_cell open_log session age_of_alice (int (pos 30)) none in (r.1, r.2)

abbrev after_two : Manager × WriteSession
after_two = let r = put_cell after_one.0 after_one.1 age_of_alice (bool true) none in (r.1, r.2)

-- The write that was refused left nothing, and the other one came with the object's existence cell.
layer_holds :
    map (λ (e : Event). e.cell) (staged_events after_two.0 6)
    ≡ existence "Person" alice ∷ age_of_alice ∷ []
unfolding staged_events borg_core.Prelude.Map.get put_cell borg_core.Engine.Defs.Writes.check_write
    borg_core.Prelude.string_discrete borg_core.Engine.Defs.Writes.check_ownership
    borg_core.Engine.Defs.Writes.permitted borg_core.Engine.Defs.field
    borg_core.Engine.Defs.declared borg_core.Engine.Defs.Writes.check_type
    borg_core.Core.Value.accepts borg_core.Engine.Session.imply_existence
    borg_core.Core.Cell.CellRef-discrete borg_core.Core.Cell.BufferId-discrete
    borg_core.Core.Cell.existence_of borg_core.Storage.Memory.Provider.get_cell
    borg_core.Storage.Memory.Provider.get_cell_from borg_core.Storage.Memory.Index.newest_at
    borg_core.Core.Cell.existence_in borg_core.Core.Pid.Pid-discrete
    borg_core.Core.Pid.PidKind-discrete borg_core.Engine.Defs.FieldKey-discrete
    borg_core.Engine.Defs.Writes.migrates borg_core.Engine.Defs.Writes.named_by
    borg_core.Engine.Defs.version_of borg_core.Engine.Log.put
    borg_core.Engine.Session.Conforming.events_of borg_core.Prelude.Map.insert borg_core.Prelude.add
    borg_core.Storage.Memory.Index.landings borg_core.Storage.Memory.OpenLayer.author_event
    borg_core.Storage.Memory.OpenLayer.staged borg_core.Storage.Memory.OpenLayer.with_staged
    borg_core.Storage.Memory.State.event_of borg_core.Storage.Memory.State.slot
    borg_core.Storage.Memory.State.stored_in borg_core.Prelude.ℕ_discrete open_on
    borg_core.Engine.Log.read_path borg_core.Engine.Log.segments_from borg_core.Engine.Log.forks_at
    borg_core.Engine.Defs.Registry.view_at borg_core.Engine.Defs.Registry.fold_layers
    borg_core.Engine.Defs.Registry.def_layers borg_core.Storage.Memory.Provider.sort_ids
    borg_core.Engine.Log.def_layers_of borg_core.Storage.Memory.Provider.insert_sorted
    borg_core.Engine.Defs.Fold.apply_all borg_core.Storage.Memory.Provider.read_def_layer
    borg_core.Engine.Defs.Fold.apply borg_core.Engine.Defs.Fold.put_field
    borg_core.Engine.Log.open_handle borg_core.Storage.Memory.Provider.open_layer
layer_holds = refl
