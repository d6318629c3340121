-- ===== src/Engine/Tests/Schemas.antt =====
-- A field that is declared, then mutated with a migration each way; and one deleted and declared
-- again.
use borg_core.Prelude.{
  ℕ, ◌≡◌, ◌↔◌, inl, inr, Bool, true, false, Option, none, some, List, [], ◌∷◌, refl, arith, All,
  nat_eq, string_eq,
}
use borg_core.Prelude.Map.{get, insert}
use borg_core.Core.Cell.{prop, object_prop, Writer.producer}
use borg_core.Core.Pid.{Pid, allocated, PidKind.object}
use borg_core.Core.Value.{Value.int, pos, ValueType}
use borg_core.Core.Def.{
  FieldDef, DefEvent, declare_field, mutate_field, delete_field, Ownership.source,
}
use borg_core.Core.Def.MigrationDirection.{up}
use borg_core.Core.Layer.{ReadPath}
use borg_core.Core.Error.{ok, err, BorgError, field_collision}
use borg_core.Engine.Log.{Manager, read_path}
use borg_core.Engine.Defs.{DefView, VersionStep, MigrationHop, declared, default_view}
use borg_core.Engine.Defs.Fold.{apply, apply_all, chain_of}
use borg_core.Engine.Defs.Paths.{path}
use borg_core.Engine.Defs.Writes.{check_write}
use borg_core.Engine.Defs.Writes.Permitted.{IsPermitted, check_write-IsPermitted}
use borg_core.Engine.Defs.Registry.{view_at, view, def_layers, push_defs, u64_max}
use borg_core.Engine.Defs.Registry.Unmoved.{push_defs-rejected}
use borg_core.Engine.Defs.Registry.Views.{KeepsIn, IsNavigable, view_at-IsNavigable}
use borg_core.Engine.Tests.Logs.{log}
use borg_core.Storage.Memory.State

abbrev pub alice : Pid
alice = allocated object 1 0 7

abbrev pub schema : Manager
schema = record log {
  store = record State.new {
    def_contents =
        (3, declare_field "Person" "age" ValueType.int 1 source ∷ [])
        ∷ (5, mutate_field "Person" "age" ValueType.any_number 1 7 (some 8) ∷ [])
        ∷ [];
  };
  next_layer = 6;
  heads = (1, 5) ∷ [];
  def_layers = (1, 3 ∷ 5 ∷ []) ∷ [];
}

abbrev pub schema_path : ReadPath
schema_path = record { segments = (1, 5) ∷ [] }

abbrev age : FieldDef
age = record {
  name = "age";
  ty = ValueType.any_number;
  declaring_repo = 1;
  ownership = source;
  version = 5;
}

abbrev step : VersionStep
step = record { from = 3; to = 5; carries_up = 7; carries_down = some 8 }

abbrev pub now : DefView
now = record {
  objects = ("Person", record { name = "Person"; fields = ("age", age) ∷ [] }) ∷ [];
  chains = (record { struct_name = "Person"; field = "age" }, step ∷ []) ∷ [];
  producers = [];
}

seen : view_at schema schema_path u64_max ≡ ok now
unfolding view_at borg_core.Engine.Defs.Registry.fold_layers def_layers
    borg_core.Storage.Memory.Provider.sort_ids borg_core.Engine.Log.def_layers_of get
    borg_core.Prelude.ℕ_discrete borg_core.Storage.Memory.Provider.insert_sorted apply_all
    borg_core.Storage.Memory.Provider.read_def_layer apply declared
    borg_core.Engine.Defs.Fold.put_field insert borg_core.Prelude.string_discrete
    borg_core.Engine.Defs.Fold.push_step chain_of
seen = refl

seen_age : declared now "Person" "age" ≡ some age
unfolding declared get borg_core.Prelude.string_discrete
seen_age = refl

nothing_deleted : All (KeepsIn schema.store) (def_layers schema schema_path)
unfolding def_layers borg_core.Storage.Memory.Provider.sort_ids borg_core.Engine.Log.def_layers_of
    get borg_core.Prelude.ℕ_discrete borg_core.Storage.Memory.Provider.insert_sorted
    borg_core.Storage.Memory.Provider.read_def_layer
nothing_deleted = ((tt, tt), ((tt, tt), tt))

IsNavigable-example : IsNavigable now "Person" "age" age
IsNavigable-example =
    view_at-IsNavigable schema schema_path u64_max now "Person" "age" age nothing_deleted seen
      seen_age

permitted_example :
    (check_write now (prop "Person" "age" alice) (int (pos 30)) (producer 7) now ≡ ok tt)
    ↔ IsPermitted now (prop "Person" "age" alice) (int (pos 30)) (producer 7) now
permitted_example =
    check_write-IsPermitted now (prop "Person" "age" alice) (int (pos 30)) (producer 7) now

abbrev taken : List DefEvent
taken = declare_field "Person" "age" ValueType.bool 2 source ∷ []

path_now : read_path schema 1 none ≡ ok schema_path
unfolding read_path borg_core.Engine.Log.segments_from borg_core.Engine.Log.forks_at get
    borg_core.Prelude.ℕ_discrete
path_now = refl

refused_now : apply_all now taken 6 ≡ err (field_collision "Person" "age" 1)
unfolding apply_all apply declared get borg_core.Prelude.string_discrete
refused_now = refl

refused_example :
    ((failure : BorgError) × ((push_defs schema 1 taken).0 ≡ err failure))
    × ((p : ReadPath) (ceiling : ℕ)
        → view_at (push_defs schema 1 taken).1 p ceiling ≡ view_at schema p ceiling)
refused_example =
    push_defs-rejected schema 1 taken schema_path now (field_collision "Person" "age" 1) path_now
      seen refused_now

-- The chain outlives the field: from the first declaration's version to the second's, `path` answers
-- with a step that ends at neither.
abbrev again : List DefEvent
again = delete_field "Person" "age" 1 ∷ declare_field "Person" "age" ValueType.bool 1 source ∷ []

abbrev redeclared : DefView
redeclared = record now {
  objects =
      (
        "Person",
        record {
          name = "Person";
          fields = ("age", record age { ty = ValueType.bool; version = 7 }) ∷ [];
        },
      )
      ∷ [];
}

deleted_and_declared : apply_all now again 7 ≡ ok redeclared
unfolding apply_all apply get borg_core.Prelude.string_discrete declared insert
    borg_core.Prelude.Map.remove borg_core.Engine.Defs.Fold.put_field
deleted_and_declared = refl

strays :
    path redeclared (object_prop "Person" "age") 3 7
    ≡ some (record { producer = 7; direction = up; from = 3; to = 5 } ∷ [])
unfolding path get borg_core.Engine.Defs.FieldKey-discrete borg_core.Prelude.string_discrete
    borg_core.Engine.Defs.Paths.hops_up borg_core.Engine.Defs.Paths.hop_up
strays = refl
