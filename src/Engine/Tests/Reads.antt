-- ===== src/Engine/Tests/Reads.antt =====
-- A source value, a value derived from it, and what a read of the second says.
use borg_core.Prelude.{◌≡◌, ◌≤◌, none, some, [], ◌∷◌, refl, arith, ◌↔◌, true, false, List, All}
use borg_core.Core.Cell.{
  CellRef, CellAt, EventDraft, Derivation, Landed, Event, prop, Origin.derived,
}
use borg_core.Core.Ids.{BranchId, LayerId, ProducerId}
use borg_core.Core.Freshness.{Freshness, FreshnessRequirement}
use borg_core.Core.Value.{Value.int, pos}
use borg_core.Core.Layer.{ReadPath}
use borg_core.Core.Error.{ok}
use borg_core.Engine.Log.{Manager, read_path}
use borg_core.Engine.Resolve.{watermark, reaches}
use borg_core.Engine.Resolve.Frontier.{Move, advanced, rewound, after, caught_up, after-Refines}
use borg_core.Engine.Resolve.Answer.{answer, derived_answer}
use borg_core.Engine.Resolve.Answer.Honest.{IsUpToDate, answer-IsUpToDate}
use borg_core.Engine.Resolve.Validate.{Composed, validated}
use borg_core.Engine.Resolve.Validate.Ends.{IsHonest}
use borg_core.Engine.Resolve.Validate.Honest.{validated-IsHonest}
use borg_core.Engine.Defs.{default_view}
use borg_core.Engine.Defs.Registry.{view_at}
use borg_core.Engine.Index.{DependencyIndex, empty}
use borg_core.Engine.Resolve.Explain.{Lineage, edge_to, lineage, explain}
use borg_core.Engine.Resolve.Explain.Inputs.{Names, explain-Names}
use borg_core.Engine.Tests.Logs.{log}
use borg_core.Engine.Tests.Schemas.{alice}
use borg_core.Storage.Memory.State.{Inner, new}
use borg_core.Storage.Memory.OpenLayer.{author_event, seal}
use borg_core.Storage.Memory.Provider.{open_layer, commit_layer, get_cell}
use borg_core.Storage.Memory.Sound.{IsSound}
use borg_core.Storage.Memory.Sound.Reachable.{
  Staging, Step, Reach, here, next, Reach-IsSound, new-IsSound,
}

abbrev age : CellRef
age = prop "Person" "age" alice

abbrev next_age : CellRef
next_age = prop "Person" "next_age" alice

abbrev written : EventDraft
written = record {
  value = int (pos 41);
  version = 0;
  origin = borg_core.Core.Cell.Origin.source;
  derivation = none;
}

abbrev by : Derivation
by = record { producer = 9; fresh_as_of = 2; read_set = record { cell = age; version = 0 } ∷ [] }

abbrev computed : EventDraft
computed = record { value = int (pos 42); version = 0; origin = derived; derivation = some by }

abbrev opened : Inner
opened = (open_layer (open_layer new 1 2).1 1 4).1

abbrev staged : Inner
staged = (author_event (author_event opened 2 age written).1 4 next_age computed).1

abbrev store : Inner
store = (commit_layer (seal (commit_layer (seal staged 2).1 2).1 4).1 4).1

store-IsReached : Reach new store
unfolding open_layer borg_core.Prelude.Map.get borg_core.Prelude.Map.insert
    borg_core.Prelude.ℕ_discrete author_event borg_core.Storage.Memory.OpenLayer.staged
store-IsReached =
    next
      (next
        (next
          (next
            (next
              (next
                (next (next here (Step.staging (Staging.opened 1 2 refl)))
                  (Step.staging (Staging.opened 1 4 refl)))
                (Step.staging (Staging.authored 2 age written (omega arith) refl)))
              (Step.staging (Staging.authored 4 next_age computed (omega arith) refl)))
            (Step.staging (Staging.sealed 2 refl)))
          (Step.committed 2 refl))
        (Step.staging (Staging.sealed 4 refl)))
      (Step.committed 4 refl)

store-IsSound : IsSound store
store-IsSound = Reach-IsSound new-IsSound store-IsReached

abbrev m : Manager
m = record log { store = store }

abbrev path : ReadPath
path = record { segments = (1, 4) ∷ [] }

abbrev found : Landed
found = record {
  event = record {
    id = 2;
    cell = next_age;
    value = int (pos 42);
    version = 0;
    origin = derived;
    derivation = some by;
    authored = 4;
  };
  landed_at = 4;
}

path_found : read_path m 1 none ≡ ok path
unfolding read_path borg_core.Engine.Log.segments_from borg_core.Engine.Log.forks_at
    borg_core.Prelude.Map.get borg_core.Prelude.ℕ_discrete
path_found = refl

value_found : get_cell store path next_age 0 ≡ ok (some found)
unfolding get_cell borg_core.Storage.Memory.Provider.get_cell_from
    borg_core.Storage.Memory.Index.newest_at borg_core.Storage.Memory.Index.landings
    borg_core.Prelude.Map.get commit_layer seal author_event
    borg_core.Storage.Memory.OpenLayer.staged open_layer borg_core.Prelude.Map.insert
    borg_core.Prelude.ℕ_discrete borg_core.Storage.Memory.Provider.store_all
    borg_core.Storage.Memory.State.store borg_core.Storage.Memory.State.store_at
    borg_core.Storage.Memory.Provider.index_all borg_core.Storage.Memory.State.event_of
    borg_core.Storage.Memory.State.stored_in borg_core.Core.Cell.BufferId-discrete
    borg_core.Core.Cell.CellRef-discrete borg_core.Core.Pid.Pid-discrete
    borg_core.Core.Pid.PidKind-discrete borg_core.Prelude.string_discrete
    borg_core.Prelude.Map.remove borg_core.Storage.Memory.Index.index
    borg_core.Storage.Memory.OpenLayer.with_staged borg_core.Storage.Memory.State.put_slot
    borg_core.Storage.Memory.State.slot
value_found = refl

answered :
    answer m [] 1 next_age none 0 FreshnessRequirement.validated
    ≡ ok (derived_answer found 9 none (Freshness.current, 4))
unfolding answer read_path borg_core.Engine.Log.segments_from borg_core.Engine.Log.forks_at
    borg_core.Prelude.Map.get borg_core.Prelude.ℕ_discrete get_cell
    borg_core.Storage.Memory.Provider.get_cell_from borg_core.Storage.Memory.Index.newest_at
    borg_core.Storage.Memory.Index.landings commit_layer seal author_event
    borg_core.Storage.Memory.OpenLayer.staged open_layer borg_core.Prelude.Map.insert
    borg_core.Storage.Memory.Provider.store_all borg_core.Storage.Memory.State.store
    borg_core.Core.Cell.BufferId-discrete borg_core.Core.Cell.CellAt-discrete
    borg_core.Core.Cell.CellRef-discrete borg_core.Core.Cell.reflects
    borg_core.Core.Def.Ownership-discrete borg_core.Core.Layer.ceiling
    borg_core.Core.Pid.Pid-discrete borg_core.Core.Pid.PidKind-discrete
    borg_core.Core.Value.ValueType-discrete borg_core.Engine.Defs.FieldKey-discrete
    borg_core.Engine.Defs.Fold.apply borg_core.Engine.Defs.Fold.apply_all
    borg_core.Engine.Defs.Fold.chain_of borg_core.Engine.Defs.Fold.push_step
    borg_core.Engine.Defs.Fold.put_field borg_core.Engine.Defs.Paths.collect_down
    borg_core.Engine.Defs.Paths.hop_up borg_core.Engine.Defs.Paths.hops_down
    borg_core.Engine.Defs.Paths.hops_up borg_core.Engine.Defs.Paths.path
    borg_core.Engine.Defs.Registry.def_layers borg_core.Engine.Defs.Registry.fold_layers
    borg_core.Engine.Defs.Registry.view_at borg_core.Engine.Defs.declared borg_core.Engine.Defs.find
    borg_core.Engine.Log.clamp borg_core.Engine.Log.starting_at borg_core.Engine.Log.def_layers_of
    borg_core.Engine.Poison.applies_to borg_core.Engine.Poison.poisoned
    borg_core.Engine.Resolve.Answer.answer_by borg_core.Engine.Resolve.Answer.answer_found
    derived_answer borg_core.Engine.Resolve.Answer.final_state
    borg_core.Engine.Resolve.Answer.poisoning borg_core.Engine.Resolve.Answer.resolve_unmaterialized
    borg_core.Engine.Resolve.Answer.source_answer borg_core.Engine.Resolve.Answer.state_of
    borg_core.Engine.Resolve.Validate.over_reads borg_core.Engine.Resolve.Validate.records
    borg_core.Engine.Resolve.Validate.validate borg_core.Prelude.string_discrete
    borg_core.Prelude.Map.remove borg_core.Storage.Memory.Index.index
    borg_core.Storage.Memory.OpenLayer.with_staged borg_core.Storage.Memory.Provider.index_all
    borg_core.Storage.Memory.Provider.insert_sorted borg_core.Storage.Memory.Provider.sort_ids
    borg_core.Storage.Memory.Provider.cell_versions borg_core.Storage.Memory.Provider.read_def_layer
    borg_core.Storage.Memory.State.event_of borg_core.Storage.Memory.State.put_slot
    borg_core.Storage.Memory.State.slot borg_core.Storage.Memory.State.store_at
    borg_core.Storage.Memory.State.stored_in
answered = refl

IsUpToDate-example : IsUpToDate store path by 4
unfolding derived_answer borg_core.Core.Layer.ceiling
IsUpToDate-example =
    answer-IsUpToDate m [] 1 next_age none 0 FreshnessRequirement.validated path found by
      (derived_answer found 9 none (Freshness.current, 4)) store-IsSound path_found value_found refl
      answered refl

validated_example :
    (w : LayerId) × (composed : Composed) × (validated store path by.read_set by.fresh_as_of 4
      ≡ ok (w, composed))
    × IsHonest store path by.fresh_as_of 4 by.read_set w
validated_example = validated-IsHonest store path by.read_set by.fresh_as_of 4 store-IsSound

abbrev at_zero : CellRef → CellAt
at_zero cell = record { cell = cell; version = 0 }

abbrev index : DependencyIndex
index = record empty {
  dependencies = (record { branch = 1; cell = at_zero next_age }, at_zero age ∷ []) ∷ [];
}

abbrev input_landed : Landed
input_landed = record {
  event = record {
    id = 1;
    cell = age;
    value = int (pos 41);
    version = 0;
    origin = borg_core.Core.Cell.Origin.source;
    derivation = none;
    authored = 2;
  };
  landed_at = 2;
}

abbrev explained : Lineage
explained = lineage (at_zero next_age) found (edge_to (at_zero age) input_landed ∷ []) none

declares_nothing : view_at m path 0 ≡ ok default_view
unfolding view_at borg_core.Engine.Defs.Registry.fold_layers
    borg_core.Engine.Defs.Registry.def_layers borg_core.Storage.Memory.Provider.sort_ids
    borg_core.Engine.Log.def_layers_of borg_core.Prelude.Map.get
declares_nothing = refl

explanation : explain m index [] 1 next_age none 0 ≡ ok (some explained)
unfolding explain read_path borg_core.Engine.Log.segments_from borg_core.Engine.Log.forks_at
    borg_core.Prelude.Map.get borg_core.Prelude.ℕ_discrete view_at
    borg_core.Engine.Defs.Registry.fold_layers borg_core.Engine.Defs.Registry.def_layers
    borg_core.Storage.Memory.Provider.sort_ids borg_core.Engine.Log.def_layers_of get_cell
    borg_core.Storage.Memory.Provider.get_cell_from borg_core.Storage.Memory.Index.newest_at
    borg_core.Storage.Memory.Index.landings commit_layer seal author_event
    borg_core.Core.Cell.BufferId-discrete borg_core.Core.Cell.CellAt-discrete
    borg_core.Core.Cell.CellRef-discrete borg_core.Core.Def.Ownership-discrete
    borg_core.Core.Pid.Pid-discrete borg_core.Core.Pid.PidKind-discrete
    borg_core.Core.Value.ValueType-discrete borg_core.Engine.Defs.FieldKey-discrete
    borg_core.Engine.Defs.Fold.apply borg_core.Engine.Defs.Fold.apply_all
    borg_core.Engine.Defs.Fold.chain_of borg_core.Engine.Defs.Fold.push_step
    borg_core.Engine.Defs.Fold.put_field borg_core.Engine.Defs.declared borg_core.Engine.Defs.field
    borg_core.Engine.Defs.find borg_core.Engine.Defs.version_of
    borg_core.Engine.Index.CellOn-discrete borg_core.Engine.Index.dependencies
    borg_core.Engine.Log.clamp borg_core.Engine.Log.starting_at borg_core.Engine.Poison.applies_to
    borg_core.Engine.Poison.poisoned borg_core.Engine.Resolve.Answer.poisoning
    borg_core.Engine.Resolve.Explain.broken_by borg_core.Engine.Resolve.Explain.edges
    borg_core.Engine.Resolve.Explain.explain_found lineage borg_core.Prelude.string_discrete
    borg_core.Prelude.Map.insert borg_core.Prelude.Map.remove borg_core.Storage.Memory.Index.index
    borg_core.Storage.Memory.OpenLayer.staged borg_core.Storage.Memory.OpenLayer.with_staged
    borg_core.Storage.Memory.Provider.index_all borg_core.Storage.Memory.Provider.insert_sorted
    borg_core.Storage.Memory.Provider.store_all borg_core.Storage.Memory.Provider.read_def_layer
    borg_core.Storage.Memory.State.event_of borg_core.Storage.Memory.State.put_slot
    borg_core.Storage.Memory.State.slot borg_core.Storage.Memory.State.store
    borg_core.Storage.Memory.State.store_at borg_core.Storage.Memory.State.stored_in open_layer
explanation = refl

Names-example : Names store path (at_zero age ∷ []) (edge_to (at_zero age) input_landed ∷ [])
unfolding lineage borg_core.Engine.Index.dependencies borg_core.Prelude.Map.get
    borg_core.Engine.Index.CellOn-discrete borg_core.Prelude.ℕ_discrete
    borg_core.Core.Cell.CellAt-discrete borg_core.Core.Cell.CellRef-discrete
    borg_core.Core.Cell.BufferId-discrete borg_core.Prelude.string_discrete
    borg_core.Core.Pid.Pid-discrete borg_core.Core.Pid.PidKind-discrete
    borg_core.Engine.Defs.version_of borg_core.Engine.Defs.field borg_core.Engine.Defs.declared
Names-example =
    explain-Names m index [] 1 next_age none 0 path default_view explained store-IsSound path_found
      declares_nothing explanation

abbrev moves : List Move
moves = advanced 1 9 4 ∷ advanced 1 9 6 ∷ rewound 1 9 ∷ advanced 1 9 8 ∷ advanced 1 7 3 ∷ []

Refines-example :
    ((b : BranchId) (p : ProducerId) → watermark (after moves) b p ≡ caught_up moves b p)
    × ((b : BranchId) (producers : List ProducerId) (target : LayerId)
        → reaches (after moves) b producers target ≡ true
          ↔ All (λ p. target ≤ caught_up moves b p) producers)
Refines-example = after-Refines moves

-- The late advance to 4 does not move the mark back from 6, and the rewind forgot 8.
late_advance : watermark (after moves) 1 9 ≡ 6
unfolding watermark borg_core.Prelude.Map.get after borg_core.Engine.Resolve.advance
    borg_core.Prelude.Map.insert borg_core.Engine.Resolve.rewind
    borg_core.Engine.Resolve.WatermarkKey-discrete borg_core.Prelude.ℕ_discrete
late_advance = refl

-- The producer that lags behind decides.
waits_for_all : reaches (after moves) 1 (9 ∷ 7 ∷ []) 5 ≡ false
unfolding reaches borg_core.Engine.Resolve.settled watermark borg_core.Prelude.Map.get after
    borg_core.Engine.Resolve.advance borg_core.Prelude.Map.insert borg_core.Engine.Resolve.rewind
    borg_core.Engine.Resolve.WatermarkKey-discrete borg_core.Prelude.ℕ_discrete
waits_for_all = refl
