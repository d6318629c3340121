-- ===== src/Engine/Tests/Logs.antt =====
-- Commits, on a log of one branch and one committed layer.
use borg_core.Prelude.{
  ℕ, ◌+◌, ◌≤◌, ◌<◌, ◌≡◌, ◌≢◌, ◌⊎◌, ◌↔◌, inl, inr, Bool, true, false, Option, none, some, List, [],
  ◌∷◌,
}
use borg_core.Prelude.{refl, arith, In, All, nat_eq, ℕ_discrete, ◌≟◌}
use borg_core.Prelude.Map.{get, insert}
use borg_core.Core.Layer.{Layer, Branch, ReadPath, Guard, LayerAuthor.source, open', sealed, value}
use borg_core.Core.Ids.{LayerId}
use borg_core.Core.Error.{ok, err, BorgError, guard_violated}
use borg_core.Engine.Touch
use borg_core.Engine.Touch.{first_touched_since, lookup, history, earliest_in, lookup_from}
use borg_core.Engine.Log.{
  Manager, Managed, forks_at, read_path, head, starting_at, layers_of, settled_ceiling, commit,
  check_guards, open_handle, check_touched, segments_from, refuse_derived, check_each,
  is_derived_anywhere,
}
use borg_core.Engine.Log.{highest_source_layer}
use borg_core.Engine.Log.State.Highest.{IsHighest, IsShown, highest_source_layer-IsHighest}
use borg_core.Engine.Log.State.Settled.{Ceiling, settled_ceiling-Ceiling}
use borg_core.Engine.Log.State.Settled.{IsCommittedOn}
use borg_core.Engine.Log.Reading.Ancestry.{IsStart, Ancestry, IsForest, read_path-Ancestry}
use borg_core.Engine.Log.Lifecycle.Transitions.{moved}
use borg_core.Engine.Log.Lifecycle.Touched.{IsRejected, commit-IsRejected}
use borg_core.Engine.Touch.Lookup.{TouchedOn}
use borg_core.Engine.Log.Lifecycle.Advances.{Advances, commit-Advances}
use borg_core.Engine.Log.Lifecycle.Committed.{Lands, commit-Lands}
use borg_core.Engine.Tests.{layer_4, name, touches}
use borg_core.Storage.Memory.State
use borg_core.Storage.Memory.Provider.{open_layer, cell_versions}

abbrev pub root : Branch
root = record { id = 1; name = none; origin = none }

abbrev pub log : Manager
log = record {
  store = State.new;
  next_layer = 5;
  touches = touches;
  layers = (4, layer_4) ∷ [];
  heads = (1, 4) ∷ [];
  branches = (1, root) ∷ [];
  def_layers = [];
}

pub log-IsForest : IsForest log
unfolding forks_at get
log-IsForest b parent origin e = elim (1 ≟ b) [
  | yes p ↦ ground (arith, p, e)
  | no n ↦ ground (arith, n, e)
]

abbrev log_path : ReadPath
log_path = record { segments = (1, 4) ∷ [] }

-- A branch that forks from the committed layer.
abbrev with_fork : Manager
with_fork = record log {
  branches = (1, root) ∷ (2, record { id = 2; name = none; origin = some 4 }) ∷ [];
}

with_fork-IsForest : IsForest with_fork
unfolding forks_at get
with_fork-IsForest b parent origin e = elim (1 ≟ b) [
  | yes p ↦ ground (arith, p, e)
  | no n ↦ elim (2 ≟ b) [ yes p ↦ ground (arith, n, p, e) | no k ↦ ground (arith, n, k, e) ]
]

path_example :
    (path : ReadPath) × (bound : LayerId) × (read_path with_fork 2 (some 3) ≡ ok path)
    × IsStart (some 3) (get with_fork.heads 2) bound
    × Ancestry with_fork (some 3) 2 bound path.segments
path_example = read_path-Ancestry with_fork 2 (some 3) with_fork-IsForest

-- The ancestor is bounded at the layer asked for, which is below the fork point, or at the fork point.
forked_path :
    (read_path with_fork 2 (some 3) ≡ ok (record { segments = (2, 3) ∷ (1, 3) ∷ [] }))
    × (read_path with_fork 2 (some 9) ≡ ok (record { segments = (2, 9) ∷ (1, 4) ∷ [] }))
unfolding read_path segments_from forks_at get ℕ_discrete borg_core.Engine.Log.clamp
forked_path = (refl, refl)

ceiling_example : Ceiling (IsCommittedOn log 1) 6 0 (settled_ceiling log 1 6)
ceiling_example = settled_ceiling-Ceiling log 1 6

abbrev opened : Manager
opened = (open_handle log 1 value source).1

abbrev handle : Layer
handle = record {
  id = 5;
  branch = 1;
  kind = value;
  author = source;
  state = open';
  parent = some 4;
  guards = [];
}

abbrev guarded_handle : Layer
guarded_handle = record handle { guards = record { cells = name ∷ []; since = 2 } ∷ [] }

stored_handle : get opened.layers 5 ≡ some handle
unfolding open_handle open_layer get insert ℕ_discrete
stored_handle = refl

guard_fails :
    check_guards (moved opened 5 handle sealed) 1 guarded_handle.guards none
    ≡ err (guard_violated name 2 4)
unfolding check_guards read_path segments_from forks_at get open_handle open_layer ℕ_discrete
    check_each refuse_derived is_derived_anywhere borg_core.Engine.Log.derived_at cell_versions
    check_touched first_touched_since lookup lookup_from earliest_in history
    borg_core.Core.Cell.BufferId-discrete borg_core.Core.Cell.CellRef-discrete
    borg_core.Core.Pid.Pid-discrete borg_core.Core.Pid.PidKind-discrete
    borg_core.Engine.Log.landed_derived borg_core.Engine.Log.origin_derived
    borg_core.Engine.Log.clamp starting_at borg_core.Prelude.string_discrete insert
    borg_core.Storage.Memory.Index.landings borg_core.Storage.Memory.Index.newest_at
    borg_core.Storage.Memory.Provider.get_cell borg_core.Storage.Memory.Provider.get_cell_from
    State.event_of State.slot State.stored_in Touch.apply Touch.record_touches Touch.touch_cell
    Touch.touch_cells
guard_fails = refl

guarded_path : read_path opened 1 none ≡ ok log_path
unfolding read_path segments_from forks_at get open_handle open_layer ℕ_discrete
guarded_path = refl

touched_name : TouchedOn opened.touches log_path.segments name 2 4
unfolding open_handle history get open_layer Touch.apply Touch.record_touches insert ℕ_discrete
    Touch.touch_cells Touch.touch_cell borg_core.Core.Cell.CellRef-discrete
    borg_core.Core.Cell.BufferId-discrete borg_core.Prelude.string_discrete
    borg_core.Core.Pid.Pid-discrete borg_core.Core.Pid.PidKind-discrete
touched_name = record {
  branch = 1;
  bound = 4;
  on_path = inl refl;
  written = inl refl;
  after = omega arith;
  visible = omega arith;
}

IsRejected-example :
    (e : BorgError) × (n : Manager) × (commit opened guarded_handle ≡ (err e, n))
    × IsRejected opened n 5 handle
IsRejected-example =
    commit-IsRejected opened guarded_handle handle log_path
      (record { cells = name ∷ []; since = 2 }) name 4 stored_handle refl guarded_path (inl refl)
      (inl refl) touched_name

Advances-example : Advances 5 opened (commit opened guarded_handle).1
Advances-example = commit-Advances opened guarded_handle

commits : (commit opened handle).0 ≡ ok 5
unfolding commit borg_core.Engine.Log.transition get open_handle open_layer insert ℕ_discrete
    borg_core.Core.Layer.LayerState-discrete check_guards borg_core.Engine.Log.publish
    borg_core.Storage.Memory.OpenLayer.seal borg_core.Storage.Memory.Provider.commit_layer
    borg_core.Storage.Memory.Provider.put_layer_meta borg_core.Storage.Memory.Provider.store_all
    borg_core.Storage.Memory.Provider.index_all borg_core.Engine.Log.land
    borg_core.Engine.Log.project borg_core.Storage.Memory.Provider.collect
    borg_core.Core.Layer.LayerKind-discrete borg_core.Engine.Log.note_def
    borg_core.Engine.Log.raise_head borg_core.Engine.Log.raised Touch.apply
    borg_core.Storage.Memory.Provider.read_layer borg_core.Storage.Memory.Provider.read_membership
commits = refl

Lands-example : Lands handle (commit opened handle)
Lands-example = commit-Lands opened handle 5 commits

IsHighest-example : IsHighest (highest_source_layer log log_path) (IsShown log log_path)
IsHighest-example = highest_source_layer-IsHighest log log_path
