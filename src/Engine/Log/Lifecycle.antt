-- ===== src/Engine/Log/Lifecycle.antt =====
-- log.rs: a layer opens, is sealed, and is committed or aborted.
pub mod Transitions
pub mod Touched
pub mod Advances
pub mod Committed
use borg_core.Prelude.{ℕ, ◌+◌, ◌%◌, Bool, true, false, Option, none, some, List, [], ◌∷◌}
use borg_core.Prelude.{if◌then◌else◌, push, nat_eq, same}
use borg_core.Prelude.Map.{get, insert}
use borg_core.Core.Ids.{BranchId, LayerId, EventId}
use borg_core.Core.Cell.{CellRef, Event, EventDraft}
use borg_core.Core.Def.{DefEvent}
use borg_core.Core.Layer.{
  Layer, LayerKind, LayerAuthor, LayerState, Guard, layer_state_eq, layer_kind_eq,
}
use borg_core.Core.Layer.{open', sealed, committed, aborted, value, def, is_source}
use borg_core.Core.Error.{
  Result, ok, err, BorgError, storage, unknown_layer, layer_state_violation, mixed_layer_kind,
}
use borg_core.Engine.Touch
use borg_core.Engine.Log.State.{Manager, head, raise_head, note_def}
use borg_core.Engine.Log.Guarding.{check_guards}
use borg_core.Storage.Memory.State.{Inner, u64_mod}
use borg_core.Storage.Memory.OpenLayer.{Outcome, author_event, include_event, put_def, seal, abort}
use borg_core.Storage.Memory.Provider.{
  open_layer, put_layer_meta, commit_layer, read_layer, collect,
}

-- What an operation returns, and the manager that it leaves, on every path.
abbrev pub Managed : Type 0 → Type 0
Managed A = Result A × Manager

-- `?` on an effect: what follows runs after a success only.
infixl 10 ◌then_do◌
abbrev pub ◌then_do◌ : {A B : Type 0} → Managed A → (A → Manager → Managed B) → Managed B
(ok a, m) then_do f = f a m
(err e, m) then_do f = (err e, m)

-- A call of the store.
abbrev pub in_store : {A : Type 0} → Manager → Outcome A → Managed A
in_store m (r, store) = (r, record m { store = store })

-- An open layer: what its owner holds. The store's part is named by the layer's id.
abbrev pub LayerHandle : Type 0
LayerHandle = Layer

unfoldable pub guard : LayerHandle → Guard → LayerHandle
guard handle g = record handle { guards = push handle.guards g }

unfoldable pub put : Manager → LayerHandle → CellRef → EventDraft → Managed EventId
put m handle cell draft = in_store m (author_event m.store handle.id cell draft)

unfoldable pub include : Manager → LayerHandle → EventId → Managed Unit
include m handle event = in_store m (include_event m.store handle.id event)

-- A value layer takes no def event.
unfoldable pub put_def_event : Manager → LayerHandle → DefEvent → Managed Unit
put_def_event m handle event =
    if same handle.kind value
    then (err mixed_layer_kind, m)
    else in_store m (put_def m.store handle.id event)

transition_found : Manager → LayerId → LayerState → LayerState → Option Layer → Managed Unit
transition_found m id expected next none = (err (storage (unknown_layer id)), m)
transition_found m id expected next (some l) =
    if same l.state expected
    then (ok tt, record m { layers = insert m.layers id (record l { state = next }) })
    else (err (layer_state_violation id expected l.state), m)

unfoldable pub transition : Manager → LayerId → LayerState → LayerState → Managed Unit
unfolding transition_found
transition m id expected next = transition_found m id expected next (get m.layers id)

-- `LayerManager::open`. The id is `InProcessSequencer::next_layer_id`, a `fetch_add` on a `u64`.
unfoldable pub open_handle : Manager → BranchId → LayerKind → LayerAuthor → Managed LayerHandle
open_handle m branch kind author =
    let layer : Layer = record {
      id = m.next_layer;
      branch = branch;
      kind = kind;
      author = author;
      state = open';
      parent = head m branch;
      guards = [];
    } in
    let m1 = record m {
      next_layer = (m.next_layer + 1) % u64_mod;
      layers = insert m.layers m.next_layer layer;
    } in
    in_store m1 (open_layer m.store branch m.next_layer) then_do λ _ m2. (ok layer, m2)

store_guards : Manager → LayerHandle → Option Layer → Manager
store_guards m handle none = m
store_guards m handle (some stored) = record m {
  layers = insert m.layers handle.id (record stored { guards = handle.guards });
}

-- `Projections::committed` for the touch index: a source layer is read back, a derived one is not.
fold_layer : Manager → Layer → Result (List Event) → Managed LayerId
fold_layer m l (err e) = (err e, m)
fold_layer m l (ok events) = (ok l.id, record m { touches = Touch.apply m.touches l events })

unfoldable pub project : Manager → Layer → Managed LayerId
unfolding fold_layer
project m l =
    fold_layer m l (if is_source l.author then collect (read_layer m.store l.id) else ok [])

-- The end of `commit`, once the store has made the layer visible.
unfoldable pub land : Manager → Layer → Managed LayerId
land m l =
    transition m l.id sealed committed then_do λ _ m1. project (note_def (raise_head m1 l) l) l

-- `commit` from the guards' success on.
unfoldable pub publish : Manager → LayerHandle → Managed LayerId
unfolding store_guards
publish m handle =
    let durable = record handle { state = committed } in
    in_store (store_guards m handle (get m.layers handle.id)) (seal m.store handle.id)
    then_do λ _ m1.
        in_store m1 (commit_layer (put_layer_meta m1.store durable) handle.id) then_do λ _ m2.
        land m2 durable

-- A guard that fails: the store drops what was staged, and the layer is aborted.
reject : Manager → LayerHandle → BorgError → Managed LayerId
reject m handle e = in_store m (abort m.store handle.id) then_do λ _ m1.
    transition m1 handle.id sealed aborted then_do λ _ m2. (err e, m2)

guarded : Manager → LayerHandle → Result (Unit {0}) → Managed LayerId
unfolding reject
guarded m handle (err e) = reject m handle e
guarded m handle (ok u) = publish m handle

unfoldable pub commit : Manager → LayerHandle → Managed LayerId
unfolding guarded
commit m handle = transition m handle.id open' sealed then_do λ _ m1.
    guarded m1 handle (check_guards m1 handle.branch handle.guards none)

unfoldable pub abort_layer : Manager → LayerHandle → Managed Unit
abort_layer m handle =
    in_store m (abort m.store handle.id) then_do λ _ m1. transition m1 handle.id open' aborted
