-- ===== src/Engine/Log/Lifecycle/Transitions.antt =====
-- The state machine of a layer: what a transition, a commit and an abort do to it.
use borg_core.Prelude.{◌≡◌, ◌≢◌, none, some, arith, refl}
use borg_core.Prelude.{nat_eq}
use borg_core.Prelude.Map.{get, insert, get-insert_self, remove}
use borg_core.Core.Ids.{LayerId}
use borg_core.Core.Layer.{Layer, LayerState, layer_state_eq}
use borg_core.Core.Layer.{open', sealed, aborted}
use borg_core.Core.Error.{ok, err, BorgError, layer_state_violation}
use borg_core.Engine.Log.State.{Manager}
use borg_core.Engine.Log.Guarding.{check_guards}
use borg_core.Engine.Log.Lifecycle.{LayerHandle, transition, commit}
use borg_core.Storage.Memory.OpenLayer.{abort}

-- `m` with the layer `l` moved to a state.
abbrev pub moved : Manager → LayerId → Layer → LayerState → Manager
moved m id l next = record m { layers = insert m.layers id (record l { state = next }) }

pub transition-moved :
    (m : Manager) (id : LayerId) (l : Layer) (expected next : LayerState)
    → get m.layers id ≡ some l
    → l.state ≡ expected
    → transition m id expected next ≡ (ok tt, moved m id l next)
unfolding transition
transition-moved m id l expected next e s = rw e (ground (arith, s))

-- A layer that is not in the expected state is refused, with its state, and nothing is changed.
pub transition_refused :
    (m : Manager) (id : LayerId) (l : Layer) (expected next : LayerState)
    → get m.layers id ≡ some l
    → l.state ≢ expected
    → transition m id expected next ≡ (err (layer_state_violation id expected l.state), m)
unfolding transition
transition_refused m id l expected next e s = rw e (ground (arith, s))

-- What a rejected commit leaves: the layer aborted and its staged writes dropped, and nothing else.
abbrev pub Rejected : Manager → LayerHandle → Layer → Manager
Rejected m h l = record (moved (moved m h.id l sealed) h.id (record l { state = sealed }) aborted) {
  store = record m.store { staged = remove m.store.staged h.id };
}

-- A commit of an open layer whose guards fail returns the violation, aborts the layer and drops what it staged; the
-- store's events, memberships and read index, the heads and the touch index are as they were.
pub commit-rejected :
    (m : Manager) (h : LayerHandle) (l : Layer) (e : BorgError)
    → get m.layers h.id ≡ some l
    → l.state ≡ open'
    → check_guards (moved m h.id l sealed) h.branch h.guards none ≡ err e
    → commit m h ≡ (err e, Rejected m h l)
unfolding commit abort
commit-rejected m h l e found is_open fails =
    rw (transition-moved m h.id l open' sealed found is_open, fails)
      (let m1 : Manager = record (moved m h.id l sealed) {
        store = record m.store { staged = remove m.store.staged h.id };
      } in
        rw
          (transition-moved m1 h.id (record l { state = sealed }) sealed aborted
            (get-insert_self m.layers h.id (record l { state = sealed })) refl)
          refl)
