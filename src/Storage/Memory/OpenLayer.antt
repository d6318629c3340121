-- ===== src/Storage/Memory/OpenLayer.antt =====
-- memory.rs: `MemoryOpenLayer`, the handle to one open layer. The handle is the layer's id.
use borg_core.Prelude.{true, Option, none, some, max, push, nat_eq}
use borg_core.Prelude.{if◌then◌else◌, ◌==◌}
use borg_core.Prelude.Map.{get, insert, remove}
use borg_core.Core.Ids.{LayerId, EventId}
use borg_core.Core.Cell.{CellRef, Event, EventDraft}
use borg_core.Core.Def.{DefEvent}
use borg_core.Core.Error.{
  Result, ok, err, storage, layer_not_open, layer_is_sealed, unknown_event, authored_elsewhere,
}
use borg_core.Storage.Memory.State.{Inner, StagedLayer, mint, stored}

-- What an operation returns, and the store that it leaves, on every path.
abbrev pub Outcome : Type 0 → Type 0
Outcome A = Result A × Inner

check_open : LayerId → Option StagedLayer → Result StagedLayer
check_open id none = err (storage (layer_not_open id))
check_open id (some staged) =
    if staged.sealed then err (storage (layer_is_sealed id)) else ok staged

-- The staged layer that a handle writes into, refusing once it is sealed.
unfoldable pub staged : Inner → LayerId → Result StagedLayer
unfolding check_open
staged inner id = check_open id (get inner.staged id)

-- A write into the staged layer, after the `?` on `staged`.
write_into :
    {A : Type 0}
    → Result StagedLayer
    → Inner
    → LayerId
    → (StagedLayer → StagedLayer)
    → A
    → Outcome A
write_into (err e) inner id f a = (err e, inner)
write_into (ok s) inner id f a = (ok a, record inner { staged = insert inner.staged id (f s) })

unfoldable pub with_staged :
    {A : Type 0} → Inner → LayerId → (StagedLayer → StagedLayer) → A → Outcome A
unfolding write_into
with_staged inner id f a = write_into (staged inner id) inner id f a

-- The event that a draft becomes: authored here, because here it is created.
abbrev pub event_from : EventId → LayerId → CellRef → EventDraft → Event
event_from id layer cell draft = record {
  id = id;
  cell = cell;
  value = draft.value;
  version = draft.version;
  origin = draft.origin;
  derivation = draft.derivation;
  authored = layer;
}

abbrev pub with_event : Event → StagedLayer → StagedLayer
with_event event s = record s {
  members = push s.members event.id;
  authored = push s.authored event;
}

-- The id is minted before the layer is looked up, so a refused write has used one.
unfoldable pub author_event : Inner → LayerId → CellRef → EventDraft → Outcome EventId
unfolding with_staged
author_event inner layer cell draft =
    let (id, minted) = mint inner in
    with_staged minted layer (with_event (event_from id layer cell draft)) id

unfoldable pub adopt_event : Inner → LayerId → Event → Outcome Unit
unfolding with_staged
adopt_event inner layer event =
    if event.authored == layer
    then with_staged (record inner { next_event = max inner.next_event event.id }) layer
        (with_event event) tt
    else (err (storage (authored_elsewhere event.id event.authored layer)), inner)

include_known : Option Event → Inner → LayerId → EventId → Outcome Unit
unfolding with_staged
include_known none inner layer id = (err (storage (unknown_event id)), inner)
include_known (some event) inner layer id =
    with_staged inner layer (λ s. record s { members = push s.members id }) tt

unfoldable pub include_event : Inner → LayerId → EventId → Outcome Unit
unfolding include_known
include_event inner layer id = include_known (stored inner id) inner layer id

unfoldable pub put_def : Inner → LayerId → DefEvent → Outcome Unit
unfolding with_staged
put_def inner layer event = with_staged inner layer (λ s. record s { defs = push s.defs event }) tt

seal_found : Option StagedLayer → Inner → LayerId → Outcome LayerId
seal_found none inner layer = (err (storage (layer_not_open layer)), inner)
seal_found (some s) inner layer =
    (ok layer, record inner { staged = insert inner.staged layer (record s { sealed = true }) })

-- Sealing a sealed layer again is no error. What is returned stands for the `SealedLayer`.
unfoldable pub seal : Inner → LayerId → Outcome LayerId
unfolding seal_found
seal inner layer = seal_found (get inner.staged layer) inner layer

unfoldable pub abort : Inner → LayerId → Outcome Unit
abort inner layer = (ok tt, record inner { staged = remove inner.staged layer })
