-- ===== src/Storage/Memory/State.antt =====
-- memory.rs: the store's state, `Inner`.
use borg_core.Prelude.{ℕ, zero, suc, ◌+◌, ◌%◌, ◌^◌, Bool, Option, none, some, List, [], ◌∷◌}
use borg_core.Prelude.Map.{Map}
use borg_core.Core.Ids.{BranchId, LayerId, EventId}
use borg_core.Core.Cell.{Event}
use borg_core.Core.Def.{DefEvent}
use borg_core.Core.Layer.{Layer, Branch}
use borg_core.Core.Pid.{Pid}
use borg_core.Core.Error.{Result, ok, err, storage, unknown_event, panicked}
use borg_core.Storage.Memory.Index.{ReadIndex}

-- A committed layer's membership, in order, and the branch that it belongs to.
pub record Membership : Type 0 where
  pub branch : BranchId
  pub events : List EventId

pub record StagedLayer : Type 0 where
  pub branch : BranchId
  pub members : List EventId
  pub authored : List Event
  pub defs : List DefEvent
  pub sealed : Bool

pub record Inner : Type 0 where
  pub events : List (Option Event)
  pub members : Map LayerId Membership
  pub reads : ReadIndex
  pub staged : Map LayerId StagedLayer
  pub def_contents : Map LayerId (List DefEvent)
  pub layer_meta : Map LayerId Layer
  pub branches : Map BranchId Branch
  pub interned : Map Pid (List ℕ)
  pub next_event : ℕ

abbrev pub new : Inner
new = record {
  events = [];
  members = [];
  reads = [];
  staged = [];
  def_contents = [];
  layer_meta = [];
  branches = [];
  interned = [];
  next_event = 0;
}

abbrev pub u64_mod : ℕ
u64_mod = 2 ^ 64

-- The next event id; the counter is a `u64`.
abbrev pub mint : Inner → EventId × Inner
mint inner = let id : ℕ = (inner.next_event + 1) % u64_mod in (id, record inner { next_event = id })

unfoldable pub slot : List (Option Event) → ℕ → Option Event
slot [] n = none
slot (e ∷ es) zero = e
slot (e ∷ es) (suc n) = slot es n

-- `resize_with` up to the slot, and the write.
unfoldable pub put_slot : List (Option Event) → ℕ → Event → List (Option Event)
put_slot [] zero event = some event ∷ []
put_slot [] (suc n) event = none ∷ put_slot [] n event
put_slot (e ∷ es) zero event = some event ∷ es
put_slot (e ∷ es) (suc n) event = e ∷ put_slot es n event

-- An event by identity: ids count from 1.
unfoldable pub stored_in : List (Option Event) → EventId → Option Event
stored_in events zero = none
stored_in events (suc n) = slot events n

abbrev pub stored : Inner → EventId → Option Event
stored inner id = stored_in inner.events id

or_unknown : EventId → Option Event → Result Event
or_unknown id none = err (storage (unknown_event id))
or_unknown id (some event) = ok event

-- A row that names an event which does not exist is an error, not a miss.
unfoldable pub event_of : List (Option Event) → EventId → Result Event
unfolding or_unknown
event_of events id = or_unknown id (stored_in events id)

unfoldable pub store_at : List (Option Event) → EventId → Event → Result (List (Option Event))
store_at events zero event = err panicked
store_at events (suc n) event = ok (put_slot events n event)

-- `event.id.0 as usize - 1` underflows at id 0.
unfoldable pub store : List (Option Event) → Event → Result (List (Option Event))
store events event = store_at events event.id event
