-- ===== src/Storage/Memory/Sound.antt =====
-- The invariant of the store of memory.rs.
pub mod Staging
pub mod Operations
pub mod Committing
pub mod Reachable
pub mod Invisible
use borg_core.Prelude.{ℕ, ◌≤◌, ◌<◌, ◌≡◌, ◌⊎◌, Option, none, some, List, [], All, In, nat_eq}
use borg_core.Prelude.Map.{get}
use borg_core.Core.Ids.{LayerId, EventId}
use borg_core.Core.Cell.{Event}
use borg_core.Storage.Memory.State.{Inner, StagedLayer, stored_in}
use borg_core.Storage.Memory.Replay.{IsStored}
use borg_core.Storage.Memory.Rebuild.{IsIndexed}

-- An event that is not stored yet, under an id that was handed out.
abbrev pub IsFresh : List (Option Event) → ℕ → Event → Type 0
IsFresh events next e = (stored_in events e.id ≡ none) × (0 < e.id) × (e.id ≤ next)

abbrev pub IsAuthored : StagedLayer → EventId → Type 0
IsAuthored s id = (e : Event) × In e s.authored × (e.id ≡ id)

-- A member of a staged layer is stored, or is authored by the layer itself.
abbrev pub IsNamed : List (Option Event) → StagedLayer → EventId → Type 0
IsNamed events s id = IsStored events id ⊎ IsAuthored s id

pub record IsSound (inner : Inner) : Type 0 where
  pub indexed : IsIndexed inner
  pub apart :
      (l : LayerId) (s : StagedLayer) → get inner.staged l ≡ some s → get inner.members l ≡ none
  pub fresh :
      (l : LayerId) (s : StagedLayer)
      → get inner.staged l ≡ some s
      → All (IsFresh inner.events inner.next_event) s.authored
  pub disjoint :
      (l k : LayerId) (s t : StagedLayer) (id : EventId)
      → get inner.staged l ≡ some s
      → get inner.staged k ≡ some t
      → IsAuthored s id
      → IsAuthored t id
      → l ≡ k
  pub named :
      (l : LayerId) (s : StagedLayer)
      → get inner.staged l ≡ some s
      → All (IsNamed inner.events s) s.members
  pub bounded :
      (id : EventId) (e : Event) → stored_in inner.events id ≡ some e → id ≤ inner.next_event
  pub own_id : (id : EventId) (e : Event) → stored_in inner.events id ≡ some e → e.id ≡ id
