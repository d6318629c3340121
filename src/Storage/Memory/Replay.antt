-- ===== src/Storage/Memory/Replay.antt =====
-- What the loop over a layer's members (memory.rs) leaves in the read index.
use borg_core.Prelude.{◌≡◌, Option, none, some, List, [], ◌∷◌, arith, refl}
use borg_core.Prelude.{nat_eq, ◌&&◌, same, if◌then◌else◌, All}
use borg_core.Core.Ids.{BranchId, LayerId, EventId, DefVersion}
use borg_core.Core.Cell.{CellRef, Event, cell_eq}
use borg_core.Core.Error.{ok}
use borg_core.Storage.Memory.Index.{ReadIndex, index}
use borg_core.Storage.Memory.Index.Landings.{hits, IsTidy, index-IsTidy, entry, entry-index}
use borg_core.Storage.Memory.State.{stored_in, event_of}
use borg_core.Storage.Memory.Provider.{index_all}

-- The event that an id names is stored.
abbrev pub IsStored : List (Option Event) → EventId → Type 0
IsStored events id = (e : Event) × (stored_in events id ≡ some e)

unfoldable pub hit_of : Option Event → CellRef → DefVersion → Option EventId
hit_of none c v = none
hit_of (some e) c v = if hits c v e then some e.id else none

abbrev pub or_else : Option EventId → Option EventId → Option EventId
or_else none o = o
or_else (some e) o = some e

-- The last of the members that wrote the record.
unfoldable pub last_hit : List (Option Event) → List EventId → CellRef → DefVersion → Option EventId
last_hit events [] c v = none
last_hit events (id ∷ ids) c v =
    or_else (last_hit events ids c v) (hit_of (stored_in events id) c v)

event_of_stored :
    (events : List (Option Event)) (id : EventId) (e : Event)
    → stored_in events id ≡ some e
    → event_of events id ≡ ok e
unfolding event_of
event_of_stored events id e h = rw h

-- What one layer's members make of the index.
abbrev pub Replayed :
    List (Option Event) → ReadIndex → BranchId → LayerId → List EventId → ReadIndex → Type 0
Replayed events reads branch layer ids reads' =
    (b : BranchId) (c : CellRef) (v : DefVersion) (l : LayerId)
    → entry reads' b c v l ≡ (
        if same branch b && same layer l
        then or_else (last_hit events ids c v) (entry reads b c v l)
        else entry reads b c v l)

pub index_all-Replayed :
    (events : List (Option Event)) (reads : ReadIndex) (branch : BranchId) (layer : LayerId)
    (ids : List EventId)
    → All (IsStored events) ids
    → IsTidy reads
    → (reads' : ReadIndex) × (index_all events reads branch layer ids ≡ (ok tt, reads'))
      × IsTidy reads'
      × Replayed events reads branch layer ids reads'
unfolding index_all last_hit hit_of
index_all-Replayed events reads branch layer [] h tidy =
    (reads, refl, tidy, λ b c v l. ground arith)
index_all-Replayed events reads branch layer (id ∷ ids) ((e, q), h) tidy =
    let (reads', run, tidy', all) =
      index_all-Replayed events (index reads branch layer e) branch layer ids h
        (index-IsTidy reads branch layer e tidy) in
    (
      reads',
      rw (event_of_stored events id e q, index_all) run,
      tidy',
      λ b c v l. ground (arith, q, all b c v l, entry-index reads branch b layer l e c v),
    )
