-- ===== src/Storage/Memory/Index.antt =====
-- memory.rs: the read index, `(branch, cell, version) -> (layer, event)`.
pub mod Newest
pub mod Landings
use borg_core.Prelude.{Bool, true, false, Option, none, some, List, [], ◌∷◌, ◌&&◌, leb, ltb}
use borg_core.Prelude.{if◌then◌else◌, unwrap_or, nat_eq}
use borg_core.Prelude.Map.{Map, get, insert}
use borg_core.Core.Ids.{BranchId, LayerId, EventId, DefVersion}
use borg_core.Core.Cell.{CellRef, Event, cell_eq}

-- A cell's landings at one version: one entry for each landing layer, in the order of commits.
abbrev pub History : Type 0
History = Map LayerId EventId

abbrev pub ReadIndex : Type 0
ReadIndex = Map BranchId (Map CellRef (Map DefVersion History))

beats : Option (LayerId × EventId) → LayerId → Bool
beats none landed = true
beats (some (best, event)) landed = leb best landed

-- `filter` and `max_by_key` in one pass; of equal keys the last one wins.
newest_from : Option (LayerId × EventId) → History → LayerId → Option (LayerId × EventId)
unfolding beats
newest_from best [] bound = best
newest_from best ((landed, event) ∷ rest) bound =
    newest_from (if leb landed bound && beats best landed then some (landed, event) else best) rest
      bound

-- The newest landing at or below a bound.
unfoldable pub newest_at : History → LayerId → Option (LayerId × EventId)
unfolding newest_from
newest_at history bound = newest_from none history bound

-- The landings of a record. Where a key is missing the list is empty, and holds nothing to find.
unfoldable pub landings : ReadIndex → BranchId → CellRef → DefVersion → History
landings reads branch cell version =
    unwrap_or (get (unwrap_or (get (unwrap_or (get reads branch) []) cell) []) version) []

-- Record that an event landed on a branch at a layer: a layer's entry is replaced, not repeated.
unfoldable pub index : ReadIndex → BranchId → LayerId → Event → ReadIndex
index reads branch layer event =
    let cells = unwrap_or (get reads branch) [] in
    let versions = unwrap_or (get cells event.cell) [] in
    let history = unwrap_or (get versions event.version) [] in
    insert reads branch
      (insert cells event.cell (insert versions event.version (insert history layer event.id)))
