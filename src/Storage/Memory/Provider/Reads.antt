-- ===== src/Storage/Memory/Provider/Reads.antt =====
-- memory.rs: the reading half of the provider.
use borg_core.Prelude.{Option, none, some, List, [], ◌∷◌, ◌++◌, map, push, any}
use borg_core.Prelude.{if◌then◌else◌, unwrap_or, nat_eq, leb, contains, not, ◌&&◌, ◌||◌, same}
use borg_core.Prelude.Map.{Map, get}
use borg_core.Core.Ids.{BranchId, LayerId, EventId, DefVersion}
use borg_core.Core.Cell.{CellRef, Event, Landed, BufferId, cell_eq, buffer_eq}
use borg_core.Core.Def.{DefEvent}
use borg_core.Core.Layer.{Layer, Branch, ReadPath}
use borg_core.Core.Pid.{pid_eq}
use borg_core.Core.Error.{Result, ok, err, ◌>>=◌}
use borg_core.Storage.Memory.Index.{History, newest_at, landings}
use borg_core.Storage.Memory.State.{Inner, Membership, event_of}

landed_from : Inner → LayerId → Result Event → Result (Option Landed)
landed_from inner landed_at (err e) = err e
landed_from inner landed_at (ok event) = ok (some (record { event = event; landed_at = landed_at }))

-- The first segment that holds any record wins.
walk_with : Option (LayerId × EventId) → Inner → Result (Option Landed) → Result (Option Landed)
walk_with none inner rest = rest
walk_with (some (landed_at, id)) inner rest = landed_from inner landed_at (event_of inner.events id)

unfoldable pub get_cell_from :
    Inner → List (BranchId × LayerId) → CellRef → DefVersion → Result (Option Landed)
unfolding walk_with landed_from
get_cell_from inner [] cell version = ok none
get_cell_from inner ((branch, bound) ∷ rest) cell version =
    walk_with (newest_at (landings inner.reads branch cell version) bound) inner
      (get_cell_from inner rest cell version)

unfoldable pub get_cell : Inner → ReadPath → CellRef → DefVersion → Result (Option Landed)
get_cell inner path cell version = get_cell_from inner path.segments cell version

add_versions : List DefVersion → Map DefVersion History → LayerId → List DefVersion
add_versions found [] bound = found
add_versions found ((version, history) ∷ rest) bound =
    add_versions
      (if not (contains found version) && any (λ l. leb l.0 bound) history
        then push found version
        else found)
      rest bound

versions_from : List DefVersion → Inner → List (BranchId × LayerId) → CellRef → List DefVersion
versions_from found inner [] cell = found
versions_from found inner ((branch, bound) ∷ rest) cell =
    versions_from
      (add_versions found (unwrap_or (get (unwrap_or (get inner.reads branch) []) cell) []) bound)
      inner rest cell

unfoldable pub cell_versions : Inner → ReadPath → CellRef → List DefVersion
unfolding versions_from add_versions
cell_versions inner path cell = versions_from [] inner path.segments cell

row_of : Inner → Option (LayerId × EventId) → List (Result Event)
row_of inner none = []
row_of inner (some (landed_at, id)) = event_of inner.events id ∷ []

-- The rows of one cell on one segment: one for each version with a landing in bounds.
rows_of_cell : Inner → Map DefVersion History → LayerId → List (Result Event)
rows_of_cell inner [] bound = []
rows_of_cell inner ((version, history) ∷ rest) bound =
    row_of inner (newest_at history bound) ++ rows_of_cell inner rest bound

-- The cells of one segment that the scan takes, and their rows. A cell without rows is not covered.
scan_segment :
    Inner
    → BufferId
    → List CellRef
    → Map CellRef (Map DefVersion History)
    → LayerId
    → List CellRef × List (Result Event)
scan_segment inner buffer seen [] bound = ([], [])
scan_segment inner buffer seen ((cell, versions) ∷ rest) bound =
    let (covered, rows) = scan_segment inner buffer seen rest bound in
    let own = rows_of_cell inner versions bound in
    if not (same cell.buffer buffer) || contains seen cell
    then (covered, rows)
    else (map (λ _. cell) own ++ covered, own ++ rows)

-- What an inner segment covered hides what its ancestors hold.
scan_from : Inner → BufferId → List CellRef → List (BranchId × LayerId) → List (Result Event)
scan_from inner buffer seen [] = []
scan_from inner buffer seen ((branch, bound) ∷ rest) =
    let (covered, rows) =
      scan_segment inner buffer seen (unwrap_or (get inner.reads branch) []) bound in
    rows ++ scan_from inner buffer (seen ++ covered) rest

unfoldable pub scan_buffer : Inner → ReadPath → BufferId → List (Result Event)
unfolding scan_from scan_segment rows_of_cell row_of
scan_buffer inner path buffer = scan_from inner buffer [] path.segments

members_of : Option Membership → List EventId
members_of none = []
members_of (some m) = m.events

unfoldable pub read_membership : Inner → LayerId → List EventId
unfolding members_of
read_membership inner layer = members_of (get inner.members layer)

-- The stream of `read_layer`: a row for each member.
unfoldable pub read_layer : Inner → LayerId → List (Result Event)
read_layer inner layer = map (event_of inner.events) (read_membership inner layer)

-- A reader that stops at the first row that failed.
unfoldable pub collect : {A : Type 0} → List (Result A) → Result (List A)
collect [] = ok []
collect (row ∷ rows) = row >>= λ a. collect rows >>= λ rest. ok (a ∷ rest)

unfoldable pub read_def_layer : Inner → LayerId → List DefEvent
read_def_layer inner layer = unwrap_or (get inner.def_contents layer) []

unfoldable pub read_layers : Inner → List Layer
read_layers inner = map (λ e. e.1) inner.layer_meta

unfoldable pub read_branches : Inner → List Branch
read_branches inner = map (λ e. e.1) inner.branches
