-- ===== src/Engine/Touch.antt =====
-- crates/borg-engine/src/touch.rs: which source layers have touched a cell.
pub mod Lookup
pub mod Moved
pub mod Quiet
use borg_core.Prelude.{Bool, true, false, Option, none, some, List, [], ◌∷◌, map, max, ◌&&◌, any}
use borg_core.Prelude.{ltb, leb, if◌then◌else◌, push, unwrap_or, ◌==◌}
use borg_core.Prelude.Map.{Map, get, insert}
use borg_core.Core.Ids.{BranchId, LayerId}
use borg_core.Core.Cell.{CellRef, Event, cell_eq}
use borg_core.Core.Layer.{Layer, ReadPath, is_source}
use borg_core.Prelude.{nat_eq}

-- `position` is how far the log has been folded in.
pub record Touches : Type 0 where
  pub cells : Map BranchId (Map CellRef (List LayerId))
  pub highest : Map BranchId LayerId
  pub position : LayerId

abbrev pub empty : Touches
empty = record { cells = []; highest = []; position = 0 }

-- `Position::reached`, a `fetch_max`.
abbrev pub reached : Touches → LayerId → Touches
reached t layer = record t { position = max t.position layer }

-- The layers that touched a cell on a branch, in the order in which they were recorded.
unfoldable pub history : Touches → BranchId → CellRef → List LayerId
history t branch cell = unwrap_or (get (unwrap_or (get t.cells branch) []) cell) []

last_is : List LayerId → LayerId → Bool
last_is [] layer = false
last_is (l ∷ []) layer = l == layer
last_is (l ∷ k ∷ rest) layer = last_is (k ∷ rest) layer

-- One turn of the loop of `record`: a layer that is last already is not pushed again.
unfoldable pub touch_cell :
    LayerId → Map CellRef (List LayerId) → CellRef → Map CellRef (List LayerId)
unfolding last_is
touch_cell layer m cell =
    let h = unwrap_or (get m cell) [] in insert m cell (if last_is h layer then h else push h layer)

unfoldable pub touch_cells :
    LayerId → Map CellRef (List LayerId) → List CellRef → Map CellRef (List LayerId)
touch_cells layer m [] = m
touch_cells layer m (cell ∷ rest) = touch_cells layer (touch_cell layer m cell) rest

-- `entry(branch).or_insert(layer)`, raised to `layer` if that is higher.
raise : Option LayerId → LayerId → LayerId
raise none layer = layer
raise (some h) layer = if ltb h layer then layer else h

unfoldable pub record_touches : Touches → BranchId → LayerId → List CellRef → Touches
unfolding raise
record_touches t branch layer cells = record (reached t layer) {
  highest = insert t.highest branch (raise (get t.highest branch) layer);
  cells = insert t.cells branch (touch_cells layer (unwrap_or (get t.cells branch) []) cells);
}

above_on_segment : Option LayerId → LayerId → LayerId → Bool
above_on_segment none since bound = false
above_on_segment (some layer) since bound = ltb since layer && leb layer bound

unfoldable pub moved_since : Touches → ReadPath → LayerId → Bool
unfolding above_on_segment
moved_since t path since = any (λ s. above_on_segment (get t.highest s.0) since s.1) path.segments

is_earlier : Option LayerId → LayerId → Bool
is_earlier none layer = true
is_earlier (some found) layer = ltb layer found

-- The inner loop of `lookup`: the earliest layer so far, against the history of one segment.
unfoldable pub earliest_in : Option LayerId → List LayerId → LayerId → LayerId → Option LayerId
unfolding is_earlier
earliest_in found [] since bound = found
earliest_in found (layer ∷ rest) since bound =
    earliest_in
      (if ltb since layer && leb layer bound && is_earlier found layer then some layer else found)
      rest since bound

unfoldable pub lookup_from :
    Option LayerId → Touches → List (BranchId × LayerId) → CellRef → LayerId → Option LayerId
lookup_from found t [] cell since = found
lookup_from found t ((branch, bound) ∷ rest) cell since =
    lookup_from (earliest_in found (history t branch cell) since bound) t rest cell since

unfoldable pub lookup : Touches → ReadPath → CellRef → LayerId → Option LayerId
lookup t path cell since = lookup_from none t path.segments cell since

found_at : CellRef → Option LayerId → Option (CellRef × LayerId) → Option (CellRef × LayerId)
found_at cell none rest = rest
found_at cell (some layer) rest = some (cell, layer)

unfoldable pub first_touched_since :
    Touches → ReadPath → List CellRef → LayerId → Option (CellRef × LayerId)
unfolding found_at
first_touched_since t path [] since = none
first_touched_since t path (cell ∷ rest) since =
    found_at cell (lookup t path cell since) (first_touched_since t path rest since)

-- `Projection::wants` and `Projection::apply` of the index.
abbrev pub wants : Layer → Bool
wants layer = is_source layer.author

unfoldable pub apply : Touches → Layer → List Event → Touches
apply t layer events =
    let t' =
      if is_source layer.author
      then record_touches t layer.branch layer.id (map (λ e. e.cell) events)
      else t in
    reached t' layer.id
