-- ===== src/Engine/Log/State.antt =====
-- log.rs: what a `LayerManager` keeps, what it reinstates, and what it looks up.
pub mod Settled
pub mod Highest
use borg_core.Prelude.{
  ℕ, Bool, true, false, Option, none, some, List, [], ◌∷◌, ◌&&◌, map, keep, push,
}
use borg_core.Prelude.{ltb, leb, if◌then◌else◌, unwrap_or, ◌==◌, same, nat_eq, max, any}
use borg_core.Prelude.Map.{Map, get, insert}
use borg_core.Core.Ids.{BranchId, LayerId}
use borg_core.Core.Layer.{
  Layer, LayerState, LayerAuthor, Branch, ReadPath, layer_state_eq, layer_kind_eq,
}
use borg_core.Core.Layer.{source, derived, committed, aborted, def, is_source}
use borg_core.Engine.Touch.{Touches}
use borg_core.Storage.Memory.State.{Inner}
use borg_core.Storage.Memory.Provider.{sort_ids}

-- The manager: its store, the next id of its `InProcessSequencer`, the touch index, and its `State`.
pub record Manager : Type 0 where
  pub store : Inner
  pub next_layer : ℕ
  pub touches : Touches
  pub layers : Map LayerId Layer
  pub heads : Map BranchId LayerId
  pub branches : Map BranchId Branch
  pub def_layers : Map BranchId (List LayerId)

unfoldable pub register_branch : Manager → Branch → Manager
register_branch m b = record m { branches = insert m.branches b.id b }

abbrev pub branch : Manager → BranchId → Option Branch
branch m id = get m.branches id

abbrev pub head : Manager → BranchId → Option LayerId
head m id = get m.heads id

abbrev pub layer : Manager → LayerId → Option Layer
layer m id = get m.layers id

-- `entry(branch).or_insert(id)`, raised to `id`: a head never moves back.
unfoldable pub raised : Option LayerId → LayerId → LayerId
raised none id = id
raised (some head) id = if ltb head id then id else head

unfoldable pub raise_head : Manager → Layer → Manager
raise_head m l = record m { heads = insert m.heads l.branch (raised (get m.heads l.branch) l.id) }

unfoldable pub note_def : Manager → Layer → Manager
note_def m l =
    if same l.kind def
    then record m {
      def_layers =
          insert m.def_layers l.branch (push (unwrap_or (get m.def_layers l.branch) []) l.id);
    }
    else m

-- A layer that comes back and is not committed has no owner: it is aborted.
unfoldable pub settled_state : LayerState → LayerState
settled_state committed = committed
settled_state _ = aborted

unfoldable pub restore : Manager → Layer → Manager
unfolding settled_state
restore m l =
    let back = record l { state = settled_state l.state } in
    let noted = if same back.state committed then note_def (raise_head m back) back else m in
    record noted { layers = insert noted.layers back.id back }

unfoldable pub def_layers_of : Manager → BranchId → LayerId → List LayerId
def_layers_of m b bound = sort_ids (keep (λ id. leb id bound) (unwrap_or (get m.def_layers b) []))

author_in : Option Layer → Option LayerAuthor
author_in none = none
author_in (some l) = some l.author

unfoldable pub author_of : Manager → LayerId → Option LayerAuthor
unfolding author_in
author_of m id = author_in (get m.layers id)

abbrev pub all_layers : Manager → List Layer
all_layers m = map (λ e. e.1) m.layers

-- Every committed layer that belongs to a branch.
unfoldable pub layers_of : Manager → BranchId → List Layer
layers_of m b = keep (λ l. (l.branch == b) && same l.state committed) (all_layers m)

unfoldable pub insert_by_id : Layer → List Layer → List Layer
insert_by_id l [] = l ∷ []
insert_by_id l (k ∷ ks) =
    let rest = insert_by_id l ks in if leb l.id k.id then l ∷ k ∷ ks else k ∷ rest

-- `sort_by_key(|layer| layer.id.0)`
unfoldable pub sort_by_id : List Layer → List Layer
sort_by_id [] = []
sort_by_id (l ∷ ls) = insert_by_id l (sort_by_id ls)

unfoldable pub settled_by : LayerId → LayerAuthor → LayerId → Bool
settled_by id source watermark = leb id watermark
settled_by id (derived producer reflects) watermark = leb reflects watermark

-- The loop of `settled_ceiling`: it stops at the first layer that is not settled.
unfoldable pub ceiling_from : LayerId → List Layer → LayerId → LayerId
ceiling_from ceiling [] watermark = ceiling
ceiling_from ceiling (l ∷ ls) watermark =
    let next = ceiling_from l.id ls watermark in
    if settled_by l.id l.author watermark then next else ceiling

unfoldable pub settled_ceiling : Manager → BranchId → LayerId → LayerId
settled_ceiling m b watermark = ceiling_from 0 (sort_by_id (layers_of m b)) watermark

max_with : LayerId → Option LayerId → LayerId
max_with id none = id
max_with id (some other) = max id other

unfoldable pub highest : List Layer → Option LayerId
unfolding max_with
highest [] = none
highest (l ∷ ls) = some (max_with l.id (highest ls))

unfoldable pub visible_along : ReadPath → Layer → Bool
visible_along path l = any (λ s. (l.branch == s.0) && leb l.id s.1) path.segments

unfoldable pub highest_source_layer : Manager → ReadPath → Option LayerId
highest_source_layer m path = highest (
    keep (visible_along path)
      (keep (λ l. same l.state committed && is_source l.author) (all_layers m)))
