-- ===== src/Core/Layer.antt =====
-- crates/borg-core/src/layer.rs: layers, branches and the ancestry that a read resolves through.
use borg_core.Prelude.{String, Bool, true, false, Option, none, some, List, [], ◌∷◌, max, Eq}
use borg_core.Prelude.{ℕ_discrete}
use borg_core.Core.Ids.{BranchId, LayerId, ProducerId}
use borg_core.Core.Cell.{CellRef}

pub data LayerState : Type 0 where
  open' sealed committed aborted : LayerState

pub data LayerKind : Type 0 where
  value def : LayerKind

-- `derived` holds the producer, and the source layer that it brings the world up to.
pub data LayerAuthor : Type 0 where
  source : LayerAuthor
  derived : ProducerId → LayerId → LayerAuthor

abbrev pub is_source : LayerAuthor → Bool
is_source source = true
is_source (derived producer reflects) = false

-- Nothing has touched these cells since this layer.
pub record Guard : Type 0 where
  pub cells : List CellRef
  pub since : LayerId

pub record Layer : Type 0 where
  pub id : LayerId
  pub branch : BranchId
  pub kind : LayerKind
  pub author : LayerAuthor
  pub state : LayerState
  pub parent : Option LayerId
  pub guards : List Guard

-- `origin` is `none` for the root of the tree.
pub record Branch : Type 0 where
  pub id : BranchId
  pub name : Option String
  pub origin : Option LayerId

-- Innermost first: each segment is a branch and the highest layer visible on it.
pub record ReadPath : Type 0 where
  pub segments : List (BranchId × LayerId)

abbrev first_branch : List (BranchId × LayerId) → Option BranchId
first_branch [] = none
first_branch ((branch, bound) ∷ rest) = some branch

-- `ReadPath::branch`.
abbrev pub path_branch : ReadPath → Option BranchId
path_branch path = first_branch path.segments

highest_bound : List (BranchId × LayerId) → LayerId
highest_bound [] = 0
highest_bound ((branch, bound) ∷ rest) = max bound (highest_bound rest)

unfoldable pub ceiling : ReadPath → LayerId
unfolding highest_bound
ceiling path = highest_bound path.segments

pub data MergeMode : Type 0 where
  def_only def_and_data : MergeMode

unfoldable pub LayerState-discrete : Discrete LayerState
LayerState-discrete = hlevel

unfoldable pub LayerKind-discrete : Discrete LayerKind
LayerKind-discrete = hlevel

unfoldable pub LayerAuthor-discrete : Discrete LayerAuthor
LayerAuthor-discrete = hlevel (ℕ_discrete)

instance abbrev pub layer_state_eq : Eq LayerState
layer_state_eq = record { dec = LayerState-discrete }

instance abbrev pub layer_kind_eq : Eq LayerKind
layer_kind_eq = record { dec = LayerKind-discrete }

instance abbrev pub layer_author_eq : Eq LayerAuthor
layer_author_eq = record { dec = LayerAuthor-discrete }
