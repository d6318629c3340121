-- ===== src/Engine/Log/Reading.antt =====
-- log.rs: `read_path`, the ancestry that a read resolves through.
pub mod Ancestry
pub mod Restated
use borg_core.Prelude.{
  ℕ, zero, suc, Option, none, some, List, [], ◌∷◌, min, unwrap_or, length, nat_eq,
}
use borg_core.Prelude.Map.{Map, get}
use borg_core.Core.Ids.{BranchId, LayerId}
use borg_core.Core.Layer.{Layer, Branch, ReadPath}
use borg_core.Core.Error.{Result, ok, err, diverged, ◌>>=◌}
use borg_core.Engine.Log.State.{Manager, head}

layer_branch : LayerId → Option Layer → Option (LayerId × BranchId)
layer_branch origin none = none
layer_branch origin (some l) = some (origin, l.branch)

origin_in : Map LayerId Layer → Option LayerId → Option (LayerId × BranchId)
unfolding layer_branch
origin_in layers none = none
origin_in layers (some origin) = layer_branch origin (get layers origin)

branch_origin : Option Branch → Option LayerId
branch_origin none = none
branch_origin (some b) = b.origin

-- Where a branch forks: its origin layer, and the branch of that.
unfoldable pub forks_at : Manager → BranchId → Option (LayerId × BranchId)
unfolding origin_in branch_origin
forks_at m id = origin_in m.layers (branch_origin (get m.branches id))

-- An ancestor is bounded at the fork point, and below it if the caller asked for a lower layer.
unfoldable pub clamp : Option LayerId → LayerId → LayerId
clamp none origin = origin
clamp (some requested) origin = min requested origin

-- The loop, on fuel: a chain of branches that returns to where it was never ends.
unfoldable pub segments_from :
    ℕ → Manager → Option LayerId → BranchId → LayerId → Result (List (BranchId × LayerId))
segments_from zero m requested current bound = err diverged
segments_from (suc fuel) m requested current bound = elim (forks_at m current) [
  | none ↦ ok ((current, bound) ∷ [])
  | some f ↦ segments_from fuel m requested f.1 (clamp requested f.0) >>= λ rest.
      ok ((current, bound) ∷ rest)
]

unfoldable pub starting_at : Option LayerId → Option LayerId → LayerId
starting_at none head = unwrap_or head 0
starting_at (some requested) head = requested

-- A chain without repetition has at most one segment for each registered branch, and one more.
unfoldable pub read_path : Manager → BranchId → Option LayerId → Result ReadPath
unfolding starting_at
read_path m branch requested =
    segments_from (suc (length m.branches)) m requested branch
      (starting_at requested (head m branch))
    >>= λ segments. ok (record { segments = segments })
