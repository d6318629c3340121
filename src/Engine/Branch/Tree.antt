-- ===== src/Engine/Branch/Tree.antt =====
-- branch.rs: the tree of branches.
pub mod Forks
use borg_core.Prelude.{
  ℕ, zero, suc, ◌+◌, ◌%◌, Bool, true, false, Option, none, some, List, [], ◌∷◌, map, keep,
}
use borg_core.Prelude.{String, ◌&&◌, max, if◌then◌else◌, length, ◌==◌, nat_eq}
use borg_core.Prelude.Map.{Map, get}
use borg_core.Core.Ids.{BranchId, LayerId}
use borg_core.Core.Layer.{Layer, Branch}
use borg_core.Core.Error.{
  Result, ok, err, BorgError, storage, unknown_layer, layer_not_on_branch, diverged,
}
use borg_core.Engine.Log.{Manager, register_branch}
use borg_core.Storage.Memory.Provider.{put_branch}
use borg_core.Storage.Memory.State.{u64_mod}

-- The manager of branches: the log under it, and the counter of ids.
pub record Branches : Type 0 where
  pub log : Manager
  pub next_id : ℕ

abbrev pub Branched : Type 0 → Type 0
Branched A = Result A × Branches

above_all : ℕ → Map BranchId Branch → ℕ
above_all n [] = n
above_all n ((k, b) ∷ m) = max (b.id + 1) (above_all n m)

-- Ids resume above every branch that is registered.
unfoldable pub resuming : Manager → ℕ → Branches
unfolding above_all
resuming log next_id = record { log = log; next_id = above_all next_id log.branches }

abbrev pub is_none : {A : Type 0} → Option A → Bool
is_none none = true
is_none (some a) = false

unfoldable pub roots : Branches → List BranchId
roots s = map (λ b. b.id) (keep (λ b. is_none b.origin) (map (λ e. e.1) s.log.branches))

-- Unused by the log, not merely unregistered.
unfoldable pub is_unused : Manager → BranchId → Bool
is_unused log id = is_none (get log.branches id) && is_none (get log.heads id)

-- The loop, on fuel: the id, and the counter after it.
unfoldable pub next_from : ℕ → Manager → ℕ → Result (BranchId × ℕ)
next_from zero log id = err diverged
next_from (suc fuel) log id =
    let later = next_from fuel log ((id + 1) % u64_mod) in
    if is_unused log id then ok (id, (id + 1) % u64_mod) else later

-- Each id that is in use is that of a branch or of a head.
unfoldable pub next_branch : Branches → Result (BranchId × ℕ)
next_branch s = next_from (suc (length s.log.branches + length s.log.heads)) s.log s.next_id

unfoldable pub persist : Manager → Branch → Manager
persist log b = record (register_branch log b) { store = put_branch log.store b }

created : Branches → Option String → Option LayerId → Result (BranchId × ℕ) → Branched BranchId
created s name origin (err e) = (err e, s)
created s name origin (ok n) = (
  ok n.0,
  record { log = persist s.log (record { id = n.0; name = name; origin = origin }); next_id = n.1 },
)

unfoldable pub create_root : Branches → Option String → Branched BranchId
unfolding created
create_root s name = created s name none (next_branch s)

fork_found : Branches → BranchId → LayerId → Option String → Option Layer → Branched BranchId
unfolding created
fork_found s parent at name none = (err (storage (unknown_layer at)), s)
fork_found s parent at name (some l) =
    if l.branch == parent
    then created s name (some at) (next_branch s)
    else (err (layer_not_on_branch at parent), s)

-- Fork at a layer: nothing is copied.
unfoldable pub fork : Branches → BranchId → LayerId → Option String → Branched BranchId
unfolding fork_found
fork s parent at name = fork_found s parent at name (get s.log.layers at)

branch_of : Option Layer → Option BranchId
branch_of none = none
branch_of (some l) = some l.branch

layer_at : Manager → Option LayerId → Option BranchId
unfolding branch_of
layer_at log none = none
layer_at log (some origin) = branch_of (get log.layers origin)

unfoldable pub origin_of : Option Branch → Option LayerId
origin_of none = none
origin_of (some b) = b.origin

-- The parent is the branch of the origin layer: there is no pointer to it.
unfoldable pub parent_of : Manager → BranchId → Option BranchId
unfolding layer_at
parent_of log id = layer_at log (origin_of (get log.branches id))
