-- ===== src/Engine/Index/Edges.antt =====
-- Every forward edge is one of the invocation's last run.
use borg_core.Prelude.{◌≡◌, Bool, false, List, [], ◌∷◌}
use borg_core.Prelude.{contains, same}
use borg_core.Prelude.{unwrap_or, ◌||◌}
use borg_core.Prelude.Map.{Map, get}
use borg_core.Core.Ids.{BranchId}
use borg_core.Core.Cell.{CellAt, cell_at_eq}
use borg_core.Engine.Index.{
  Invocation, CellOn, DependencyIndex, cell_on_eq, invocation_on_eq, invocation_eq,
}
use borg_core.Prelude.{nat_eq}

-- Whether an invocation is a dependent of a record.
unfoldable pub subscribed : Map CellOn (List Invocation) → CellOn → Invocation → Bool
subscribed m at i = contains (unwrap_or (get m at) []) i

-- What an invocation read in its last run.
unfoldable pub reads_of : DependencyIndex → BranchId → Invocation → List CellAt
reads_of d branch i = unwrap_or (get d.read_sets (record { branch = branch; invocation = i })) []

-- The edges of the index are those of the last runs.
abbrev pub IsCurrent : DependencyIndex → Type 0
IsCurrent d =
    (b : BranchId) (c : CellAt) (i : Invocation)
    → subscribed d.dependents (record { branch = b; cell = c }) i ≡ contains (reads_of d b i) c

on : BranchId → CellAt → CellOn
on b c = record { branch = b; cell = c }

-- Whether a record on a branch is one of the records `cells` on the branch `b`.
among : BranchId → List CellAt → CellOn → Bool
among b [] at = false
among b (x ∷ cells) at = same (on b x) at || among b cells at
