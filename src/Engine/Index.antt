-- ===== src/Engine/Index.antt =====
-- crates/borg-engine/src/index.rs: `MemoryDependencyIndex`, what read and wrote which cell.
pub mod Edges
pub mod Forgotten
use borg_core.Prelude.{
  ℕ, Bool, true, false, Option, none, some, List, [], ◌∷◌, ◌&&◌, ◌||◌, not, keep, map, Eq,
  ℕ_discrete,
}
use borg_core.Prelude.{add, contains, if◌then◌else◌, unwrap_or, nat_eq, same, ◌≟◌, ◌==◌}
use borg_core.Prelude.Map.{Map, get, insert, remove}
use borg_core.Core.Ids.{BranchId, ProducerId}
use borg_core.Core.Pid.{Pid, Pid-discrete}
use borg_core.Core.Cell.{CellAt, CellAt-discrete, cell_at_eq}

-- A producer applied to one entity.
pub record Invocation : Type 0 where
  pub producer : ProducerId
  pub input : Pid

unfoldable pub Invocation-discrete : Discrete Invocation
Invocation-discrete = hlevel (ℕ_discrete, Pid-discrete)

instance abbrev pub invocation_eq : Eq Invocation
invocation_eq = record { dec = Invocation-discrete }

-- A record on a branch, and an invocation on a branch.
pub record CellOn : Type 0 where
  pub branch : BranchId
  pub cell : CellAt

pub record InvocationOn : Type 0 where
  pub branch : BranchId
  pub invocation : Invocation

unfoldable pub CellOn-discrete : Discrete CellOn
CellOn-discrete = hlevel (ℕ_discrete, CellAt-discrete)

unfoldable pub InvocationOn-discrete : Discrete InvocationOn
InvocationOn-discrete = hlevel (ℕ_discrete, Invocation-discrete)

instance abbrev pub cell_on_eq : Eq CellOn
cell_on_eq = record { dec = CellOn-discrete }

instance abbrev pub invocation_on_eq : Eq InvocationOn
invocation_on_eq = record { dec = InvocationOn-discrete }

-- Forward edges, backward edges, and what each invocation read.
pub record DependencyIndex : Type 0 where
  pub dependents : Map CellOn (List Invocation)
  pub dependencies : Map CellOn (List CellAt)
  pub read_sets : Map InvocationOn (List CellAt)

abbrev pub empty : DependencyIndex
empty = record { dependents = []; dependencies = []; read_sets = [] }

-- `HashSet::remove`.
abbrev pub without : List Invocation → Invocation → List Invocation
without set invocation = keep (λ i. not (same i invocation)) set

retract_in :
    Map CellOn (List Invocation)
    → CellOn
    → Invocation
    → Option (List Invocation)
    → Map CellOn (List Invocation)
retract_in m at invocation none = m
retract_in m at invocation (some set) = insert m at (without set invocation)

unfoldable pub retract :
    Map CellOn (List Invocation)
    → BranchId
    → Invocation
    → List CellAt
    → Map CellOn (List Invocation)
unfolding retract_in
retract m branch invocation [] = m
retract m branch invocation (cell ∷ rest) =
    let at : CellOn = record { branch = branch; cell = cell } in
    retract (retract_in m at invocation (get m at)) branch invocation rest

unfoldable pub subscribe :
    Map CellOn (List Invocation)
    → BranchId
    → Invocation
    → List CellAt
    → Map CellOn (List Invocation)
subscribe m branch invocation [] = m
subscribe m branch invocation (cell ∷ rest) =
    let at : CellOn = record { branch = branch; cell = cell } in
    subscribe (insert m at (add (unwrap_or (get m at) []) invocation)) branch invocation rest

unfoldable pub derive_from :
    Map CellOn (List CellAt) → BranchId → List CellAt → List CellAt → Map CellOn (List CellAt)
derive_from m branch read_set [] = m
derive_from m branch read_set (cell ∷ rest) =
    derive_from (insert m (record { branch = branch; cell = cell }) read_set) branch read_set rest

-- The previous run's forward edges are retracted before this run's are added.
unfoldable pub record_run :
    DependencyIndex → BranchId → Invocation → List CellAt → List CellAt → DependencyIndex
record_run d branch invocation read_set write_set =
    let key : InvocationOn = record { branch = branch; invocation = invocation } in
    let previous = unwrap_or (get d.read_sets key) [] in
    record {
      dependents =
          subscribe (retract d.dependents branch invocation previous) branch invocation read_set;
      dependencies = derive_from d.dependencies branch read_set write_set;
      read_sets = insert (remove d.read_sets key) key read_set;
    }

unfoldable pub dependents_of : DependencyIndex → BranchId → CellAt → List Invocation
dependents_of d branch cell =
    unwrap_or (get d.dependents (record { branch = branch; cell = cell })) []

add_all : List Invocation → List Invocation → List Invocation
add_all found [] = found
add_all found (i ∷ is) = add_all (add found i) is

dependents_from : List Invocation → DependencyIndex → BranchId → List CellAt → List Invocation
unfolding add_all
dependents_from found d branch [] = found
dependents_from found d branch (cell ∷ rest) =
    dependents_from (add_all found (dependents_of d branch cell)) d branch rest

unfoldable pub dependents : DependencyIndex → BranchId → List CellAt → List Invocation
unfolding dependents_from
dependents d branch cells = dependents_from [] d branch cells

unfoldable pub dependencies : DependencyIndex → BranchId → CellAt → List CellAt
dependencies d branch cell =
    unwrap_or (get d.dependencies (record { branch = branch; cell = cell })) []

forget_set : ProducerId → List Invocation → List Invocation
forget_set producer set = keep (λ i. not (i.producer == producer)) set

is_nonempty : List Invocation → Bool
is_nonempty [] = false
is_nonempty (i ∷ is) = true

-- `retain` on the forward edges: the producer is dropped on every branch, as the source has it.
unfoldable pub forget_edges :
    Map CellOn (List Invocation) → BranchId → ProducerId → Map CellOn (List Invocation)
unfolding forget_set is_nonempty
forget_edges [] branch producer = []
forget_edges ((at, set) ∷ m) branch producer =
    let rest = forget_edges m branch producer in
    let left = forget_set producer set in
    if not (at.branch == branch) || is_nonempty left then (at, left) ∷ rest else rest

unfoldable pub forget_producer : DependencyIndex → BranchId → ProducerId → DependencyIndex
forget_producer d branch producer = record d {
  dependents = forget_edges d.dependents branch producer;
  read_sets =
      keep (λ e. not (e.0.branch == branch) || not (e.0.invocation.producer == producer))
        d.read_sets;
}
