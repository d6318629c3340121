-- ===== src/Engine/Resolve/Explain.antt =====
-- resolve.rs: `Resolver::explain`, the dependency index read backwards.
pub mod Inputs
use borg_core.Prelude.{Option, none, some, List, [], ◌∷◌, String}
use borg_core.Core.Ids.{BranchId, LayerId, ProducerId}
use borg_core.Core.Cell.{CellRef, CellAt, Landed, Event, Derivation, Origin}
use borg_core.Core.Layer.{ReadPath}
use borg_core.Core.Error.{Result, ok, err, ◌>>=◌}
use borg_core.Engine.Log.{Manager, read_path}
use borg_core.Engine.Defs.{version_of}
use borg_core.Engine.Defs.Registry.{view_at}
use borg_core.Engine.Index.{DependencyIndex, dependencies}
use borg_core.Engine.Poison.{Broken, Poisoning}
use borg_core.Engine.Resolve.Answer.{poisoning}
use borg_core.Storage.Memory.State.{Inner}
use borg_core.Storage.Memory.Provider.{get_cell}

pub record LineageEdge : Type 0 where
  pub cell : CellAt
  pub origin : Origin
  pub landed_at : LayerId

pub record Lineage : Type 0 where
  pub cell : CellAt
  pub produced_by : Option ProducerId
  pub authored_at : LayerId
  pub landed_at : LayerId
  pub fresh_as_of : LayerId
  pub from : List LineageEdge
  pub broken : Option String

abbrev pub edge_to : CellAt → Landed → LineageEdge
edge_to dependency found = record {
  cell = dependency;
  origin = found.event.origin;
  landed_at = found.landed_at;
}

-- One edge for each dependency that the path holds.
unfoldable pub edges : Inner → ReadPath → List CellAt → Result (List LineageEdge)
edges store path [] = ok []
edges store path (dependency ∷ rest) =
    let later = edges store path rest in
    elim (get_cell store path dependency.cell dependency.version) [
      | err e ↦ err e
      | ok none ↦ later
      | ok (some found) ↦ later >>= λ from. ok (edge_to dependency found ∷ from)
    ]

error_of : Option Poisoning → Option String
error_of none = none
error_of (some p) = some p.error

unfoldable pub broken_by : Manager → Broken → BranchId → Option Derivation → Result (Option String)
unfolding error_of
broken_by m table branch none = ok none
broken_by m table branch (some by) =
    poisoning m table branch by.producer >>= λ found. ok (error_of found)

producer_of : Option Derivation → Option ProducerId
producer_of none = none
producer_of (some by) = some by.producer

fresh_or : LayerId → Option Derivation → LayerId
fresh_or landed_at none = landed_at
fresh_or landed_at (some by) = by.fresh_as_of

unfoldable pub lineage : CellAt → Landed → List LineageEdge → Option String → Lineage
unfolding fresh_or producer_of
lineage target found from broken = record {
  cell = target;
  produced_by = producer_of found.event.derivation;
  authored_at = found.event.authored;
  landed_at = found.landed_at;
  fresh_as_of = fresh_or found.landed_at found.event.derivation;
  from = from;
  broken = broken;
}

unfoldable pub explain_found :
    Manager
    → DependencyIndex
    → Broken
    → BranchId
    → ReadPath
    → CellAt
    → Option Landed
    → Result (Option Lineage)
unfolding broken_by
explain_found m index table branch path target none = ok none
explain_found m index table branch path target (some found) =
    edges m.store path (dependencies index branch target) >>= λ from.
    broken_by m table branch found.event.derivation >>= λ broken.
    ok (some (lineage target found from broken))

unfoldable pub explain :
    Manager
    → DependencyIndex
    → Broken
    → BranchId
    → CellRef
    → Option LayerId
    → LayerId
    → Result (Option Lineage)
unfolding explain_found
explain m index table branch cell layer version = read_path m branch layer >>= λ path.
    view_at m path version >>= λ defs.
    get_cell m.store path cell (version_of defs cell) >>= λ found.
    explain_found m index table branch path (record { cell = cell; version = version_of defs cell })
      found
