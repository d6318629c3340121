-- ===== src/Engine/Resolve/Answer.antt =====
-- resolve.rs: reads with provenance.
pub mod Honest
use borg_core.Prelude.{
  ℕ, Bool, true, false, Option, none, some, List, [], ◌∷◌, ◌&&◌, not, any, map, leb, ◌==◌,
  if◌then◌else◌, unwrap_or,
}
use borg_core.Core.Ids.{BranchId, LayerId, DefVersion, ProducerId}
use borg_core.Core.Cell.{CellRef, CellAt, Landed, Event, Derivation, Origin}
use borg_core.Core.Value.{Value, is_tombstone}
use borg_core.Core.Layer.{ReadPath, ceiling}
use borg_core.Core.Freshness.{
  Freshness, FreshnessRequirement, Resolved, stale, unvalidated, broken, tombstoned,
}
use borg_core.Core.Error.{Result, ok, err, ◌>>=◌}
use borg_core.Engine.Log.{Manager, Managed, read_path, ◌then_do◌}
use borg_core.Engine.Defs.{DefView, version_of, find}
use borg_core.Engine.Defs.Paths.{path}
use borg_core.Engine.Defs.Registry.{view, view_at}
use borg_core.Engine.Poison.{Broken, Poisoning, poisoned, applies_to}
use borg_core.Engine.Resolve.Validate.{validated}
use borg_core.Storage.Memory.State.{Inner}
use borg_core.Storage.Memory.Provider.{get_cell, cell_versions, is_some}

-- Whether a poisoning applies to the producer as the branch has it now.
still_applies : ProducerId → Poisoning → DefView → Option Poisoning
still_applies producer p now = elim (find (λ d. d.id == producer) (map (λ e. e.1) now.producers)) [
  | none ↦ some p
  | some d ↦ if applies_to p d.version then some p else none
]

poisoning_found : Manager → BranchId → ProducerId → Option Poisoning → Result (Option Poisoning)
unfolding still_applies
poisoning_found m branch producer none = ok none
poisoning_found m branch producer (some p) =
    read_path m branch none >>= λ q. view m q >>= λ now. ok (still_applies producer p now)

unfoldable pub poisoning : Manager → Broken → BranchId → ProducerId → Result (Option Poisoning)
unfolding poisoning_found
poisoning m table branch producer =
    poisoning_found m branch producer (find (λ p. p.producer == producer) (poisoned table branch))

-- How far the stored value can claim to be correct: what is stored, or what validation says.
unfoldable pub state_of :
    FreshnessRequirement → Inner → ReadPath → Derivation → LayerId → Result (Freshness × LayerId)
state_of FreshnessRequirement.any store q by layer =
    ok (
      if leb layer by.fresh_as_of
      then (Freshness.current, layer)
      else (unvalidated, by.fresh_as_of))
state_of _ store q by layer = validated store q by.read_set by.fresh_as_of layer >>= λ r.
    ok (if leb layer r.0 then (Freshness.current, layer) else (stale, r.0))

live_value : Value → Option Value
live_value v = if is_tombstone v then none else some v

-- Source data is correct once it is written.
unfoldable pub source_answer : Landed → LayerId → Resolved
unfolding live_value
source_answer found layer = record {
  value = live_value found.event.value;
  origin = Origin.source;
  event = some found.event.id;
  authored_at = found.event.authored;
  landed_at = found.landed_at;
  fresh_as_of = layer;
  state = if is_tombstone found.event.value then tombstoned else Freshness.current;
  by = none;
}

-- A poisoned producer overrides what validation says, and a tombstone overrides both.
unfoldable pub final_state : Value → Option Poisoning → Freshness → Freshness
final_state v none validity = if is_tombstone v then tombstoned else validity
final_state v (some p) _ = if is_tombstone v then tombstoned else broken

unfoldable pub derived_answer :
    Landed → ProducerId → Option Poisoning → Freshness × LayerId → Resolved
unfolding live_value final_state
derived_answer found producer poison (state, fresh_as_of) = record {
  value = live_value found.event.value;
  origin = Origin.derived;
  event = some found.event.id;
  authored_at = found.event.authored;
  landed_at = found.landed_at;
  fresh_as_of = fresh_as_of;
  state = final_state found.event.value poison state;
  by = some producer;
}

-- Nothing is stored at the version that the reader means.
unmaterialized_state : List DefVersion → Bool → Freshness
unmaterialized_state [] reachable = Freshness.current
unmaterialized_state (v ∷ available) reachable = if reachable then stale else broken

unfoldable pub resolve_unmaterialized : Manager → ReadPath → CellRef → DefVersion → Result Resolved
unfolding unmaterialized_state
resolve_unmaterialized m q cell version = view m q >>= λ defs.
    let available = cell_versions m.store q cell in
    let leads = λ (v : DefVersion). is_some (path defs cell.buffer v version) in
    ok (record {
      value = none;
      origin = Origin.derived;
      event = none;
      authored_at = 0;
      landed_at = 0;
      fresh_as_of = 0;
      state = unmaterialized_state available (any leads available);
      by = none;
    })

unfoldable pub answer_by :
    Manager
    → Broken
    → BranchId
    → FreshnessRequirement
    → ReadPath
    → LayerId
    → Landed
    → Option Derivation
    → Result Resolved
answer_by m table branch requirement q layer found none = ok (source_answer found layer)
answer_by m table branch requirement q layer found (some by) =
    state_of requirement m.store q by layer >>= λ state.
    poisoning m table branch by.producer >>= λ poison.
    ok (derived_answer found by.producer poison state)

unfoldable pub answer_found :
    Manager
    → Broken
    → BranchId
    → FreshnessRequirement
    → ReadPath
    → LayerId
    → CellRef
    → DefVersion
    → Option Landed
    → Result Resolved
unfolding answer_by
answer_found m table branch requirement q layer cell at none = resolve_unmaterialized m q cell at
answer_found m table branch requirement q layer cell at (some found) =
    answer_by m table branch requirement q layer found found.event.derivation

-- The read itself, from the path on.
unfoldable pub answer :
    Manager
    → Broken
    → BranchId
    → CellRef
    → Option LayerId
    → DefVersion
    → FreshnessRequirement
    → Result Resolved
unfolding answer_found
answer m table branch cell layer at requirement = read_path m branch layer >>= λ q.
    get_cell m.store q cell at >>= λ found.
    answer_found m table branch requirement q (unwrap_or layer (ceiling q)) cell at found

settled_by_record : Inner → ReadPath → LayerId → Option Landed → Result Bool
settled_by_record store q layer none = ok false
settled_by_record store q layer (some found) = elim found.event.derivation [
  | none ↦ ok true
  | some by ↦ validated store q by.read_set by.fresh_as_of layer >>= λ r. ok (leb layer r.0)
]

unfoldable pub settled_here :
    Manager → BranchId → CellRef → DefVersion → Option LayerId → Result Bool
unfolding settled_by_record
settled_here m branch cell at layer = read_path m branch layer >>= λ q.
    get_cell m.store q cell at >>= λ found.
    settled_by_record m.store q (unwrap_or layer (ceiling q)) found

-- A read below the head is history, which no computation can change.
unfoldable pub can_compute_at : Manager → BranchId → Option LayerId → Result Bool
can_compute_at m branch none = ok true
can_compute_at m branch (some requested) =
    read_path m branch none >>= λ q. ok (leb (ceiling q) requested)

-- `InlineDerivation::compute_now`, an interface of this module: it may commit layers and poison
-- producers, so it returns the table of poisonings.
abbrev pub ComputeNow : Type 0
ComputeNow = Manager → Broken → BranchId → CellRef → DefVersion → Managed Broken

unless_settled : Bool → Result Bool → Result Bool
unless_settled false settled = ok false
unless_settled true (err e) = err e
unless_settled true (ok settled) = ok (not settled)

needs_computing :
    FreshnessRequirement → Manager → BranchId → CellRef → DefVersion → Option LayerId → Result Bool
needs_computing FreshnessRequirement.current m branch cell at layer =
    can_compute_at m branch layer >>= λ can.
    unless_settled can (settled_here m branch cell at layer)
needs_computing _ m branch cell at layer = ok false

computed :
    ComputeNow → Manager → Broken → BranchId → CellRef → DefVersion → Result Bool → Managed Broken
computed compute_now m table branch cell at (err e) = (err e, m)
computed compute_now m table branch cell at (ok false) = (ok table, m)
computed compute_now m table branch cell at (ok true) = compute_now m table branch cell at

resolve_at :
    ComputeNow
    → Manager
    → Broken
    → BranchId
    → CellRef
    → Option LayerId
    → FreshnessRequirement
    → Result DefVersion
    → Managed Resolved
unfolding computed needs_computing unless_settled
resolve_at compute_now m table branch cell layer requirement (err e) = (err e, m)
resolve_at compute_now m table branch cell layer requirement (ok at) =
    computed compute_now m table branch cell at (needs_computing requirement m branch cell at layer)
    then_do λ table1 m1. (answer m1 table1 branch cell layer at requirement, m1)

-- `Resolver::resolve`: the version that the reader means is the one its own view gives the cell.
unfoldable pub resolve :
    ComputeNow
    → Manager
    → Broken
    → BranchId
    → CellRef
    → Option LayerId
    → LayerId
    → FreshnessRequirement
    → Managed Resolved
unfolding resolve_at
resolve compute_now m table branch cell layer version requirement =
    resolve_at compute_now m table branch cell layer requirement
      (read_path m branch layer >>= λ q. view_at m q version >>= λ defs. ok (version_of defs cell))
