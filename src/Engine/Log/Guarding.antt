-- ===== src/Engine/Log/Guarding.antt =====
-- log.rs: guards, which are validated at seal and again at a merge.
use borg_core.Prelude.{
  Bool, true, false, Option, none, some, List, [], ◌∷◌, unwrap_or, if◌then◌else◌,
}
use borg_core.Core.Ids.{BranchId, LayerId, DefVersion}
use borg_core.Core.Cell.{CellRef, Landed, Origin, source, derived}
use borg_core.Core.Layer.{Guard, ReadPath}
use borg_core.Core.Error.{Result, ok, err, guard_violated, guard_on_derived_cell, ◌>>=◌, ◌>>◌}
use borg_core.Engine.Touch.{first_touched_since, moved_since}
use borg_core.Engine.Log.State.{Manager}
use borg_core.Engine.Log.Reading.{read_path}
use borg_core.Storage.Memory.State.{Inner}
use borg_core.Storage.Memory.Provider.{cell_versions, get_cell}

violation : LayerId → Option (CellRef × LayerId) → Result (Unit {0})
violation since none = ok tt
violation since (some found) = err (guard_violated found.0 since found.1)

-- Has anything touched these cells since that layer?
unfoldable pub check_touched : Manager → ReadPath → List CellRef → LayerId → Result (Unit {0})
unfolding violation
check_touched m path cells since = violation since (first_touched_since m.touches path cells since)

unfoldable pub origin_derived : Origin → Bool
origin_derived source = false
origin_derived derived = true

unfoldable pub landed_derived : Option Landed → Bool
unfolding origin_derived
landed_derived none = false
landed_derived (some found) = origin_derived found.event.origin

-- The loop over the versions: the first that is derived ends it, and so does a failed read.
unfoldable pub derived_at : Inner → ReadPath → CellRef → List DefVersion → Result Bool
derived_at store path cell [] = ok false
derived_at store path cell (version ∷ rest) =
    let later = derived_at store path cell rest in
    get_cell store path cell version >>= λ found. if landed_derived found then ok true else later

unfoldable pub is_derived_anywhere : Manager → ReadPath → CellRef → Result Bool
is_derived_anywhere m path cell = derived_at m.store path cell (cell_versions m.store path cell)

unfoldable pub refuse_derived : Manager → ReadPath → List CellRef → Result (Unit {0})
refuse_derived m path [] = ok tt
refuse_derived m path (cell ∷ rest) =
    let later = refuse_derived m path rest in
    is_derived_anywhere m path cell >>= λ is_derived.
    if is_derived then err (guard_on_derived_cell cell) else later

unfoldable pub check_each : Manager → ReadPath → List Guard → Option LayerId → Result (Unit {0})
check_each m path [] since = ok tt
check_each m path (guard ∷ rest) since =
    let later = check_each m path rest since in
    refuse_derived m path guard.cells
    >> check_touched m path guard.cells (unwrap_or since guard.since)
    >> later

-- At seal each guard has its own layer; at a merge all have the fork point.
unfoldable pub check_guards : Manager → BranchId → List Guard → Option LayerId → Result (Unit {0})
check_guards m branch [] since = ok tt
check_guards m branch (guard ∷ rest) since =
    read_path m branch none >>= λ path. check_each m path (guard ∷ rest) since

-- An automatic guard set: a transaction's reads, or an invocation's.
unfoldable pub check_reads : Manager → BranchId → List CellRef → LayerId → Result (Unit {0})
check_reads m branch cells since =
    read_path m branch none >>= λ path. check_touched m path cells since

unfoldable pub touched_since : Manager → BranchId → LayerId → Result Bool
touched_since m branch since =
    read_path m branch none >>= λ path. ok (moved_since m.touches path since)
