-- ===== src/Engine/Resolve/Validate.antt =====
-- resolve.rs: `Resolver::validate`, how far a derived value can claim to be correct.
pub mod Ends
pub mod Honest
use borg_core.Prelude.{
  ℕ, zero, suc, Bool, true, false, Option, none, some, List, [], ◌∷◌, ◌++◌, ltb, min, if◌then◌else◌,
  map, length, nat_eq,
}
use borg_core.Prelude.Map.{Map, get, insert}
use borg_core.Core.Ids.{LayerId, DefVersion, BranchId}
use borg_core.Core.Cell.{CellRef, CellAt, Landed, Derivation, reflects, cell_at_eq}
use borg_core.Core.Layer.{ReadPath}
use borg_core.Core.Error.{Result, ok, err, diverged, ◌>>=◌}
use borg_core.Storage.Memory.Index.{ReadIndex, History}
use borg_core.Storage.Memory.State.{Inner}
use borg_core.Storage.Memory.Provider.{get_cell}

-- The answer for each dependency, or `none` while it is being validated.
abbrev pub Composed : Type 0
Composed = Map CellAt (Option LayerId)

abbrev pub Validation : Type 0
Validation = Result (LayerId × Composed)

-- How to validate a dependency's own read set.
abbrev pub Nested : Type 0
Nested = List CellAt → LayerId → Composed → Validation

-- How far a derived dependency is good for.
bound_of : Nested → CellAt → Derivation → Composed → Option (Option LayerId) → Validation
bound_of nested dependency upstream composed (some (some known)) = ok (known, composed)
bound_of nested dependency upstream composed (some none) = ok (upstream.fresh_as_of, composed)
bound_of nested dependency upstream composed none =
    nested upstream.read_set upstream.fresh_as_of (insert composed dependency none) >>= λ r.
    ok (r.0, insert r.1 dependency (some r.0))

bound_behind : Nested → CellAt → Option Derivation → LayerId → Composed → Validation
unfolding bound_of
bound_behind nested dependency none mark composed = ok (mark, composed)
bound_behind nested dependency (some upstream) mark composed =
    bound_of nested dependency upstream composed (get composed dependency) >>= λ r.
    ok (min mark r.0, r.1)

-- The loop over a read set: the watermark falls to the least bound.
unfoldable pub over_reads :
    Nested → Inner → ReadPath → LayerId → List CellAt → LayerId → Composed → Validation
unfolding bound_behind
over_reads nested store path fresh [] mark composed = ok (mark, composed)
over_reads nested store path fresh (dependency ∷ reads) mark composed =
    elim (get_cell store path dependency.cell dependency.version) [
      | err e ↦ err e
      | ok none ↦ over_reads nested store path fresh reads mark composed
      | ok (some found) ↦ elim (ltb fresh (reflects found)) [
        | true ↦ ok (fresh, composed)
        | false ↦ bound_behind nested dependency found.event.derivation mark composed >>= λ r.
            over_reads nested store path fresh reads r.0 r.1
      ]
    ]

-- On fuel: each nested call comes after a dependency that no call is validating or has validated.
unfoldable pub validate :
    ℕ → Inner → ReadPath → LayerId → List CellAt → LayerId → Composed → Validation
validate zero store path target reads fresh composed =
    over_reads (λ _ _ _. err diverged) store path fresh reads target composed
validate (suc fuel) store path target reads fresh composed =
    over_reads (validate fuel store path target) store path fresh reads target composed

versions_in : CellRef → Map DefVersion History → List CellAt
versions_in cell versions = map (λ v. record { cell = cell; version = v.0 }) versions

cells_in : Map CellRef (Map DefVersion History) → List CellAt
unfolding versions_in
cells_in [] = []
cells_in ((cell, versions) ∷ cells) = versions_in cell versions ++ cells_in cells

-- Every record that the index knows, on any branch.
unfoldable pub records : ReadIndex → List CellAt
unfolding cells_in
records [] = []
records ((branch, cells) ∷ reads) = cells_in cells ++ records reads

-- One turn for each record is enough.
abbrev pub validated : Inner → ReadPath → List CellAt → LayerId → LayerId → Validation
validated store path reads fresh target =
    validate (length (records store.reads)) store path target reads fresh []
