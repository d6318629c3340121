-- ===== src/Engine/Defs/Paths.antt =====
-- defs.rs: the migrations that lead from one version of a field to another.
pub mod Walk
pub mod Backward
pub mod Route
use borg_core.Prelude.{
  ℕ, Bool, true, false, Option, none, some, List, [], ◌∷◌, ◌&&◌, ◌==◌, if◌then◌else◌, ltb, leb, map,
  keep,
}
use borg_core.Prelude.Map.{get}
use borg_core.Core.Ids.{DefVersion}
use borg_core.Core.Cell.{BufferId, FieldName, ObjectTypeName, object_prop}
use borg_core.Core.Def.{MigrationDirection}
use borg_core.Core.Def.MigrationDirection.{up, down}
use borg_core.Engine.Defs.{VersionStep, MigrationHop, DefView, key_of, field_key_eq}
use mathlib.Core.List.{reverse}

unfoldable pub hop_up : VersionStep → MigrationHop
hop_up step = record { producer = step.carries_up; direction = up; from = step.from; to = step.to }

unfoldable pub hops_up : DefVersion → DefVersion → List VersionStep → List MigrationHop
hops_up from to chain = map hop_up (keep (λ s. leb from s.from && leb s.to to) chain)

hop_down : VersionStep → Option MigrationHop
hop_down step = elim step.carries_down [
  | none ↦ none
  | some p ↦ some (record { producer = p; direction = down; from = step.to; to = step.from })
]

-- The loop of the way down, which `step.down?` leaves.
unfoldable pub collect_down : List VersionStep → Option (List MigrationHop)
unfolding hop_down
collect_down [] = some []
collect_down (s ∷ steps) = elim (hop_down s) [
  | none ↦ none
  | some hop ↦ elim (collect_down steps) [ none ↦ none | some hops ↦ some (hop ∷ hops) ]
]

unfoldable pub hops_down : DefVersion → DefVersion → List VersionStep → Option (List MigrationHop)
hops_down from to chain = collect_down (keep (λ s. leb s.to from && leb to s.from) (reverse chain))

walk : DefVersion → DefVersion → Option (List VersionStep) → Option (List MigrationHop)
walk from to none = none
walk from to (some chain) =
    if ltb from to then some (hops_up from to chain) else hops_down from to chain

path_on : DefView → BufferId → DefVersion → DefVersion → Option (List MigrationHop)
unfolding walk
path_on view (object_prop s f) from to = walk from to (get view.chains (key_of s f))
path_on view _ from to = none

-- `from == to` needs no step, whatever the buffer.
unfoldable pub path : DefView → BufferId → DefVersion → DefVersion → Option (List MigrationHop)
unfolding path_on
path view buffer from to = if from == to then some [] else path_on view buffer from to
