-- ===== src/Storage/Tests.antt =====
-- One layer through the store: opened, written, sealed and committed.
use borg_core.Prelude.{◌≡◌, true, Option, none, some, [], ◌∷◌, refl, arith, nat_eq, ℕ_discrete}
use borg_core.Prelude.Map.{get, insert}
use borg_core.Prelude.Unique.{IsUnique}
use borg_core.Core.Cell.{CellRef, EventDraft, Landed, prop, Origin.source}
use borg_core.Core.Pid.{Pid, allocated, PidKind.object}
use borg_core.Core.Value.{Value.int, pos}
use borg_core.Core.Layer.{ReadPath}
use borg_core.Core.Error.{ok}
use borg_core.Storage.Memory.Index.{History, newest_at}
use borg_core.Storage.Memory.Index.Newest.{IsNewest, Within, newest_at-IsNewest}
use borg_core.Storage.Memory.State.{Inner, StagedLayer, new}
use borg_core.Storage.Memory.OpenLayer.{author_event, seal, staged, with_staged, event_from}
use borg_core.Storage.Memory.Provider.{open_layer, commit_layer, get_cell, rebuild_read_index}
use borg_core.Storage.Memory.Rebuild.{
  IsIndexed, rebuild_read_index-IsIndexed, get_cell-rebuild_read_index,
}
use borg_core.Storage.Memory.Reading.{Resolves, get_cell-Resolves}
use borg_core.Storage.Memory.Sound.{IsSound}
use borg_core.Storage.Memory.Sound.Committing.{commit_layer_sealed}
use borg_core.Storage.Memory.Sound.Invisible.{Filling, get_cell-Filling}
use borg_core.Storage.Memory.Sound.Reachable.{
  Staging, Step, Reach, here, next, Reach-IsSound, new-IsSound, Step-IsSound,
  reachable_get_cell-rebuild_read_index,
}

abbrev alice : Pid
alice = allocated object 1 0 7

abbrev age : CellRef
age = prop "Person" "age" alice

abbrev draft : EventDraft
draft = record { value = int (pos 41); version = 0; origin = source; derivation = none }

abbrev opened : Inner
opened = (open_layer new 1 5).1

abbrev written : Inner
written = (author_event opened 5 age draft).1

abbrev sealed : Inner
sealed = (seal written 5).1

abbrev committed : Inner
committed = (commit_layer sealed 5).1

abbrev path : ReadPath
path = record { segments = (1, 9) ∷ [] }

reached_sealed : Reach new sealed
unfolding open_layer get
reached_sealed =
    next
      (next (next here (Step.staging (Staging.opened 1 5 refl)))
        (Step.staging (Staging.authored 5 age draft (omega arith) refl)))
      (Step.staging (Staging.sealed 5 refl))

reached_committed : Reach new committed
reached_committed = next reached_sealed (Step.committed 5 refl)

sealed-IsSound : IsSound sealed
sealed-IsSound = Reach-IsSound new-IsSound reached_sealed

committed-IsSound : IsSound committed
committed-IsSound = Reach-IsSound new-IsSound reached_committed

abbrev staged_layer : StagedLayer
staged_layer = record {
  branch = 1;
  members = 1 ∷ [];
  authored = event_from 1 5 age draft ∷ [];
  defs = [];
  sealed = true;
}

sealed_staged : get sealed.staged 5 ≡ some staged_layer
unfolding open_layer author_event with_staged seal get insert staged ℕ_discrete
sealed_staged = refl

reachable_rebuild_example :
    get_cell (rebuild_read_index committed).1 path age 0 ≡ get_cell committed path age 0
reachable_rebuild_example = reachable_get_cell-rebuild_read_index path age 0 reached_committed

staging_example : get_cell written path age 0 ≡ get_cell opened path age 0
unfolding open_layer get
staging_example = get_cell-Filling path age 0 (Filling.authored 5 age draft refl)

commit_example :
    (inner' : Inner) × (commit_layer sealed 5 ≡ (ok tt, inner'))
    × IsSound inner'
    × (get inner'.members 5 ≡ some (record { branch = 1; events = 1 ∷ [] }))
commit_example = commit_layer_sealed sealed 5 staged_layer sealed-IsSound sealed_staged refl

Resolves-example :
    (o : Option Landed) × (get_cell committed path age 0 ≡ ok o)
    × Resolves committed age 0 path.segments o
Resolves-example = get_cell-Resolves committed path age 0 committed-IsSound

step_example : IsSound (commit_layer sealed 5).1
step_example = Step-IsSound (Step.committed 5 refl) sealed-IsSound

rebuild_example :
    (inner' : Inner) × (rebuild_read_index committed ≡ (ok tt, inner'))
    × (inner' ≡ record committed { reads = inner'.reads })
    × IsIndexed inner'
rebuild_example = rebuild_read_index-IsIndexed committed committed-IsSound.indexed.known

unindexed_example :
    get_cell (rebuild_read_index committed).1 path age 0 ≡ get_cell committed path age 0
unindexed_example = get_cell-rebuild_read_index committed path age 0 committed-IsSound.indexed

abbrev history : History
history = (5, 1) ∷ (3, 2) ∷ (8, 3) ∷ []

history-IsUnique : IsUnique history
unfolding get ℕ_discrete
history-IsUnique = (refl, (refl, (refl, tt)))

newest_example : IsNewest (newest_at history 7) (Within history 7)
newest_example = newest_at-IsNewest history 7 history-IsUnique

newest_test : newest_at history 7 ≡ some (5, 1)
unfolding newest_at
newest_test = refl
