-- ===== src/Engine/Tests.antt =====
-- The touch index of a small log.
mod Logs
mod Trees
mod Schemas
mod Sessions
mod Reads
use borg_core.Prelude.{
  ℕ, ◌+◌, ◌≤◌, ◌<◌, ◌≡◌, ◌≢◌, ◌⊎◌, ◌↔◌, inl, inr, Bool, true, false, Option, none, some, List, [],
  ◌∷◌,
}
use borg_core.Prelude.{refl, arith, In, All, nat_eq, ℕ_discrete, String}
use borg_core.Prelude.Map.{get, insert}
use borg_core.Core.Ids.{BranchId, LayerId}
use borg_core.Core.Cell.{CellRef, CellAt, Event, prop, Origin.source}
use borg_core.Core.Pid.{Pid, allocated, PidKind.object}
use borg_core.Core.Value.{Value, Value.int, pos}
use borg_core.Core.Layer.{
  Layer, Branch, ReadPath, Guard, LayerAuthor, LayerAuthor.source, LayerAuthor.derived, MergeMode,
}
use borg_core.Core.Layer.{open', committed, value, def_and_data, is_source}
use borg_core.Core.Transaction
use borg_core.Core.Round
use borg_core.Core.Round.Cascade.{Tainted}
use borg_core.Core.Error.{Result, ok, err, guard_violated, merge_rejected, guard_conflict}
use borg_core.Engine.Touch
use borg_core.Engine.Touch.{Touches, history, lookup, first_touched_since, moved_since}
use borg_core.Engine.Touch.Lookup.{
  TouchedOn, IsLeast, Untouched, FirstTouched, lookup-IsLeast, first_touched_since-FirstTouched,
}
use borg_core.Engine.Touch.Moved.{written, history-apply}
use borg_core.Engine.Touch.Quiet.{
  IsCovered, IsCovered-empty, IsSettled, apply-IsCovered, first_touched_since-moved_since,
}

abbrev alice : Pid
alice = allocated object 1 0 7

abbrev name : CellRef
name = prop "Person" "name" alice

abbrev title : CellRef
title = prop "Person" "title" alice

abbrev layer_4 : Layer
layer_4 = record {
  id = 4;
  branch = 1;
  kind = value;
  author = source;
  state = committed;
  parent = none;
  guards = [];
}

abbrev event : Event
event = record {
  id = 1;
  cell = name;
  value = int (pos 3);
  version = 0;
  origin = source;
  derivation = none;
  authored = 4;
}

abbrev touches : Touches
touches = Touch.apply Touch.empty layer_4 (event ∷ [])

touches-IsCovered : IsCovered touches
touches-IsCovered = apply-IsCovered Touch.empty layer_4 (event ∷ []) IsCovered-empty

abbrev path : ReadPath
path = record { segments = (1, 4) ∷ [] }

lookup_example : IsLeast (lookup touches path name 2) (TouchedOn touches path.segments name 2)
lookup_example = lookup-IsLeast touches path name 2

FirstTouched-example :
    FirstTouched touches path 2
      (title ∷ name ∷ [])
      (first_touched_since touches path (title ∷ name ∷ []) 2)
FirstTouched-example = first_touched_since-FirstTouched touches path (title ∷ name ∷ []) 2

history_example : In 4 (history touches 1 name) ↔ (
    In 4 (history Touch.empty 1 name)
    ⊎ ((is_source layer_4.author ≡ true)
        × (1 ≡ layer_4.branch)
        × (4 ≡ layer_4.id)
        × In name (written (event ∷ []))))
history_example = history-apply Touch.empty layer_4 (event ∷ []) 1 4 name

covered_example : IsCovered (Touch.apply touches layer_4 [])
covered_example = apply-IsCovered touches layer_4 [] touches-IsCovered

touches-IsSettled : All (IsSettled touches 4) path.segments
touches-IsSettled = (λ h e. inr (omega arith), tt)

quiet_example : first_touched_since touches path (title ∷ name ∷ []) 4 ≡ none
unfolding moved_since get Touch.apply Touch.record_touches insert ℕ_discrete
quiet_example =
    first_touched_since-moved_since touches path 4 (title ∷ name ∷ []) touches-IsCovered
      touches-IsSettled refl
