-- ===== src/Engine/Tests/Trees.antt =====
-- Forks, merges, dependencies and poisonings, on the same log.
use borg_core.Prelude.{
  ℕ, ◌+◌, ◌≤◌, ◌<◌, ◌≡◌, ◌≢◌, ◌⊎◌, ◌↔◌, inl, inr, Bool, true, false, Option, none, some, List, [],
  ◌∷◌,
}
use borg_core.Prelude.{refl, arith, In, All, nat_eq, ℕ_discrete, ◌≟◌}
use borg_core.Prelude.Map.{get, insert}
use borg_core.Core.Ids.{BranchId, LayerId}
use borg_core.Core.Cell.{CellRef, CellAt}
use borg_core.Core.Layer.{Layer, Branch, ReadPath, LayerAuthor, MergeMode, def_and_data}
use borg_core.Core.Transaction
use borg_core.Core.Round
use borg_core.Core.Round.Cascade.{Tainted}
use borg_core.Core.Error.{ok, err, merge_rejected, guard_conflict}
use borg_core.Engine.Touch
use borg_core.Engine.Touch.Lookup.{TouchedOn}
use borg_core.Engine.Touch.Moved.{history-apply}
use borg_core.Engine.Log.{Manager, forks_at, read_path}
use borg_core.Engine.Branch.Tree.{Branches, fork}
use borg_core.Engine.Branch.Tree.Forks.{IsAllotted, fork-IsAllotted}
use borg_core.Engine.Branch.Replay.{merge_transaction, replayable_layers}
use borg_core.Engine.Branch.Replay.Conflicts.{merge_transaction-conflict}
use borg_core.Engine.Branch.Rounds.{stale, violations, grouped}
use borg_core.Engine.Branch.Rounds.Skipped.{stale-violations}
use borg_core.Engine.Branch.Rounds.Carried.{InGroup, author, grouped-Untainted}
use borg_core.Engine.Index.{Invocation, DependencyIndex, record_run, forget_producer, cell_on_eq}
use borg_core.Engine.Index.Forgotten.{forget_producer-subscribed}
use borg_core.Prelude.Unique.{IsUnique}
use borg_core.Prelude.{not, ◌&&◌, ◌==◌}
use borg_core.Engine.Branch.Replay.Replayed.{IsReplayed, Ascends, replayable_layers-IsReplayed}
use borg_core.Engine.Index
use borg_core.Engine.Index.Edges.{subscribed}
use borg_core.Engine.Poison.{Poisoning, poisoned, poison}
use borg_core.Engine.Poison.Records.{IsKept, poisoned-poison}
use borg_core.Engine.Tests.{
  alice, name, title, layer_4, event, touches, touches-IsCovered, touches-IsSettled, path,
}
use borg_core.Engine.Tests.Logs.{log, log-IsForest}

abbrev at : CellRef → CellAt
at cell = record { cell = cell; version = 0 }

-- Forked before layer 4, and after it.
abbrev early : Transaction.Transaction
early = record { branch = 2; parent = 1; fork_point = 2; reads = at name ∷ []; writes = [] }

abbrev late : Transaction.Transaction
late = record { branch = 2; parent = 1; fork_point = 4; reads = at name ∷ []; writes = [] }

log-path : read_path log 1 none ≡ ok path
unfolding read_path borg_core.Engine.Log.segments_from forks_at get ℕ_discrete
log-path = refl

name-touched : TouchedOn touches path.segments name 2 4
name-touched = record {
  branch = 1;
  bound = 4;
  on_path = inl refl;
  written =
      (history-apply Touch.empty layer_4 (event ∷ []) 1 4 name).1
        (inr (refl, refl, refl, inl refl));
  after = omega arith;
  visible = omega arith;
}

in_guards : In name (Transaction.guards early)
unfolding Transaction.guards borg_core.Prelude.add
in_guards = inl refl

conflict_example :
    (d : CellRef) × In d (Transaction.guards early)
    × (merge_transaction log early def_and_data ≡ (err (merge_rejected (guard_conflict d)), log))
conflict_example =
    merge_transaction-conflict log early def_and_data path name 4 log-path in_guards name-touched

late_merges : (merge_transaction log late def_and_data).0 ≡ ok []
unfolding merge_transaction borg_core.Engine.Branch.Replay.replay
    borg_core.Engine.Branch.Replay.checked borg_core.Engine.Branch.Replay.rejecting
    borg_core.Engine.Log.check_reads read_path borg_core.Engine.Log.segments_from forks_at get
    ℕ_discrete borg_core.Engine.Log.check_touched Touch.first_touched_since Transaction.guards
    borg_core.Prelude.add Touch.lookup Touch.lookup_from Touch.earliest_in Touch.history Touch.apply
    Touch.record_touches Touch.touch_cell Touch.touch_cells insert
    borg_core.Core.Cell.BufferId-discrete borg_core.Core.Cell.CellRef-discrete
    borg_core.Core.Pid.Pid-discrete borg_core.Core.Pid.PidKind-discrete
    borg_core.Prelude.string_discrete borg_core.Engine.Branch.Replay.validate
    borg_core.Engine.Branch.Replay.replayable_layers borg_core.Engine.Log.layers_of
    borg_core.Engine.Log.sort_by_id borg_core.Core.Layer.LayerState-discrete
    borg_core.Engine.Branch.Replay.replay_all
late_merges = refl

abbrev round : Round.Round
round = record {
  branch = 2;
  parent = 1;
  fork_point = 4;
  invocations =
      (5, record { reads = at name ∷ []; writes = at title ∷ [] })
      ∷ (6, record { reads = at title ∷ []; writes = [] })
      ∷ [];
}

stale_example : stale log round ≡ ok (violations log 1 4 (Round.guards round))
stale_example = stale-violations log round path log-path touches-IsCovered touches-IsSettled

carried_example :
    (dropped : List LayerId) × (Round.cascade round (5 ∷ []) ≡ some dropped)
    × ((a : LayerAuthor) (l : LayerId)
        → InGroup (grouped (0, []) log dropped (Round.layers round)).1 a l ↔ (
            In l (Round.layers round)
            × ¬ Tainted round.invocations (5 ∷ []) l
            × (a ≡ author log l)))
carried_example = grouped-Untainted log round (5 ∷ [])

abbrev tree : Branches
tree = record { log = log; next_id = 2 }

tree-IsAllotted : IsAllotted tree
unfolding get
tree-IsAllotted = record {
  forest = log-IsForest;
  rows = λ b r e. elim (1 ≟ b) [ yes p ↦ ground (arith, p) | no n ↦ ground (arith, n, e) ];
  heads = λ b h e. elim (1 ≟ b) [ yes p ↦ ground (arith, p) | no n ↦ ground (arith, n, e) ];
  layers = λ id l e. elim (4 ≟ id) [ yes p ↦ ground (arith, p, e) | no n ↦ ground (arith, n, e) ];
  room = omega arith;
}

found_4 : get log.layers 4 ≡ some layer_4
unfolding get ℕ_discrete
found_4 = refl

fork_example :
    (t : Branches) × (fork tree 1 4 none ≡ (ok 2, t))
    × (get log.branches 2 ≡ none)
    × (forks_at t.log 2 ≡ some (4, 1))
    × IsAllotted t
fork_example = fork-IsAllotted tree 1 4 none layer_4 tree-IsAllotted found_4 refl (omega arith)

abbrev run : Invocation
run = record { producer = 3; input = alice }

abbrev one : BranchId
one = 1

abbrev failure : Poisoning
failure = record { producer = 3; version = 2; error = "boom"; since = 4 }

none-IsKept : IsKept []
unfolding get
none-IsKept = record { unique = tt; named = λ k r e. cc }

poison_example : In failure (poisoned (poison [] 1 failure) 1) ↔ (
    ((one ≡ 1) × (failure ≡ failure))
    ⊎ (In failure (poisoned [] 1) × ¬ ((one ≡ 1) × (failure.producer ≡ failure.producer))))
poison_example = poisoned-poison [] 1 1 failure failure none-IsKept

abbrev recorded : DependencyIndex
recorded = record_run Index.empty 1 run (at name ∷ []) (at title ∷ [])

recorded-IsUnique : IsUnique recorded.dependents
unfolding record_run get insert borg_core.Engine.Index.subscribe borg_core.Engine.Index.retract
    borg_core.Prelude.add
recorded-IsUnique = (refl, tt)

forgotten_example :
    subscribed (forget_producer recorded 2 3).dependents (record { branch = 1; cell = at name }) run
    ≡ (subscribed recorded.dependents (record { branch = 1; cell = at name }) run && not (3 == 3))
forgotten_example = forget_producer-subscribed recorded 2 1 3 (at name) run recorded-IsUnique

IsReplayed-example :
    ((id : LayerId)
      → In id (replayable_layers log 1 def_and_data)
        ↔ ((l : Layer) × IsReplayed log 1 def_and_data l × (id ≡ l.id)))
    × Ascends (replayable_layers log 1 def_and_data)
IsReplayed-example = replayable_layers-IsReplayed log 1 def_and_data
