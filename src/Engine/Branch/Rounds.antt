-- ===== src/Engine/Branch/Rounds.antt =====
-- branch.rs: `merge_round` lands the invocations of a round whose guards held.
pub mod Skipped
pub mod Carried
use borg_core.Prelude.{
  ℕ, suc, ◌-◌, Bool, true, false, Option, none, some, List, [], ◌∷◌, ◌++◌, ◌&&◌, not, map, push,
  length,
}
use borg_core.Prelude.{contains, add, if◌then◌else◌, ltb, nat_eq, same, unwrap_or}
use borg_core.Prelude.Map.{Map}
use borg_core.Core.Ids.{BranchId, LayerId, EventId}
use borg_core.Core.Cell.{CellRef, Event, existence_of, cell_eq}
use borg_core.Core.Value.{is_tombstone}
use borg_core.Core.Layer.{Layer, LayerAuthor, is_source, source, value, layer_author_eq}
use borg_core.Core.Round
use borg_core.Core.Error.{Result, ok, err, BorgError, guard_violated, diverged, ◌>>=◌}
use borg_core.Engine.Log.{
  Manager, Managed, LayerHandle, layers_of, check_reads, touched_since, author_of, open_handle,
  commit, abort_layer, ◌then_do◌,
}
use borg_core.Engine.Branch.Replay.{include_all}
use borg_core.Storage.Memory.Provider.{read_layer, read_membership, sort_ids}

pub record RoundOutcome : Type 0 where
  pub executed : ℕ
  pub landed : List LayerId
  pub applied : ℕ
  pub rejected : List (LayerId × CellRef)
  pub cascaded : ℕ

abbrev pub no_outcome : RoundOutcome
no_outcome = record { executed = 0; landed = []; applied = 0; rejected = []; cascaded = 0 }

violated : LayerId → Result (Unit {0}) → List (LayerId × CellRef)
violated layer (err (guard_violated cell since mutated_at)) = (layer, cell) ∷ []
violated layer _ = []

-- The invocations whose guards fail against the parent, and the cell that moved.
unfoldable pub violations :
    Manager → BranchId → LayerId → List (LayerId × List CellRef) → List (LayerId × CellRef)
unfolding violated
violations m parent fork_point [] = []
violations m parent fork_point ((layer, cells) ∷ rest) =
    violated layer (check_reads m parent cells fork_point) ++ violations m parent fork_point rest

-- Nothing written to the parent since the fork: no guard can have failed.
unfoldable pub stale : Manager → Round.Round → Result (List (LayerId × CellRef))
stale m round = touched_since m round.parent round.fork_point >>= λ touched.
    ok (if touched then violations m round.parent round.fork_point (Round.guards round) else [])

unfoldable pub deletes : Event → Bool
deletes event = is_tombstone event.value && same (existence_of event.cell) event.cell

deletions : List CellRef → List (Result Event) → Result (List CellRef)
deletions deleted [] = ok deleted
deletions deleted (row ∷ rows) =
    row >>= λ event. deletions (if deletes event then add deleted event.cell else deleted) rows

deleted_by : List CellRef → Manager → LayerId → List Layer → Result (List CellRef)
unfolding deletions
deleted_by deleted m fork_point [] = ok deleted
deleted_by deleted m fork_point (l ∷ ls) =
    (if ltb fork_point l.id && is_source l.author
      then deletions deleted (read_layer m.store l.id)
      else ok deleted)
    >>= λ deleted'. deleted_by deleted' m fork_point ls

-- Existence cells that the parent has tombstoned since the fork point.
unfoldable pub deleted_since : Manager → BranchId → LayerId → Result (List CellRef)
unfolding deleted_by
deleted_since m parent fork_point = deleted_by [] m fork_point (layers_of m parent)

-- The first row at a cell of a deleted object ends the stream.
first_dangling : List CellRef → List (Result Event) → Result (Option CellRef)
first_dangling deleted [] = ok none
first_dangling deleted (row ∷ rows) =
    let later = first_dangling deleted rows in
    row >>= λ event.
    let cell = existence_of event.cell in if contains deleted cell then ok (some cell) else later

also_rejected : List (LayerId × CellRef) → LayerId → Option CellRef → List (LayerId × CellRef)
also_rejected rejected layer none = rejected
also_rejected rejected layer (some cell) = push rejected (layer, cell)

abbrev pub layers_rejected : List (LayerId × CellRef) → List LayerId
layers_rejected rejected = map (λ r. r.0) rejected

dangling :
    List (LayerId × CellRef)
    → Manager
    → List CellRef
    → List LayerId
    → Result (List (LayerId × CellRef))
unfolding first_dangling also_rejected
dangling rejected m deleted [] = ok rejected
dangling rejected m deleted (layer ∷ rest) =
    (if contains (layers_rejected rejected) layer
      then ok none
      else first_dangling deleted (read_layer m.store layer))
    >>= λ found. dangling (also_rejected rejected layer found) m deleted rest

unfoldable pub is_empty_list : {A : Type 0} → List A → Bool
is_empty_list [] = true
is_empty_list (x ∷ xs) = false

-- Every invocation that is rejected: by its guards, and then by a deletion.
unfoldable pub rejections : Manager → Round.Round → Result (List (LayerId × CellRef))
unfolding dangling
rejections m round = stale m round >>= λ rejected.
    deleted_since m round.parent round.fork_point >>= λ deleted.
    if is_empty_list deleted then ok rejected else dangling rejected m deleted (Round.layers round)

abbrev pub Groups : Type 0
Groups = List (LayerAuthor × List LayerId)

unfoldable pub join_group : Groups → LayerAuthor → LayerId → Groups
join_group [] author layer = (author, layer ∷ []) ∷ []
join_group ((seen, group) ∷ rest) author layer =
    let later = join_group rest author layer in
    if same seen author then (seen, push group layer) ∷ rest else (seen, group) ∷ later

-- The layers that are not dropped, by producer; how many there are.
unfoldable pub grouped : ℕ × Groups → Manager → List LayerId → List LayerId → ℕ × Groups
grouped found m dropped [] = found
grouped found m dropped (layer ∷ rest) =
    grouped
      (if contains dropped layer
        then found
        else (suc found.0, join_group found.1 (unwrap_or (author_of m layer) source) layer))
      m dropped rest

unfoldable pub carried : Manager → List LayerId → List EventId
carried m [] = []
carried m (layer ∷ rest) = read_membership m.store layer ++ carried m rest

pushed : Option LayerId → List LayerId → List LayerId
pushed none ids = ids
pushed (some id) ids = id ∷ ids

-- One producer's layer on the parent. A group that names no event is aborted.
unfoldable pub land_group :
    Manager → BranchId → LayerAuthor → List LayerId → Managed (Option LayerId)
land_group m parent author layers = open_handle m parent value author then_do λ handle m1.
    let events = carried m1 layers in
    include_all m1 handle events then_do λ _ m2.
    if is_empty_list events
    then (abort_layer m2 handle then_do λ _ m3. (ok none, m3))
    else (commit m2 handle then_do λ id m3. (ok (some id), m3))

unfoldable pub land_groups : Manager → BranchId → Groups → Managed (List LayerId)
unfolding pushed
land_groups m parent [] = (ok [], m)
land_groups m parent ((author, layers) ∷ rest) =
    land_group m parent author layers then_do λ landed m1.
    land_groups m1 parent rest then_do λ ids m2. (ok (pushed landed ids), m2)

land_rest : Manager → Round.Round → List (LayerId × CellRef) → List LayerId → Managed RoundOutcome
land_rest m round rejected dropped =
    let (applied, groups) = grouped (0, []) m dropped (Round.layers round) in
    land_groups m round.parent groups then_do λ landed m1. (
      ok (record {
        executed = 0;
        landed = landed;
        applied = applied;
        rejected = rejected;
        cascaded = length dropped - length rejected;
      }),
      m1,
    )

drop_cascade :
    Manager → Round.Round → List (LayerId × CellRef) → Option (List LayerId) → Managed RoundOutcome
unfolding land_rest
drop_cascade m round rejected none = (err diverged, m)
drop_cascade m round rejected (some dropped) = land_rest m round rejected dropped

merge_rest : Manager → Round.Round → Result (List (LayerId × CellRef)) → Managed RoundOutcome
unfolding drop_cascade
merge_rest m round (err e) = (err e, m)
merge_rest m round (ok rejected) =
    drop_cascade m round rejected (Round.cascade round (sort_ids (layers_rejected rejected)))

-- Land a settled round on the branch that it was settling.
unfoldable pub merge_round : Manager → Round.Round → Managed RoundOutcome
unfolding merge_rest
merge_round m round =
    if Round.is_empty round then (ok no_outcome, m) else merge_rest m round (rejections m round)
