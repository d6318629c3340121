-- ===== src/Core/Round.antt =====
-- crates/borg-core/src/transaction.rs: a derivation round, the collection of its invocations.
pub mod Guards
pub mod Readers
pub mod Cascade
use borg_core.Prelude.{
  ℕ, zero, suc, ◌+◌, Bool, true, false, Option, none, some, List, [], ◌∷◌, ◌++◌, map, nat_eq,
}
use borg_core.Prelude.{add, contains, if◌then◌else◌, length, keep, not, push, unwrap_or, ltb, ◌==◌}
use borg_core.Prelude.Map.{Map, get, insert}
use borg_core.Core.Ids.{BranchId, LayerId}
use borg_core.Core.Cell.{CellAt, CellRef, cell_eq, cell_at_eq}
use mathlib.Core.List.{reverse}

-- What one invocation touched: the records that it read and wrote.
pub record Accesses : Type 0 where
  pub reads : List CellAt
  pub writes : List CellAt

-- `invocations` is a `BTreeMap`: its entries stand in the order of their layers.
pub record Round : Type 0 where
  pub branch : BranchId
  pub parent : BranchId
  pub fork_point : LayerId
  pub invocations : Map LayerId Accesses

abbrev pub new : BranchId → BranchId → LayerId → Round
new branch parent fork_point = record {
  branch = branch;
  parent = parent;
  fork_point = fork_point;
  invocations = [];
}

unfoldable pub insert_ordered : Map LayerId Accesses → LayerId → Accesses → Map LayerId Accesses
insert_ordered [] layer a = (layer, a) ∷ []
insert_ordered ((k, b) ∷ m) layer a =
    let later = insert_ordered m layer a in
    if k == layer
    then (layer, a) ∷ m
    else if ltb layer k
    then (layer, a) ∷ (k, b) ∷ m
    else (k, b) ∷ later

-- Record what one invocation read and wrote, and which layer it committed.
unfoldable pub ran : Round → LayerId → List CellAt → List CellAt → Round
ran round layer reads writes = record round {
  invocations = insert_ordered round.invocations layer (record { reads = reads; writes = writes });
}

-- The layers that the round committed, oldest first.
abbrev pub layers : Round → List LayerId
layers round = map (λ e. e.0) round.invocations

abbrev pub is_empty : Round → Bool
is_empty round = elim round.invocations [ [] ↦ true | _ ∷ _ ↦ false ]

unfoldable pub written_by : Map LayerId Accesses → List CellAt
written_by [] = []
written_by ((layer, a) ∷ m) = a.writes ++ written_by m

-- The cells of the records that an invocation read and the round did not produce.
abbrev pub guards_of : List CellAt → Accesses → List CellRef
guards_of produced a = map (λ at. at.cell) (keep (λ at. not (contains produced at)) a.reads)

unfoldable pub guards : Round → List (LayerId × List CellRef)
guards round =
    let produced = written_by round.invocations in
    map (λ e. (e.0, guards_of produced e.1)) round.invocations

-- `readers.entry(&read.cell).or_default().push(*layer)`
unfoldable pub add_reader :
    Map CellRef (List LayerId) → LayerId → CellAt → Map CellRef (List LayerId)
add_reader readers layer read =
    insert readers read.cell (push (unwrap_or (get readers read.cell) []) layer)

unfoldable pub add_readers :
    Map CellRef (List LayerId) → LayerId → List CellAt → Map CellRef (List LayerId)
add_readers readers layer [] = readers
add_readers readers layer (read ∷ reads) = add_readers (add_reader readers layer read) layer reads

unfoldable pub readers_from :
    Map CellRef (List LayerId) → Map LayerId Accesses → Map CellRef (List LayerId)
readers_from readers [] = readers
readers_from readers ((layer, a) ∷ m) = readers_from (add_readers readers layer a.reads) m

-- The dropped layers, and those whose consumers are still to be found. The last of the `Vec` that
-- the source pops stands first.
pub record Sweep : Type 0 where
  pub dropped : List LayerId
  pub frontier : List LayerId

unfoldable pub sweep_layer : Sweep → LayerId → Sweep
sweep_layer s consumer =
    if contains s.dropped consumer
    then s
    else record { dropped = push s.dropped consumer; frontier = consumer ∷ s.frontier }

unfoldable pub sweep_layers : Sweep → List LayerId → Sweep
sweep_layers s [] = s
sweep_layers s (consumer ∷ rest) = sweep_layers (sweep_layer s consumer) rest

unfoldable pub sweep_writes : Map CellRef (List LayerId) → Sweep → List CellAt → Sweep
sweep_writes readers s [] = s
sweep_writes readers s (write ∷ rest) =
    sweep_writes readers (sweep_layers s (unwrap_or (get readers write.cell) [])) rest

-- A layer that is no invocation of the round has no output: `continue`.
unfoldable pub sweep_output : Map CellRef (List LayerId) → Sweep → Option Accesses → Sweep
sweep_output readers s none = s
sweep_output readers s (some a) = sweep_writes readers s a.writes

-- `while let Some(layer) = frontier.pop()`, on fuel; `none` means that the fuel ran out.
unfoldable pub sweep_loop :
    ℕ
    → Map LayerId Accesses
    → Map CellRef (List LayerId)
    → List LayerId
    → List LayerId
    → Option (List LayerId)
sweep_loop fuel invocations readers dropped [] = some dropped
sweep_loop zero invocations readers dropped (layer ∷ frontier) = none
sweep_loop (suc fuel) invocations readers dropped (layer ∷ frontier) =
    let s =
      sweep_output readers (record { dropped = dropped; frontier = frontier })
        (get invocations layer) in
    sweep_loop fuel invocations readers s.dropped s.frontier

-- Each layer is popped once at most, so the layers that failed and those of the round are fuel enough.
unfoldable pub cascade : Round → List LayerId → Option (List LayerId)
cascade round [] = some []
cascade round (layer ∷ rest) =
    let failed = layer ∷ rest in
    sweep_loop (length failed + length round.invocations) round.invocations
      (readers_from [] round.invocations) failed (reverse failed)
