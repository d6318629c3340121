-- ===== src/Core/Transaction.antt =====
-- crates/borg-core/src/transaction.rs: a client transaction, its reads and its writes. A `BTreeSet`
-- is a list without repetition, in the order of insertion: the order decides nothing here.
pub mod Guards
use borg_core.Prelude.{ℕ, Bool, true, false, List, [], ◌∷◌, add, contains, if◌then◌else◌, length}
use borg_core.Core.Ids.{BranchId, LayerId}
use borg_core.Core.Cell.{CellAt, CellRef, cell_eq, cell_at_eq}

pub record Transaction : Type 0 where
  pub branch : BranchId
  pub parent : BranchId
  pub fork_point : LayerId
  pub reads : List CellAt
  pub writes : List CellRef

abbrev pub new : BranchId → BranchId → LayerId → Transaction
new branch parent fork_point = record {
  branch = branch;
  parent = parent;
  fork_point = fork_point;
  reads = [];
  writes = [];
}

-- A read of a cell that the transaction has already written is not recorded.
unfoldable pub observe : Transaction → CellAt → Transaction
observe t read = if contains t.writes read.cell then t else record t { reads = add t.reads read }

unfoldable pub wrote : Transaction → CellRef → Transaction
wrote t cell = record t { writes = add t.writes cell }

cells_of : List CellRef → List CellAt → List CellRef
cells_of cells [] = cells
cells_of cells (at ∷ rest) = cells_of (add cells at.cell) rest

-- One guard for each distinct cell that was read, at however many versions.
unfoldable pub guards : Transaction → List CellRef
unfolding cells_of
guards t = cells_of [] t.reads

abbrev pub size : Transaction → ℕ × ℕ
size t = (length t.reads, length t.writes)
