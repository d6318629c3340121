-- ===== src/Engine/Resolve.antt =====
-- resolve.rs: the watermarks of producers, and what a read says of its value.
pub mod Validate
pub mod Answer
pub mod Explain
pub mod Frontier
use borg_core.Prelude.{
  ℕ, Bool, true, leb, Option, none, some, List, [], ◌∷◌, Eq, ℕ_discrete, ltb, min, map, unwrap_or,
  if◌then◌else◌,
}
use borg_core.Prelude.Map.{Map, get, insert}
use borg_core.Core.Ids.{BranchId, LayerId, ProducerId}

pub record WatermarkKey : Type 0 where
  pub branch : BranchId
  pub producer : ProducerId

unfoldable pub WatermarkKey-discrete : Discrete WatermarkKey
WatermarkKey-discrete = hlevel (ℕ_discrete)

instance abbrev pub watermark_key_eq : Eq WatermarkKey
watermark_key_eq = record { dec = WatermarkKey-discrete }

-- How waiters are woken is left out: a waiter reads the frontier again.
abbrev pub FrontierTracker : Type 0
FrontierTracker = Map WatermarkKey LayerId

abbrev pub mark_of : BranchId → ProducerId → WatermarkKey
mark_of branch producer = record { branch = branch; producer = producer }

unfoldable pub watermark : FrontierTracker → BranchId → ProducerId → LayerId
watermark marks branch producer = unwrap_or (get marks (mark_of branch producer)) 0

-- A watermark never moves back.
unfoldable pub advance : FrontierTracker → BranchId → ProducerId → LayerId → FrontierTracker
advance marks branch producer to =
    let at = watermark marks branch producer in
    insert marks (mark_of branch producer) (if ltb at to then to else at)

unfoldable pub rewind : FrontierTracker → BranchId → ProducerId → FrontierTracker
rewind marks branch producer = insert marks (mark_of branch producer) 0

-- `Iterator::min`.
unfoldable pub least : List LayerId → Option LayerId
least [] = none
least (l ∷ layers) = elim (least layers) [ none ↦ some l | some m ↦ some (min l m) ]

unfoldable pub settled : FrontierTracker → BranchId → List ProducerId → Option LayerId
unfolding least
settled marks branch producers = least (map (watermark marks branch) producers)

-- One turn of the loop: whether it returns, or waits for a watermark to move and looks again.
unfoldable pub reaches : FrontierTracker → BranchId → List ProducerId → LayerId → Bool
reaches marks branch producers target = elim (settled marks branch producers) [
  | none ↦ true
  | some at ↦ leb target at
]
