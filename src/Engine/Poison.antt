-- ===== src/Engine/Poison.antt =====
-- crates/borg-engine/src/poison.rs: `MemoryPoison`, the producers that failed and at which version.
pub mod Records
use borg_core.Prelude.{ℕ, Bool, String, Option, List, keep, map, Eq, ℕ_discrete, ◌==◌}
use borg_core.Prelude.Map.{Map, get, insert, remove}
use borg_core.Core.Ids.{BranchId, LayerId, ProducerId}

pub record Poisoning : Type 0 where
  pub producer : ProducerId
  pub version : LayerId
  pub error : String
  pub since : LayerId

-- A record that names another version has expired.
unfoldable pub applies_to : Poisoning → LayerId → Bool
applies_to p version = p.version == version

pub record PoisonKey : Type 0 where
  pub branch : BranchId
  pub producer : ProducerId

unfoldable pub PoisonKey-discrete : Discrete PoisonKey
PoisonKey-discrete = hlevel (ℕ_discrete)

instance abbrev pub poison_key_eq : Eq PoisonKey
poison_key_eq = record { dec = PoisonKey-discrete }

abbrev pub Broken : Type 0
Broken = Map PoisonKey Poisoning

unfoldable pub poisoned : Broken → BranchId → List Poisoning
poisoned broken branch = map (λ e. e.1) (keep (λ e. e.0.branch == branch) broken)

unfoldable pub poison : Broken → BranchId → Poisoning → Broken
poison broken branch p = insert broken (record { branch = branch; producer = p.producer }) p

unfoldable pub clear : Broken → BranchId → ProducerId → Broken
clear broken branch producer = remove broken (record { branch = branch; producer = producer })
