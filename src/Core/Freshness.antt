-- ===== src/Core/Freshness.antt =====
-- crates/borg-core/src/freshness.rs: what a read returns, and what a client asks for.
use borg_core.Prelude.{Option}
use borg_core.Core.Ids.{LayerId, EventId, ProducerId}
use borg_core.Core.Cell.{Origin}
use borg_core.Core.Value.{Value}

pub data Freshness : Type 0 where
  current unvalidated stale broken tombstoned : Freshness

pub data FreshnessRequirement : Type 0 where
  any validated current : FreshnessRequirement

-- At `Option<Value>`, the one type that reads resolve to.
pub record Resolved : Type 0 where
  pub value : Option Value
  pub origin : Origin
  pub event : Option EventId
  pub authored_at : LayerId
  pub landed_at : LayerId
  pub fresh_as_of : LayerId
  pub state : Freshness
  pub by : Option ProducerId

pub record Watermark : Type 0 where
  pub producer : ProducerId
  pub reflects : LayerId
