-- ===== src/Engine/Session/Runs.antt =====
-- A session from its opening on, through any writes.
use borg_core.Prelude.{Option, nat_eq}
use borg_core.Core.Cell.{CellRef, Derivation}
use borg_core.Core.Value.{Value}
use borg_core.Core.Error.{ok, err}
use borg_core.Engine.Log.{Manager, Managed}
use borg_core.Engine.Session.{WriteSession, put_cell}
use borg_core.Engine.Session.Conforming.{IsConforming}

-- What a session's writes lead to, whatever they return.
pub data Writes : Manager → WriteSession → Manager → WriteSession → Type 0 where
  opened : {m : Manager} {s : WriteSession} → Writes m s m s
  wrote :
      {m n : Manager} {s t : WriteSession} (cell : CellRef) (v : Value)
      (derivation : Option Derivation)
      → Writes m s n t
      → Writes m s (put_cell n t cell v derivation).1 (put_cell n t cell v derivation).2

-- What an opening returns, where it returns a session.
OpensConforming : Managed WriteSession → Type 0
OpensConforming (err e, n) = Unit
OpensConforming (ok s, n) = IsConforming n s
