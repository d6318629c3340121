-- ===== src/Core/Tests.antt =====
-- A transaction, and a round of three invocations of which the second consumes the first's output.
mod Texts
use borg_core.Prelude.{◌≡◌, ◌↔◌, inl, inr, true, some, List, [], ◌∷◌, In, contains, refl}
use borg_core.Core.Ids.{LayerId}
use borg_core.Core.Cell.{CellRef, CellAt, prop, cell_eq}
use borg_core.Core.Pid.{Pid, allocated, PidKind.object}
use borg_core.Core.Transaction
use borg_core.Core.Transaction.Guards.{Access, read, write, perform, ReadsFirst, guards-ReadsFirst}
use borg_core.Core.Round
use borg_core.Core.Round.Guards.{Produced, guards-ReadUnproduced}
use borg_core.Core.Round.Cascade.{Tainted, cascade-IsCascade}

abbrev alice : Pid
alice = allocated object 1 0 7

abbrev name : CellRef
name = prop "Person" "name" alice

abbrev title : CellRef
title = prop "Person" "title" alice

abbrev at : CellRef → CellAt
at cell = record { cell = cell; version = 0 }

abbrev accesses : List Access
accesses = read (at name) ∷ write title ∷ read (at title) ∷ []

ReadsFirst-example :
    (contains (Transaction.guards (perform (Transaction.new 2 1 4) accesses)) title ≡ true)
    ↔ ReadsFirst accesses title
ReadsFirst-example = guards-ReadsFirst 2 1 4 accesses title

abbrev first_run : Round.Accesses
first_run = record { reads = at name ∷ []; writes = at title ∷ [] }

abbrev second_run : Round.Accesses
second_run = record { reads = at title ∷ []; writes = [] }

abbrev round : Round.Round
round = record {
  branch = 2;
  parent = 1;
  fork_point = 4;
  invocations = (5, first_run) ∷ (6, second_run) ∷ [];
}

abbrev second_guards : List CellRef
second_guards = Round.guards_of (Round.written_by round.invocations) second_run

unproduced_example :
    (a : Round.Accesses) × In (6, a) round.invocations
    × ((c : CellRef)
        → In c second_guards
          ↔ ((p : CellAt) × In p a.reads × (Produced round.invocations p → ⊥) × (p.cell ≡ c)))
unproduced_example = guards-ReadUnproduced round 6 second_guards in_guards
  where
    in_guards : In (6, second_guards) (Round.guards round)
    in_guards = unfold Round.guards in inr (inl refl)

cascade_example :
    (d : List LayerId) × (Round.cascade round (5 ∷ []) ≡ some d)
    × ((k : LayerId) → In k d ↔ Tainted round.invocations (5 ∷ []) k)
cascade_example = cascade-IsCascade round (5 ∷ [])
