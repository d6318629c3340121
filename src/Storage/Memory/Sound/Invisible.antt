-- ===== src/Storage/Memory/Sound/Invisible.antt =====
-- What stands in a layer that is not committed is seen by no read of memory.rs.
use borg_core.Prelude.{
  ◌≡◌, inl, inr, List, [], ◌∷◌, refl, ap, Option-cases, Bool-cases, ◌==◌, arith, nat_eq,
}
use borg_core.Core.Ids.{BranchId, LayerId, EventId, DefVersion}
use borg_core.Core.Cell.{CellRef, Event, EventDraft}
use borg_core.Core.Def.{DefEvent}
use borg_core.Core.Layer.{ReadPath}
use borg_core.Storage.Memory.State.{Inner, StagedLayer, stored_in}
use borg_core.Storage.Memory.OpenLayer.{
  author_event, adopt_event, include_event, put_def, seal, abort, with_staged,
}
use borg_core.Storage.Memory.Provider.{open_layer, get_cell, get_cell_from}
use borg_core.Storage.Memory.Sound.Operations.{with_staged-cases}

-- An operation that opens, fills, closes or discards a layer, with any arguments, in any state.
pub data Filling (i j : Inner) : Type 0 where
  opened : (b : BranchId) (l : LayerId) → j ≡ (open_layer i b l).1 → Filling i j
  authored :
      (l : LayerId) (cell : CellRef) (draft : EventDraft)
      → j ≡ (author_event i l cell draft).1
      → Filling i j
  adopted : (l : LayerId) (event : Event) → j ≡ (adopt_event i l event).1 → Filling i j
  included : (l : LayerId) (id : EventId) → j ≡ (include_event i l id).1 → Filling i j
  defined : (l : LayerId) (event : DefEvent) → j ≡ (put_def i l event).1 → Filling i j
  sealed : (l : LayerId) → j ≡ (seal i l).1 → Filling i j
  aborted : (l : LayerId) → j ≡ (abort i l).1 → Filling i j

with_staged_reads :
    {A : Type 0} (i : Inner) (l : LayerId) (f : StagedLayer → StagedLayer) (a : A)
    → ((with_staged i l f a).1.reads ≡ i.reads) × ((with_staged i l f a).1.events ≡ i.events)
with_staged_reads i l f a = elim (with_staged-cases i l f a) [
  | inl e ↦ (ap (λ k. k.reads) e, ap (λ k. k.events) e)
  | inr (s, found, run) ↦ (ap (λ o. o.1.reads) run, ap (λ o. o.1.events) run)
]

Filling_reads : {i j : Inner} → Filling i j → (j.reads ≡ i.reads) × (j.events ≡ i.events)
Filling_reads {i} (opened b l e) = rw e (unfold open_layer in ground arith)
Filling_reads {i} (authored l cell draft e) =
    rw e (unfold author_event in with_staged_reads _ l _ _)
Filling_reads {i} (adopted l event e) = rw e (
    unfold adopt_event in
    elim (Bool-cases (event.authored == l)) [
      | inl t ↦ rw t (with_staged_reads _ l _ _)
      | inr f ↦ rw f (refl, refl)
    ])
Filling_reads {i} (included l id e) = rw e (
    unfold include_event in
    elim (Option-cases (stored_in i.events id)) [
      | inl n ↦ rw n (refl, refl)
      | inr (x, n) ↦ rw n (with_staged_reads i l _ _)
    ])
Filling_reads {i} (defined l event e) = rw e (unfold put_def in with_staged_reads i l _ _)
Filling_reads {i} (sealed l e) = rw e (unfold seal in ground arith)
Filling_reads {i} (aborted l e) = rw e (unfold abort in (refl, refl))

-- A layer is invisible until it commits: opening it, writing, adopting, including or defining in it,
-- sealing or discarding it changes the answer of no read, at any version, on any path, from any state
-- of the store, whatever id an adopted event has, and whether the operation succeeds or fails.
pub get_cell-Filling :
    {i j : Inner} (path : ReadPath) (cell : CellRef) (version : DefVersion)
    → Filling i j
    → get_cell j path cell version ≡ get_cell i path cell version
unfolding get_cell get_cell_from
get_cell-Filling {i} {j} path cell version s =
    let (re, ev) = Filling_reads s in go path.segments re ev
  where
    go :
        (segments : List (BranchId × LayerId))
        → j.reads ≡ i.reads
        → j.events ≡ i.events
        → get_cell_from j segments cell version ≡ get_cell_from i segments cell version
    go [] re ev = refl
    go ((b, bound) ∷ rest) re ev = ground (arith, re, ev, go rest re ev)
