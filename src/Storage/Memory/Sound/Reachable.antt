-- ===== src/Storage/Memory/Sound/Reachable.antt =====
-- The states that the store of memory.rs reaches from empty, whatever its callers do.
use borg_core.Prelude.{ℕ, zero, suc, ◌+◌, ◌<◌, ◌≡◌, List, refl, ap}
use borg_core.Prelude.{arith, nat_eq}
use borg_core.Prelude.Map.{get}
use borg_core.Core.Ids.{BranchId, LayerId, EventId, DefVersion}
use borg_core.Core.Cell.{CellRef, Event, EventDraft}
use borg_core.Core.Def.{DefEvent}
use borg_core.Core.Layer.{Layer, Branch, ReadPath}
use borg_core.Core.Pid.{PidKind}
use borg_core.Core.Content
use borg_core.Storage.Memory.Index.{landings}
use borg_core.Storage.Memory.State.{Inner, new, stored_in, slot, u64_mod}
use borg_core.Storage.Memory.OpenLayer.{
  author_event, adopt_event, include_event, put_def, seal, abort,
}
use borg_core.Storage.Memory.Provider.{
  open_layer, commit_layer, rebuild_read_index, put_layer_meta, put_branch, intern, get_cell,
}
use borg_core.Storage.Memory.Rebuild.{
  IsIndexed, rebuild_read_index-IsIndexed, get_cell-rebuild_read_index,
}
use borg_core.Storage.Memory.Sound.{IsSound}
use borg_core.Storage.Memory.Sound.Operations.{
  IsUnused, author_event-IsSound, adopt_event-IsSound, include_event-IsSound, put_def-IsSound,
  seal-IsSound, abort-IsSound, open_layer-IsSound,
}
use borg_core.Storage.Memory.Sound.Committing.{commit_layer-IsSound}

-- A step that opens, fills, closes or discards a layer. Its target is written as an equation. An
-- adopted event comes under an id of its own, as the events of an exported stream do.
pub data Staging (i j : Inner) : Type 0 where
  opened : (b : BranchId) (l : LayerId) → j ≡ (open_layer i b l).1 → Staging i j
  authored :
      (l : LayerId) (cell : CellRef) (draft : EventDraft)
      → i.next_event + 1 < u64_mod
      → j ≡ (author_event i l cell draft).1
      → Staging i j
  adopted :
      (l : LayerId) (event : Event)
      → IsUnused i event.id
      → j ≡ (adopt_event i l event).1
      → Staging i j
  included : (l : LayerId) (id : EventId) → j ≡ (include_event i l id).1 → Staging i j
  defined : (l : LayerId) (event : DefEvent) → j ≡ (put_def i l event).1 → Staging i j
  sealed : (l : LayerId) → j ≡ (seal i l).1 → Staging i j
  aborted : (l : LayerId) → j ≡ (abort i l).1 → Staging i j

-- Every operation of the provider that changes the store.
pub data Step (i j : Inner) : Type 0 where
  staging : Staging i j → Step i j
  committed : (l : LayerId) → j ≡ (commit_layer i l).1 → Step i j
  rebuilt : j ≡ (rebuild_read_index i).1 → Step i j
  noted : (layer : Layer) → j ≡ put_layer_meta i layer → Step i j
  branched : (branch : Branch) → j ≡ put_branch i branch → Step i j
  interned :
      (hash : List ℕ → List ℕ) (kind : PidKind) (bytes : List ℕ)
      → j ≡ (intern hash i kind bytes).1
      → Step i j

pub data Reach (i : Inner) : Inner → Type 0 where
  here : Reach i i
  next : {j k : Inner} → Reach i j → Step j k → Reach i k

Staging-IsSound : {i j : Inner} → Staging i j → IsSound i → IsSound j
Staging-IsSound {i} (opened b l e) h = rw e (open_layer-IsSound i b l h)
Staging-IsSound {i} (authored l cell draft room e) h =
    rw e (author_event-IsSound i l cell draft h room)
Staging-IsSound {i} (adopted l event unused e) h = rw e (adopt_event-IsSound i l event h unused)
Staging-IsSound {i} (included l id e) h = rw e (include_event-IsSound i l id h)
Staging-IsSound {i} (defined l event e) h = rw e (put_def-IsSound i l event h)
Staging-IsSound {i} (sealed l e) h = rw e (seal-IsSound i l h)
Staging-IsSound {i} (aborted l e) h = rw e (abort-IsSound i l h)

-- The fields that the invariant reads.
carry :
    (i j : Inner)
    → j.events ≡ i.events
    → j.members ≡ i.members
    → j.staged ≡ i.staged
    → j.next_event ≡ i.next_event
    → IsSound i
    → IsIndexed j
    → IsSound j
carry i j ev me st ne h ix = record {
  indexed = ix;
  apart = rw (me, st) h.apart;
  fresh = rw (ev, st, ne) h.fresh;
  disjoint = rw st h.disjoint;
  named = rw (ev, st) h.named;
  bounded = rw (ev, ne) h.bounded;
  own_id = rw ev h.own_id;
}

same_index :
    (i j : Inner)
    → j.events ≡ i.events
    → j.members ≡ i.members
    → j.reads ≡ i.reads
    → IsIndexed i
    → IsIndexed j
same_index i j ev me re h = record {
  tidy = rw re h.tidy;
  agrees = rw (re, ev, me) h.agrees;
  known = rw (me, ev) h.known;
}

intern_keeps :
    (hash : List ℕ → List ℕ) (i : Inner) (kind : PidKind) (bytes : List ℕ)
    → let j = (intern hash i kind bytes).1 in
      (j.events ≡ i.events)
      × (j.members ≡ i.members)
      × (j.staged ≡ i.staged)
      × (j.next_event ≡ i.next_event)
      × (j.reads ≡ i.reads)
unfolding intern Content.pid
intern_keeps hash i kind bytes = ground arith

rebuild_read_index-IsSound : (i : Inner) → IsSound i → IsSound (rebuild_read_index i).1
rebuild_read_index-IsSound i h =
    let (j, run, only, ix) = rebuild_read_index-IsIndexed i h.indexed.known in
    rw run (
      carry i j (ap (λ k. k.events) only) (ap (λ k. k.members) only) (ap (λ k. k.staged) only)
        (ap (λ k. k.next_event) only) h ix)

-- Every operation of the store keeps the invariant, whether it succeeds or fails, where the counter
-- of events has room and an adopted event comes under an id that is not in use.
pub Step-IsSound : {i j : Inner} → Step i j → IsSound i → IsSound j
Step-IsSound (staging s) h = Staging-IsSound s h
Step-IsSound {i} (committed l e) h = rw e (commit_layer-IsSound i l h)
Step-IsSound {i} (rebuilt e) h = rw e (rebuild_read_index-IsSound i h)
Step-IsSound {i} (noted layer e) h = rw e (
    unfold put_layer_meta in
    carry i _ refl refl refl refl h (same_index i _ refl refl refl h.indexed))
Step-IsSound {i} (branched branch e) h =
    rw e (
      unfold put_branch in
      carry i _ refl refl refl refl h (same_index i _ refl refl refl h.indexed))
Step-IsSound {i} (interned hash kind bytes e) h =
    let (ev, me, st, ne, re) = intern_keeps hash i kind bytes in
    rw e (carry i _ ev me st ne h (same_index i _ ev me re h.indexed))

pub new-IsSound : IsSound new
unfolding landings get stored_in slot
new-IsSound = record {
  indexed = record { tidy = λ b c v. tt; agrees = λ b c v l. refl; known = λ l m h. cc };
  apart = λ l s h. cc;
  fresh = λ l s h. cc;
  disjoint = λ l k s t id h. cc;
  named = λ l s h. cc;
  bounded = elim [ zero ↦ λ e h. cc | suc n ↦ λ e h. cc ];
  own_id = elim [ zero ↦ λ e h. cc | suc n ↦ λ e h. cc ];
}

pub Reach-IsSound : {i j : Inner} → IsSound i → Reach i j → IsSound j
Reach-IsSound h here = h
Reach-IsSound h (next r s) = Step-IsSound s (Reach-IsSound h r)

-- In every state that the store reaches from empty by steps of its operations (an adopted event comes
-- under an unused id, and the counter of events has room), discarding the read index and rebuilding it from
-- the committed layers changes the answer of no read: the index is a projection of the log.
pub reachable_get_cell-rebuild_read_index :
    {i : Inner} (path : ReadPath) (cell : CellRef) (version : DefVersion)
    → Reach new i
    → get_cell (rebuild_read_index i).1 path cell version ≡ get_cell i path cell version
reachable_get_cell-rebuild_read_index {i} path cell version r =
    get_cell-rebuild_read_index i path cell version (Reach-IsSound new-IsSound r).indexed
