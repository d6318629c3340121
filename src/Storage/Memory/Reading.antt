-- ===== src/Storage/Memory/Reading.antt =====
-- What `get_cell` of memory.rs answers, read off the committed layers.
use borg_core.Prelude.{
  ◌≤◌, ◌≡◌, inl, inr, Option, none, some, List, [], ◌∷◌, arith, refl, sym, ap, ◌∙◌,
}
use borg_core.Prelude.{same, nat_eq, Option-cases, Bool-cases}
use borg_core.Prelude.Map.{get}
use borg_core.Core.Ids.{BranchId, LayerId, EventId, DefVersion}
use borg_core.Core.Cell.{CellRef, Landed}
use borg_core.Core.Layer.{ReadPath}
use borg_core.Core.Error.{ok}
use borg_core.Storage.Memory.Index.{newest_at, landings}
use borg_core.Storage.Memory.Index.Newest.{IsNewest, newest_at-IsNewest, Within}
use borg_core.Storage.Memory.State.{Inner, Membership, stored_in, event_of}
use borg_core.Storage.Memory.Provider.{get_cell, get_cell_from}
use borg_core.Storage.Memory.Replay.{IsStored, last_hit, hit_of}
use borg_core.Storage.Memory.Rebuild.{hit_in}
use borg_core.Storage.Memory.Sound.{IsSound}

-- A committed layer of the branch, at or below the bound, whose last write to the record is `id`.
abbrev pub Wrote : Inner → BranchId → LayerId → CellRef → DefVersion → LayerId → EventId → Type 0
Wrote inner b bound c v l id =
    (hit_in inner.events (get inner.members l) b c v ≡ some id) × (l ≤ bound)

-- The answer of a walk outward: the first segment with any write of the record decides it, by its
-- highest layer; a tombstone is a write like any other.
pub data Resolves (inner : Inner) (c : CellRef) (v : DefVersion)
    : List (BranchId × LayerId) → Option Landed → Type 0 where
  nowhere : Resolves inner c v [] none
  found :
      {b : BranchId} {bound : LayerId} {rest : List (BranchId × LayerId)} (landed : Landed)
      → Wrote inner b bound c v landed.landed_at landed.event.id
      → ((k : LayerId) (id : EventId) → Wrote inner b bound c v k id → k ≤ landed.landed_at)
      → stored_in inner.events landed.event.id ≡ some landed.event
      → Resolves inner c v ((b, bound) ∷ rest) (some landed)
  outward :
      {b : BranchId} {bound : LayerId} {rest : List (BranchId × LayerId)} {o : Option Landed}
      → ((k : LayerId) (id : EventId) → Wrote inner b bound c v k id → ⊥)
      → Resolves inner c v rest o
      → Resolves inner c v ((b, bound) ∷ rest) o

IsStored-of_last_hit :
    (inner : Inner) (ids : List EventId) (c : CellRef) (v : DefVersion) (id : EventId)
    → IsSound inner
    → last_hit inner.events ids c v ≡ some id
    → IsStored inner.events id
unfolding last_hit hit_of
IsStored-of_last_hit inner [] c v id sound h = cc
IsStored-of_last_hit inner (i ∷ ids) c v id sound h =
    elim (Option-cases (last_hit inner.events ids c v)) [
      | inr (x, e) ↦ IsStored-of_last_hit inner ids c v id sound (ground (arith, e))
      | inl n ↦ elim (Option-cases (stored_in inner.events i)) [
        | inl m ↦ ground (arith, n, m)
        | inr (ev, m) ↦ (ev, ground (arith, n, m, sound.own_id i ev m))
      ]
    ]

IsStored-of_hit_in :
    (inner : Inner) (m : Option Membership) (b : BranchId) (c : CellRef) (v : DefVersion)
    (id : EventId)
    → IsSound inner
    → hit_in inner.events m b c v ≡ some id
    → IsStored inner.events id
IsStored-of_hit_in inner none b c v id sound h = cc
IsStored-of_hit_in inner (some m) b c v id sound h = elim (Bool-cases (same m.branch b)) [
  | inl t ↦ IsStored-of_last_hit inner m.events c v id sound (ground (arith, t))
  | inr f ↦ ground (arith, f)
]

get_cell_from-Resolves :
    (inner : Inner) (segments : List (BranchId × LayerId)) (c : CellRef) (v : DefVersion)
    → IsSound inner
    → (o : Option Landed) × (get_cell_from inner segments c v ≡ ok o)
      × Resolves inner c v segments o
unfolding get_cell_from event_of
get_cell_from-Resolves inner [] c v sound = (none, refl, nowhere)
get_cell_from-Resolves inner ((b, bound) ∷ rest) c v sound =
    let (o, run, res) = get_cell_from-Resolves inner rest c v sound in
    let agrees = sound.indexed.agrees b c v in
    go (newest_at (landings inner.reads b c v) bound) refl
      (newest_at-IsNewest (landings inner.reads b c v) bound (sound.indexed.tidy b c v)) o run res
  where
    go :
        (n : Option (LayerId × EventId))
        → newest_at (landings inner.reads b c v) bound ≡ n
        → IsNewest n (Within (landings inner.reads b c v) bound)
        → (o : Option Landed) → get_cell_from inner rest c v ≡ ok o
        → Resolves inner c v rest o
        → (p : Option Landed) × (get_cell_from inner ((b, bound) ∷ rest) c v ≡ ok p)
          × Resolves inner c v ((b, bound) ∷ rest) p
    go none e newest o run res =
        (o, rw e run, outward (λ k id w. newest k id (sound.indexed.agrees b c v k ∙ w.0, w.1)) res)
    go (some (l, id)) e newest o run res =
        let hit = sym (sound.indexed.agrees b c v l) ∙ newest.0.0 in
        let (event, st) = IsStored-of_hit_in inner (get inner.members l) b c v id sound hit in
        let own = sound.own_id id event st in
        (
          some (record { event = event; landed_at = l }),
          rw e (rw st),
          found (record { event = event; landed_at = l }) (hit ∙ ap some (sym own), newest.0.1)
              (λ k f w. newest.1 k f (sound.indexed.agrees b c v k ∙ w.0, w.1)) (rw own st),
        )

-- A read of a sound store never fails, and answers what the committed layers say: outward along the
-- path, the first segment on which any layer within the bound wrote the record decides, and there
-- the highest such layer, by its last write.
pub get_cell-Resolves :
    (inner : Inner) (path : ReadPath) (c : CellRef) (v : DefVersion)
    → IsSound inner
    → (o : Option Landed) × (get_cell inner path c v ≡ ok o) × Resolves inner c v path.segments o
unfolding get_cell
get_cell-Resolves inner path c v sound = get_cell_from-Resolves inner path.segments c v sound
