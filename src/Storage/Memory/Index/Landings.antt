-- ===== src/Storage/Memory/Index/Landings.antt =====
-- What `index` of memory.rs writes.
use borg_core.Prelude.{◌≡◌, inl, inr, Option, some, [], arith}
use borg_core.Prelude.{unwrap_or, nat_eq, Bool, ◌&&◌, same}
use borg_core.Prelude.{if◌then◌else◌, Bool-cases}
use borg_core.Prelude.Map.{get, insert, get-insert}
use borg_core.Prelude.Unique.{IsUnique, insert-IsUnique}
use borg_core.Core.Ids.{BranchId, LayerId, EventId, DefVersion}
use borg_core.Core.Cell.{CellRef, Event, cell_eq}
use borg_core.Storage.Memory.Index.{ReadIndex, landings, index}

-- An event is a write to the record.
abbrev pub hits : CellRef → DefVersion → Event → Bool
hits cell version event = same event.cell cell && same event.version version

-- One more event changes the landings of its own record on its branch, and no other.
pub landings-index :
    (reads : ReadIndex) (branch b : BranchId) (layer : LayerId) (event : Event) (c : CellRef)
    (v : DefVersion)
    → landings (index reads branch layer event) b c v ≡ (
        if same branch b && hits c v event
        then insert (landings reads b c v) layer event.id
        else landings reads b c v)
unfolding landings index
landings-index reads branch b layer event c v =
    let cells = unwrap_or (get reads branch) [] in
    let versions = unwrap_or (get cells event.cell) [] in
    let history = unwrap_or (get versions event.version) [] in
    let history' = insert history layer event.id in
    let versions' = insert versions event.version history' in
    ground (
      arith,
      get-insert reads branch b (insert cells event.cell versions'),
      get-insert cells event.cell c versions',
      get-insert versions event.version v history',
    )

-- No record has two entries for one layer.
abbrev pub IsTidy : ReadIndex → Type 0
IsTidy reads = (b : BranchId) (c : CellRef) (v : DefVersion) → IsUnique (landings reads b c v)

pub index-IsTidy :
    (reads : ReadIndex) (branch : BranchId) (layer : LayerId) (event : Event)
    → IsTidy reads
    → IsTidy (index reads branch layer event)
index-IsTidy reads branch layer event tidy b c v =
    rw landings-index (elim (Bool-cases (same branch b && hits c v event)) [
      | inl t ↦ rw t (insert-IsUnique (landings reads b c v) layer event.id (tidy b c v))
      | inr f ↦ rw f (tidy b c v)
    ])

-- The entry of one layer among the landings of a record.
abbrev pub entry : ReadIndex → BranchId → CellRef → DefVersion → LayerId → Option EventId
entry reads b c v l = get (landings reads b c v) l

pub entry-index :
    (reads : ReadIndex) (branch b : BranchId) (layer l : LayerId) (event : Event) (c : CellRef)
    (v : DefVersion)
    → entry (index reads branch layer event) b c v l ≡ (
        if same branch b && hits c v event && same layer l
        then some event.id
        else entry reads b c v l)
entry-index reads branch b layer l event c v =
    rw landings-index (elim (Bool-cases (same branch b && hits c v event)) [
      | inl t ↦ ground (arith, t, get-insert (landings reads b c v) layer l event.id)
      | inr f ↦ ground (arith, f)
    ])
