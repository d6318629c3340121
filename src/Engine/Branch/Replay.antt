-- ===== src/Engine/Branch/Replay.antt =====
-- branch.rs: a client's merge. Everything is validated before anything is written.
pub mod Conflicts
pub mod Replayed
use borg_core.Prelude.{
  ℕ, String, Bool, true, false, Option, none, some, List, [], ◌∷◌, ◌&&◌, not, map, keep, push,
}
use borg_core.Prelude.{
  contains, add, any, if◌then◌else◌, ltb, leb, nat_eq, same, string_eq, unwrap_or,
}
use borg_core.Prelude.Map.{get}
use borg_core.Core.Ids.{BranchId, LayerId, EventId, unversioned}
use borg_core.Core.Cell.{CellRef, Event, Landed, FieldName, ObjectTypeName, existence_of, cell_eq}
use borg_core.Core.Value.{is_tombstone}
use borg_core.Core.Def.{DefEvent, touches}
use borg_core.Core.Layer.{
  Layer, LayerKind, LayerAuthor, Guard, MergeMode, ReadPath, is_source, layer_kind_eq,
}
use borg_core.Core.Layer.{def_only, def_and_data, source, value, def}
use borg_core.Core.Transaction
use borg_core.Core.Error.{
  Result, ok, err, BorgError, MergeRejection, guard_violated, merge_rejected, guard_conflict,
  def_diverged, dangling_write, storage, merge_of_root, child_without_parent, ◌>>=◌, ◌>>◌,
}
use borg_core.Engine.Log.{
  Manager, Managed, LayerHandle, layers_of, sort_by_id, check_reads, check_guards, read_path,
  open_handle, put_def_event, include, commit, ◌then_do◌,
}
use borg_core.Engine.Branch.Tree.{parent_of, origin_of}
use borg_core.Storage.Memory.Provider.{read_layer, read_def_layer, collect, get_cell}

-- A failed guard, said as a merge conflict.
unfoldable pub rejection : BorgError → BorgError
rejection (guard_violated cell since mutated_at) = merge_rejected (guard_conflict cell)
rejection other = other

unfoldable pub rejecting : {A : Type 0} → Result A → Result A
rejecting (ok a) = ok a
rejecting (err e) = err (rejection e)

unfoldable pub carried_by : MergeMode → Layer → Bool
carried_by def_only l = same l.kind def
carried_by def_and_data l = true

-- The child's own source layers, oldest first.
unfoldable pub replayable_layers : Manager → BranchId → MergeMode → List LayerId
replayable_layers m child mode =
    map (λ l. l.id)
      (sort_by_id (keep (carried_by mode) (keep (λ l. is_source l.author) (layers_of m child))))

same_field : ObjectTypeName × FieldName → ObjectTypeName × FieldName → Bool
same_field a b = same a.0 b.0 && same a.1 b.1

has_field : List (ObjectTypeName × FieldName) → ObjectTypeName × FieldName → Bool
unfolding same_field
has_field keys key = any (same_field key) keys

add_field :
    List (ObjectTypeName × FieldName)
    → Option (ObjectTypeName × FieldName)
    → List (ObjectTypeName × FieldName)
unfolding has_field
add_field keys none = keys
add_field keys (some key) = if has_field keys key then keys else push keys key

add_fields : List (ObjectTypeName × FieldName) → List DefEvent → List (ObjectTypeName × FieldName)
unfolding add_field
add_fields keys [] = keys
add_fields keys (e ∷ es) = add_fields (add_field keys (touches e)) es

fields_of_layers :
    List (ObjectTypeName × FieldName)
    → Manager
    → List Layer
    → LayerId
    → List (ObjectTypeName × FieldName)
unfolding add_fields
fields_of_layers keys m [] fork_point = keys
fields_of_layers keys m (l ∷ ls) fork_point =
    fields_of_layers
      (if same l.kind def && ltb fork_point l.id
        then add_fields keys (read_def_layer m.store l.id)
        else keys)
      m ls fork_point

-- Which definitions the parent has moved since the fork point.
unfoldable pub defs_touched_since : Manager → BranchId → LayerId → List (ObjectTypeName × FieldName)
unfolding fields_of_layers
defs_touched_since m parent fork_point = fields_of_layers [] m (layers_of m parent) fork_point

check_def :
    List (ObjectTypeName × FieldName) → Option (ObjectTypeName × FieldName) → Result (Unit {0})
unfolding has_field
check_def moved none = ok tt
check_def moved (some key) =
    if has_field moved key then err (merge_rejected (def_diverged key.0)) else ok tt

unfoldable pub check_defs : List (ObjectTypeName × FieldName) → List DefEvent → Result (Unit {0})
unfolding check_def
check_defs moved [] = ok tt
check_defs moved (e ∷ es) = check_def moved (touches e) >> check_defs moved es

unfoldable pub contents_of : Manager → LayerId → Result (List Event)
contents_of m layer = collect (read_layer m.store layer)

deleted_after : CellRef → LayerId → Option Landed → Result (Unit {0})
deleted_after cell fork_point none = ok tt
deleted_after cell fork_point (some found) =
    if is_tombstone found.event.value && ltb fork_point found.landed_at
    then err (merge_rejected (dangling_write cell found.landed_at))
    else ok tt

unfoldable pub dangling_from : Manager → ReadPath → LayerId → List Event → Result (Unit {0})
unfolding deleted_after
dangling_from m path fork_point [] = ok tt
dangling_from m path fork_point (e ∷ es) =
    let rest = dangling_from m path fork_point es in
    let existence = existence_of e.cell in
    if same existence e.cell
    then rest
    else get_cell m.store path existence unversioned >>= λ found.
        deleted_after e.cell fork_point found >> rest

-- Reject a write to an object that the parent has deleted since.
unfoldable pub check_dangling : Manager → BranchId → LayerId → List Event → Result (Unit {0})
check_dangling m parent fork_point events =
    read_path m parent none >>= λ path. dangling_from m path fork_point events

abbrev pub guards_in : Option Layer → List Guard
guards_in none = []
guards_in (some l) = l.guards

-- One layer of the child against the parent: its definitions, its guards, then its writes.
unfoldable pub validate_layer :
    Manager → BranchId → LayerId → List (ObjectTypeName × FieldName) → LayerId → Result (List Event)
validate_layer m parent origin moved layer =
    check_defs moved (read_def_layer m.store layer)
    >> (contents_of m layer >>= λ events.
        rejecting (check_guards m parent (guards_in (get m.layers layer)) (some origin))
        >> check_dangling m parent origin events
        >> ok events)

unfoldable pub validate :
    Manager
    → BranchId
    → LayerId
    → List (ObjectTypeName × FieldName)
    → List LayerId
    → Result (List (LayerId × List Event))
validate m parent origin moved [] = ok []
validate m parent origin moved (layer ∷ layers) =
    validate_layer m parent origin moved layer >>= λ events.
    validate m parent origin moved layers >>= λ rest. ok ((layer, events) ∷ rest)

unfoldable pub put_defs : Manager → LayerHandle → List DefEvent → Managed Unit
put_defs m handle [] = (ok tt, m)
put_defs m handle (e ∷ es) = put_def_event m handle e then_do λ _ m1. put_defs m1 handle es

unfoldable pub include_all : Manager → LayerHandle → List EventId → Managed Unit
include_all m handle [] = (ok tt, m)
include_all m handle (e ∷ es) = include m handle e then_do λ _ m1. include_all m1 handle es

abbrev pub kind_in : Option Layer → LayerKind
kind_in none = value
kind_in (some l) = l.kind

-- The parent layer names the child's events: nothing is rewritten.
unfoldable pub replay_layer : Manager → BranchId → LayerId → List Event → Managed LayerId
replay_layer m parent layer events =
    open_handle m parent (kind_in (get m.layers layer)) source then_do λ handle m1.
    put_defs m1 handle (read_def_layer m1.store layer) then_do λ _ m2.
    include_all m2 handle (map (λ e. e.id) events) then_do λ _ m3. commit m3 handle

unfoldable pub replay_all :
    Manager → BranchId → List (LayerId × List Event) → Managed (List LayerId)
replay_all m parent [] = (ok [], m)
replay_all m parent ((layer, events) ∷ rest) = replay_layer m parent layer events then_do λ id m1.
    replay_all m1 parent rest then_do λ ids m2. (ok (id ∷ ids), m2)

apply_staged : Manager → BranchId → Result (List (LayerId × List Event)) → Managed (List LayerId)
apply_staged m parent (err e) = (err e, m)
apply_staged m parent (ok staged) = replay_all m parent staged

-- What a merge checks: the reads first, against the parent as it stood.
unfoldable pub checked :
    Manager
    → BranchId
    → BranchId
    → LayerId
    → MergeMode
    → List CellRef
    → Result (List (LayerId × List Event))
checked m child parent origin mode reads =
    rejecting (check_reads m parent reads origin)
    >> validate m parent origin (defs_touched_since m parent origin)
        (replayable_layers m child mode)

unfoldable pub replay :
    Manager → BranchId → BranchId → LayerId → MergeMode → List CellRef → Managed (List LayerId)
unfolding apply_staged
replay m child parent origin mode reads =
    apply_staged m parent (checked m child parent origin mode reads)

replay_onto : Manager → BranchId → MergeMode → LayerId → Option BranchId → Managed (List LayerId)
replay_onto m child mode origin none = (err (storage child_without_parent), m)
replay_onto m child mode origin (some parent) = replay m child parent origin mode []

merge_from : Manager → BranchId → MergeMode → Option LayerId → Managed (List LayerId)
unfolding replay_onto
merge_from m child mode none = (err (storage merge_of_root), m)
merge_from m child mode (some origin) = replay_onto m child mode origin (parent_of m child)

unfoldable pub merge : Manager → BranchId → MergeMode → Managed (List LayerId)
unfolding merge_from
merge m child mode = merge_from m child mode (origin_of (get m.branches child))

-- Commit a client transaction, guarded by everything that it read.
unfoldable pub merge_transaction :
    Manager → Transaction.Transaction → MergeMode → Managed (List LayerId)
merge_transaction m t mode = replay m t.branch t.parent t.fork_point mode (Transaction.guards t)
