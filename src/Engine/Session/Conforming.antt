-- ===== src/Engine/Session/Conforming.antt =====
-- That nothing enters a session's layer without the definitions' leave.
use borg_core.Prelude.{
  ℕ, Bool, true, false, Bool-cases, Option, none, some, Option-cases, List, [], ◌||◌, ◌≡◌, ◌≢◌, All,
  All-push, ◌⊎◌, inl, inr, refl, same, contains, nat_eq, string_eq, ◌≟◌,
}
use borg_core.Prelude.Map.{get, insert, get-insert_self}
use borg_core.Core.Ids.{LayerId, EventId}
use borg_core.Core.Cell.{
  BufferId, CellRef, Event, EventDraft, Derivation, Landed, Writer, client, producer, origin,
  existence_of, existence_in, object, object_prop, cell_eq,
}
use borg_core.Core.Value.{Value, accepts}
use borg_core.Core.Error.{Result, ok, err}
use borg_core.Engine.Log.{Manager, Managed, LayerHandle, put}
use borg_core.Engine.Defs.{DefView, version_of, declared}
use borg_core.Engine.Defs.Writes.{check_write}
use borg_core.Engine.Defs.Writes.Permitted.{IsPermitted, PermittedAt, check_write-IsPermitted}
use borg_core.Engine.Session.{
  WriteSession, Written, draft_of, recorded, probed, imply_for_client, imply_for, imply_existence,
  noted, put_implied, put_checked, put_cell,
}
use borg_core.Storage.Memory.State.{Inner, StagedLayer, mint}
use borg_core.Storage.Memory.OpenLayer.{event_from, with_event, author_event, with_staged, staged}

unfoldable pub events_of : Option StagedLayer → List Event
events_of none = []
events_of (some s) = s.authored

-- The events written into an open layer.
unfoldable pub staged_events : Manager → LayerId → List Event
unfolding events_of
staged_events m id = events_of (get m.store.staged id)

-- The definitions permit the event's write, and it is keyed at the version that the writer's view
-- gives the cell.
abbrev pub Conforms : DefView → DefView → Writer → Event → Type 0
Conforms defs authority writer e =
    IsPermitted defs e.cell e.value writer authority
    × (e.version ≡ version_of defs e.cell)
    × (e.origin ≡ origin writer)

-- Every event in the session's layer conforms.
abbrev pub IsConforming : Manager → WriteSession → Type 0
IsConforming m s = All (Conforms s.defs s.authority s.writer) (staged_events m s.handle.id)

-- A write into a staged layer changes that layer, or nothing.
with_staged-cases :
    {A : Type 0} (inner : Inner) (id : LayerId) (f : StagedLayer → StagedLayer) (a : A)
    → ((with_staged inner id f a).1 ≡ inner)
      ⊎ ((st : StagedLayer) × (get inner.staged id ≡ some st)
          × ((with_staged inner id f a).1
              ≡ record inner { staged = insert inner.staged id (f st) }))
unfolding with_staged staged
with_staged-cases inner id f a = elim (Option-cases (get inner.staged id)) [
  | inl gone ↦ inl (rw (staged, gone) refl)
  | inr (st, there) ↦ elim (Bool-cases st.sealed) [
    | inl shut ↦ inl (rw (staged, there) (rw shut refl))
    | inr is_open ↦ inr (st, there, rw (staged, there) (rw is_open refl))
  ]
]

put-events :
    (P : Event → Type 0) (m : Manager) (h : LayerHandle) (cell : CellRef) (draft : EventDraft)
    → All P (staged_events m h.id)
    → ((id : EventId) → P (event_from id h.id cell draft))
    → All P (staged_events (put m h cell draft).1 h.id)
unfolding put author_event staged_events
put-events P m h cell draft all new =
    let minted = (mint m.store).1 in
    let id = (mint m.store).0 in
    let f = with_event (event_from id h.id cell draft) in
    elim (with_staged-cases minted h.id f id) [
      | inl same ↦ rw same all
      | inr (st, there, is) ↦
          let now : get (insert m.store.staged h.id (f st)) h.id ≡ some (f st) =
            get-insert_self m.store.staged h.id (f st) in
          rw is (
            rw (events_of, now)
              (All-push P st.authored (event_from id h.id cell draft) (rw (events_of, there) at all)
                (new id)))
    ]

existence_permitted :
    (view : DefView) (cell : CellRef) (v : Value) (writer : Writer) (authority : DefView)
    (b : BufferId)
    → PermittedAt view cell v writer authority b
    → existence_in b cell ≢ cell
    → PermittedAt view
        (existence_in b cell)
        (Value.bool true)
        writer
        authority
        (existence_in b cell).buffer
unfolding existence_in declared accepts
existence_permitted view cell v writer authority (object_prop s f) (d, there, may, fits) other =
    elim (Option-cases (get view.objects s)) [
      | inl gone ↦ cc (rw (declared, gone) at there)
      | inr (o, found) ↦ (o, found, inr (true, refl))
    ]
existence_permitted view cell v writer authority (object s) p other = absurd (other refl)
existence_permitted view cell v writer authority (BufferId.list s) p other = absurd (other refl)
existence_permitted view cell v writer authority (BufferId.list_elem s) p other =
    absurd (other refl)
existence_permitted view cell v writer authority BufferId.any_object p other = absurd (other refl)
existence_permitted view cell v writer authority BufferId.any_array p other = absurd (other refl)

-- What a write into the layer leaves, where its event conforms.
put-IsConforming :
    (m : Manager) (s : WriteSession) (cell : CellRef) (v : Value) (derivation : Option Derivation)
    → IsConforming m s
    → IsPermitted s.defs cell v s.writer s.authority
    → IsConforming (put m s.handle cell (draft_of s cell v derivation)).1 s
put-IsConforming m s cell v derivation h allowed =
    put-events (Conforms s.defs s.authority s.writer) m s.handle cell (draft_of s cell v derivation)
      h (λ id. (allowed, refl, refl))

recorded-IsConforming :
    (s : WriteSession) (cell : CellRef) (r : Managed ℕ)
    → IsConforming r.1 s
    → IsConforming (recorded s cell r).1 (recorded s cell r).2
unfolding recorded
recorded-IsConforming s cell (err e, m) h = h
recorded-IsConforming s cell (ok id, m) h = h

noted-IsConforming :
    (writer : Writer) (s : WriteSession) (cell : CellRef) (r : Managed ℕ)
    → IsConforming r.1 s
    → IsConforming (noted writer s cell r).1 (noted writer s cell r).2
unfolding noted
noted-IsConforming client s cell r h = recorded-IsConforming s cell r h
noted-IsConforming (producer p) s cell (err e, m) h = h
noted-IsConforming (producer p) s cell (ok id, m) h = h

probed-IsConforming :
    (m : Manager) (s : WriteSession) (existence : CellRef) (found : Result (Option Landed))
    → IsConforming m s
    → IsPermitted s.defs existence (Value.bool true) s.writer s.authority
    → IsConforming (probed m s existence found).1 (probed m s existence found).2
unfolding probed
probed-IsConforming m s existence (err e) h allowed = h
probed-IsConforming m s existence (ok (some l)) h allowed = h
probed-IsConforming m s existence (ok none) h allowed =
    recorded-IsConforming s existence
      (put m s.handle existence (draft_of s existence (Value.bool true) none))
      (put-IsConforming m s existence (Value.bool true) none h allowed)

-- The session's own lists may grow, and nothing else.
SameRights : WriteSession → WriteSession → Type 0
SameRights s t =
    (t.defs ≡ s.defs) × (t.authority ≡ s.authority) × (t.writer ≡ s.writer) × (t.handle ≡ s.handle)

undecided :
    (x y : CellRef) (d : Dec (x ≡ y))
    → elim d as (λ _. Bool) [ yes _ ↦ true | no _ ↦ false ] ≡ false
    → x ≢ y
undecided x y (yes e) h = cc
undecided x y (no n) h = n

not_same : (b : Bool) (x y : CellRef) → (b || same x y) ≡ false → x ≢ y
not_same true x y h = cc
not_same false x y h = undecided x y (x ≟ y) h

imply-IsConforming :
    (m : Manager) (s : WriteSession) (cell : CellRef) (v : Value)
    → IsConforming m s
    → IsPermitted s.defs cell v s.writer s.authority
    → IsConforming
        (imply_for_client m s cell (existence_of cell)).1
        (imply_for_client m s cell (existence_of cell)).2
unfolding imply_for_client existence_of
imply-IsConforming m s cell v h allowed =
    elim (Bool-cases (contains s.touched (existence_of cell) || same (existence_of cell) cell)) [
      | inl there ↦ rw there h
      | inr absent ↦
          let other : existence_of cell ≢ cell =
            not_same (contains s.touched (existence_of cell)) (existence_of cell) cell absent in
          rw absent (
            probed-IsConforming m _ (existence_of cell) _ h
              (existence_permitted s.defs cell v s.writer s.authority cell.buffer allowed other))
    ]

recorded-SameRights :
    (s : WriteSession) (cell : CellRef) (r : Managed ℕ) → SameRights s (recorded s cell r).2
unfolding recorded SameRights
recorded-SameRights s cell (err e, m) = (refl, refl, refl, refl)
recorded-SameRights s cell (ok id, m) = (refl, refl, refl, refl)

probed-SameRights :
    (m : Manager) (s : WriteSession) (existence : CellRef) (found : Result (Option Landed))
    → SameRights s (probed m s existence found).2
unfolding probed recorded SameRights
probed-SameRights m s existence (err e) = (refl, refl, refl, refl)
probed-SameRights m s existence (ok (some l)) = (refl, refl, refl, refl)
probed-SameRights m s existence (ok none) =
    recorded-SameRights s existence
      (put m s.handle existence (draft_of s existence (Value.bool true) none))

imply-SameRights :
    (m : Manager) (s : WriteSession) (cell existence : CellRef)
    → SameRights s (imply_for_client m s cell existence).2
unfolding imply_for_client SameRights
imply-SameRights m s cell existence =
    elim (Bool-cases (contains s.touched existence || same existence cell)) [
      | inl there ↦ rw there (refl, refl, refl, refl)
      | inr absent ↦ rw absent (probed-SameRights m _ existence _)
    ]

-- The existence cell that a write implies, in the whole.
implied :
    (writer : Writer) (m : Manager) (s : WriteSession) (cell : CellRef) (v : Value)
    → IsConforming m s
    → IsPermitted s.defs cell v s.writer s.authority
    → IsConforming (imply_for writer m s cell).1 (imply_for writer m s cell).2
      × SameRights s (imply_for writer m s cell).2
unfolding imply_for SameRights
implied client m s cell v h allowed =
    (imply-IsConforming m s cell v h allowed, imply-SameRights m s cell (existence_of cell))
implied (producer p) m s cell v h allowed = (h, (refl, refl, refl, refl))

put_implied-IsConforming :
    (s : WriteSession) (cell : CellRef) (v : Value) (derivation : Option Derivation) (r : Written)
    → IsConforming r.1 r.2
    → SameRights s r.2
    → IsPermitted s.defs cell v s.writer s.authority
    → IsConforming (put_implied cell v derivation r).1 (put_implied cell v derivation r).2
unfolding put_implied SameRights
put_implied-IsConforming s cell v derivation (err e, m, t) h same allowed = h
put_implied-IsConforming s cell v derivation (ok done, m, t) h same allowed =
    noted-IsConforming t.writer t cell (put m t.handle cell (draft_of t cell v derivation))
      (put-IsConforming m t cell v derivation h (rw (same.0) (rw (same.1) (rw (same.2) allowed))))

-- Whatever a session's write returns, every event in the layer is one that the definitions permit
-- that writer, keyed at the version that the writer's own view gives the cell: the existence cells
-- that a client's writes imply included.
pub put_cell-IsConforming :
    (m : Manager) (s : WriteSession) (cell : CellRef) (v : Value) (derivation : Option Derivation)
    → IsConforming m s
    → IsConforming (put_cell m s cell v derivation).1 (put_cell m s cell v derivation).2
unfolding put_cell put_checked imply_existence
put_cell-IsConforming m s cell v derivation h =
    go (check_write s.defs cell v s.writer s.authority) refl
  where
    go :
        (checked : Result (Unit {0}))
        → check_write s.defs cell v s.writer s.authority ≡ checked
        → IsConforming
            (put_checked m s cell v derivation checked).1
            (put_checked m s cell v derivation checked).2
    go (err e) is = h
    go (ok tt) is =
        let allowed = (check_write-IsPermitted s.defs cell v s.writer s.authority).0 is in
        let (conforms, same) = implied s.writer m s cell v h allowed in
        put_implied-IsConforming s cell v derivation (imply_existence m s cell) conforms same
          allowed
