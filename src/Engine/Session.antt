-- ===== src/Engine/Session.antt =====
-- write.rs: an open layer that validates every write against the definitions in force.
pub mod Conforming
pub mod Runs
use borg_core.Prelude.{
  ℕ, Bool, true, false, Option, none, some, List, [], ◌∷◌, ◌||◌, if◌then◌else◌, same, push, add,
  contains,
}
use borg_core.Core.Ids.{BranchId, LayerId}
use borg_core.Core.Cell.{
  CellRef, CellAt, EventDraft, Derivation, Landed, Writer, client, producer, origin, existence_of,
  cell_eq,
}
use borg_core.Core.Value.{Value}
use borg_core.Core.Layer.{ReadPath, Guard, LayerAuthor, value}
use borg_core.Core.Error.{Result, ok, err, BorgError, ◌>>=◌}
use borg_core.Engine.Log.{
  Manager, Managed, LayerHandle, read_path, open_handle, put, commit, abort_layer, guard, ◌then_do◌,
}
use borg_core.Engine.Defs.{DefView, version_of}
use borg_core.Engine.Defs.Writes.{check_write}
use borg_core.Engine.Defs.Registry.{view, view_at}
use borg_core.Storage.Memory.Provider.{get_cell}

-- The manager that the source holds is passed along beside the session.
pub record WriteSession : Type 0 where
  pub defs : DefView
  pub authority : DefView
  pub path : ReadPath
  pub writer : Writer
  pub handle : LayerHandle
  pub touched : List CellRef
  pub observed : List CellAt
  pub authored : List CellRef

-- What an operation returns, and what it leaves, on every path.
abbrev pub Written : Type 0
Written = Result (Unit {0}) × Manager × WriteSession

-- The definitions at the writer's version, and those in force.
fold_both : Manager → ReadPath → LayerId → ReadPath → Result (ReadPath × DefView × DefView)
fold_both m def_path version path = view m def_path >>= λ authority.
    view_at m def_path version >>= λ defs. ok (path, authority, defs)

abbrev pub fresh_session : ReadPath → DefView → DefView → Writer → LayerHandle → WriteSession
fresh_session path authority defs writer handle = record {
  defs = defs;
  authority = authority;
  path = path;
  writer = writer;
  handle = handle;
  touched = [];
  observed = [];
  authored = [];
}

open_folded :
    Manager
    → BranchId
    → Writer
    → LayerAuthor
    → Result (ReadPath × DefView × DefView)
    → Managed WriteSession
open_folded m branch writer author (err e) = (err e, m)
open_folded m branch writer author (ok (path, authority, defs)) =
    open_handle m branch value author then_do λ handle m1.
    (ok (fresh_session path authority defs writer handle), m1)

-- A round's layer goes on its own branch; the definitions come from another.
unfoldable pub open_on :
    Manager → BranchId → BranchId → LayerId → Writer → LayerAuthor → Managed WriteSession
unfolding fold_both open_folded
open_on m branch definitions version writer author = open_folded m branch writer author (
    read_path m branch none >>= λ path.
    read_path m definitions none >>= λ def_path. fold_both m def_path version path)

abbrev pub open_session : Manager → BranchId → LayerId → Writer → LayerAuthor → Managed WriteSession
open_session m branch version writer author = open_on m branch branch version writer author

abbrev pub session_guard : WriteSession → Guard → WriteSession
session_guard s g = record s { handle = guard s.handle g }

abbrev pub draft_of : WriteSession → CellRef → Value → Option Derivation → EventDraft
draft_of s cell v derivation = record {
  value = v;
  version = version_of s.defs cell;
  origin = origin s.writer;
  derivation = derivation;
}

-- After a write into the layer: what a client authored is recorded.
recorded : WriteSession → CellRef → Managed ℕ → Written
recorded s cell (err e, m) = (err e, m, s)
recorded s cell (ok id, m) = (ok tt, m, record s { authored = push s.authored cell })

-- The probe's answer: the existence cell is written only where it is absent.
probed : Manager → WriteSession → CellRef → Result (Option Landed) → Written
unfolding recorded
probed m s existence (err e) = (err e, m, s)
probed m s existence (ok (some found)) = (ok tt, m, s)
probed m s existence (ok none) =
    recorded s existence (put m s.handle existence (draft_of s existence (Value.bool true) none))

-- The part for clients.
imply_for_client : Manager → WriteSession → CellRef → CellRef → Written
unfolding probed
imply_for_client m s cell existence =
    let marked = record s { touched = add s.touched existence } in
    let at : CellAt = record { cell = existence; version = version_of s.defs existence } in
    let seen = record marked { observed = push s.observed at } in
    if contains s.touched existence || same existence cell
    then (ok tt, m, marked)
    else probed m seen existence (get_cell m.store s.path existence at.version)

imply_for : Writer → Manager → WriteSession → CellRef → Written
unfolding imply_for_client
imply_for client m s cell = imply_for_client m s cell (existence_of cell)
imply_for (producer p) m s cell = (ok tt, m, s)

-- Writing a property implies that the object exists: client writes only.
unfoldable pub imply_existence : Manager → WriteSession → CellRef → Written
unfolding imply_for
imply_existence m s cell = imply_for s.writer m s cell

noted : Writer → WriteSession → CellRef → Managed ℕ → Written
unfolding recorded
noted client s cell r = recorded s cell r
noted (producer p) s cell (err e, m) = (err e, m, s)
noted (producer p) s cell (ok id, m) = (ok tt, m, s)

put_implied : CellRef → Value → Option Derivation → Written → Written
unfolding noted
put_implied cell v derivation (err e, m, s) = (err e, m, s)
put_implied cell v derivation (ok done, m, s) =
    noted s.writer s cell (put m s.handle cell (draft_of s cell v derivation))

put_checked :
    Manager → WriteSession → CellRef → Value → Option Derivation → Result (Unit {0}) → Written
unfolding put_implied
put_checked m s cell v derivation (err e) = (err e, m, s)
put_checked m s cell v derivation (ok permitted) =
    put_implied cell v derivation (imply_existence m s cell)

-- The single validated write, `WriteSession::put`.
unfoldable pub put_cell : Manager → WriteSession → CellRef → Value → Option Derivation → Written
unfolding put_checked
put_cell m s cell v derivation =
    put_checked m s cell v derivation (check_write s.defs cell v s.writer s.authority)

abbrev pub set_cell : Manager → WriteSession → CellRef → Value → Written
set_cell m s cell v = put_cell m s cell v none

abbrev pub set_derived : Manager → WriteSession → CellRef → Value → Derivation → Written
set_derived m s cell v derivation = put_cell m s cell v (some derivation)

abbrev pub commit_session : Manager → WriteSession → Managed LayerId
commit_session m s = commit m s.handle

abbrev pub abort_session : Manager → WriteSession → Managed Unit
abort_session m s = abort_layer m s.handle
