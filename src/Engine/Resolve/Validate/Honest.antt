-- ===== src/Engine/Resolve/Validate/Honest.antt =====
-- Validation on a sound store, with a turn for each record of its index.
use borg_core.Prelude.{
  ◌≡◌, ◌≢◌, inl, inr, some, Option-cases, List, [], ◌∷◌, In, In-append_left, In-append_right,
  In-map, refl, subst, length, nat_eq,
}
use borg_core.Prelude.Map.{Map, get}
use borg_core.Prelude.Unique.{In_of_get}
use borg_core.Core.Ids.{LayerId, EventId, DefVersion, BranchId}
use borg_core.Core.Cell.{CellRef, CellAt, Landed, cell_eq}
use borg_core.Core.Layer.{ReadPath}
use borg_core.Core.Error.{ok}
use borg_core.Engine.Resolve.Validate.{Composed, validated, records, cells_in, versions_in}
use borg_core.Engine.Resolve.Validate.Ends.{IsHonest, unreached-le-length, validate-Ends}
use borg_core.Storage.Memory.Index.{ReadIndex, History, landings, newest_at}
use borg_core.Storage.Memory.State.{Inner}
use borg_core.Storage.Memory.Provider.{get_cell, get_cell_from}
use borg_core.Storage.Memory.Sound.{IsSound}
use borg_core.Storage.Memory.Reading.{get_cell-Resolves}

abbrev at : CellRef → DefVersion → CellAt
at c v = record { cell = c; version = v }

cells_in-In :
    (cells : Map CellRef (Map DefVersion History)) (c : CellRef) (versions : Map DefVersion History)
    (r : CellAt)
    → In (c, versions) cells
    → In r (versions_in c versions)
    → In r (cells_in cells)
unfolding cells_in
cells_in-In ((d, ws) ∷ cells) c versions r (inl e) m =
    In-append_left (versions_in d ws) (cells_in cells) r
      (subst (λ (x : CellRef × Map DefVersion History). In r (versions_in x.0 x.1)) e m)
cells_in-In ((d, ws) ∷ cells) c versions r (inr there) m =
    In-append_right (versions_in d ws) (cells_in cells) r (cells_in-In cells c versions r there m)
cells_in-In [] c versions r there m = absurd there

records-In :
    (reads : ReadIndex) (b : BranchId) (cells : Map CellRef (Map DefVersion History)) (r : CellAt)
    → In (b, cells) reads
    → In r (cells_in cells)
    → In r (records reads)
unfolding records
records-In ((d, cs) ∷ reads) b cells r (inl e) m =
    In-append_left (cells_in cs) (records reads) r
      (subst (λ (x : BranchId × Map CellRef (Map DefVersion History)). In r (cells_in x.1)) e m)
records-In ((d, cs) ∷ reads) b cells r (inr there) m =
    In-append_right (cells_in cs) (records reads) r (records-In reads b cells r there m)
records-In [] b cells r there m = absurd there

landings-In :
    (reads : ReadIndex) (b : BranchId) (c : CellRef) (v : DefVersion)
    → landings reads b c v ≢ []
    → In (at c v) (records reads)
unfolding landings versions_in get
landings-In reads b c v there = elim (Option-cases (get reads b)) [
  | inl gone ↦ absurd (there (rw (landings, gone) refl))
  | inr (cells, own) ↦ elim (Option-cases (get cells c)) [
    | inl gone ↦ absurd (there (rw (landings, own) (rw gone refl)))
    | inr (versions, of_cell) ↦ elim (Option-cases (get versions v)) [
      | inl gone ↦ absurd (there (rw (landings, own) (rw of_cell (rw gone refl))))
      | inr (history, of_version) ↦
          records-In reads b cells (at c v) (In_of_get reads b cells own) (
            cells_in-In cells c versions (at c v) (In_of_get cells c versions of_cell) (
              (In-map (λ (e : DefVersion × History). at c e.0) versions (at c v)).1
                ((v, history), In_of_get versions v history of_version, refl)))
    ]
  ]
]

newest_at-some :
    (h : History) (bound : LayerId) (p : LayerId × EventId) → newest_at h bound ≡ some p → h ≢ []
unfolding newest_at
newest_at-some [] bound p e empty = cc (e)
newest_at-some (x ∷ xs) bound p e empty = cc

from_segments :
    (store : Inner) (segments : List (BranchId × LayerId)) (c : CellAt) (found : Landed)
    → get_cell_from store segments c.cell c.version ≡ ok (some found)
    → In c (records store.reads)
unfolding get_cell_from
from_segments store [] c found e = cc
from_segments store ((b, bound) ∷ segments) c found e =
    elim (Option-cases (newest_at (landings store.reads b c.cell c.version) bound)) [
      | inl gone ↦ from_segments store segments c found (rw (get_cell_from, gone) at e)
      | inr (p, own) ↦
          landings-In store.reads b c.cell c.version
            (newest_at-some (landings store.reads b c.cell c.version) bound p own)
    ]

get_cell-In :
    (store : Inner) (path : ReadPath) (c : CellAt) (found : Landed)
    → get_cell store path c.cell c.version ≡ ok (some found)
    → In c (records store.reads)
unfolding get_cell
get_cell-In store path c found e = from_segments store path.segments c found e

-- On a sound store validation ends, with no failure, whatever the chains of derived records behind
-- the read set; and its answer is the stored watermark, or a layer within the one asked for, and
-- then no dependency's record reflects anything past the stored watermark.
pub validated-IsHonest :
    (store : Inner) (path : ReadPath) (reads : List CellAt) (fresh target : LayerId)
    → IsSound store
    → (w : LayerId) × (composed : Composed) × (validated store path reads fresh target
        ≡ ok (w, composed))
      × IsHonest store path fresh target reads w
validated-IsHonest store path reads fresh target sound =
    let readable = λ (c : CellRef) (v : DefVersion). get_cell-Resolves store path c v sound in
    let (w, after, e, grows, honest) =
      validate-Ends store path (records store.reads) (λ c v. ((readable c v).0, (readable c v).1))
        (get_cell-In store path) (length (records store.reads)) target reads fresh []
        (unreached-le-length (records store.reads) []) in
    (w, after, e, honest)
