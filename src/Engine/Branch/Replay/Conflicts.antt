-- ===== src/Engine/Branch/Replay/Conflicts.antt =====
-- A client's transaction against what its parent has done since the fork.
use borg_core.Prelude.{
  ◌≡◌, Option, none, some, ◌∷◌, In-append_right, refl, sym, In, All-at, inl, subst,
}
use borg_core.Core.Ids.{LayerId}
use borg_core.Core.Cell.{CellRef}
use borg_core.Core.Layer.{ReadPath, MergeMode}
use borg_core.Core.Transaction
use borg_core.Core.Error.{ok, err, merge_rejected, guard_conflict}
use borg_core.Engine.Log.{Manager, read_path, check_reads, check_touched}
use borg_core.Engine.Touch.{first_touched_since}
use borg_core.Engine.Touch.Lookup.{
  TouchedOn, Untouched, FirstTouched, first_touched_since-FirstTouched,
}
use borg_core.Engine.Branch.Replay.{rejection, rejecting, checked, replay, merge_transaction}

-- A reads check that fails rejects the merge, and nothing has been written.
refused :
    (m : Manager) (t : Transaction.Transaction) (mode : MergeMode) (path : ReadPath)
    (f : CellRef × LayerId)
    → read_path m t.parent none ≡ ok path
    → first_touched_since m.touches path (Transaction.guards t) t.fork_point ≡ some f
    → merge_transaction m t mode ≡ (err (merge_rejected (guard_conflict f.0)), m)
unfolding merge_transaction replay checked rejecting rejection check_reads check_touched
refused m t mode path f p e = rw (p, e) refl

-- A transaction that read a cell which a layer of the parent's path has touched since the fork
-- point is rejected: the conflict names a cell that it read, and nothing is changed.
pub merge_transaction-conflict :
    (m : Manager) (t : Transaction.Transaction) (mode : MergeMode) (path : ReadPath) (c : CellRef)
    (l : LayerId)
    → read_path m t.parent none ≡ ok path
    → In c (Transaction.guards t)
    → TouchedOn m.touches path.segments c t.fork_point l
    → (d : CellRef) × In d (Transaction.guards t)
      × (merge_transaction m t mode ≡ (err (merge_rejected (guard_conflict d)), m))
merge_transaction-conflict m t mode path c l p i touched =
    let cells = Transaction.guards t in
    go (first_touched_since m.touches path cells t.fork_point) refl
      (first_touched_since-FirstTouched m.touches path cells t.fork_point)
  where
    go :
        (o : Option (CellRef × LayerId))
        → first_touched_since m.touches path (Transaction.guards t) t.fork_point ≡ o
        → FirstTouched m.touches path t.fork_point (Transaction.guards t) o
        → (d : CellRef) × In d (Transaction.guards t)
          × (merge_transaction m t mode ≡ (err (merge_rejected (guard_conflict d)), m))
    go none e h =
        absurd
          (All-at (Untouched m.touches path t.fork_point) (Transaction.guards t) c h i l touched)
    go (some (d, at)) e h = (
      d,
      subst (λ cells. In d cells) (sym h.2) (In-append_right h.0 (d ∷ h.1) d (inl refl)),
      refused m t mode path (d, at) p e,
    )
