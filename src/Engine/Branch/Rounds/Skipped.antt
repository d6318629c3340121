-- ===== src/Engine/Branch/Rounds/Skipped.antt =====
-- A quiet parent: the guards of a round need not be built.
use borg_core.Prelude.{◌≡◌, false, none, List, [], ◌∷◌, refl, Bool-cases, inl, inr, All}
use borg_core.Core.Ids.{BranchId, LayerId}
use borg_core.Core.Cell.{CellRef}
use borg_core.Core.Layer.{ReadPath}
use borg_core.Core.Round
use borg_core.Core.Error.{ok}
use borg_core.Engine.Log.{Manager, read_path, check_reads, check_touched, touched_since}
use borg_core.Engine.Touch.{moved_since}
use borg_core.Engine.Touch.Quiet.{IsCovered, IsSettled, first_touched_since-moved_since}
use borg_core.Engine.Branch.Rounds.{violations, violated, stale}

violations-quiet :
    (m : Manager) (b : BranchId) (since : LayerId) (path : ReadPath)
    (gs : List (LayerId × List CellRef))
    → read_path m b none ≡ ok path
    → IsCovered m.touches
    → All (IsSettled m.touches since) path.segments
    → moved_since m.touches path since ≡ false
    → violations m b since gs ≡ []
unfolding violations violated check_reads check_touched
violations-quiet m b since path [] p c s q = refl
violations-quiet m b since path ((layer, cells) ∷ gs) p c s q =
    rw (p, first_touched_since-moved_since m.touches path since cells c s q)
      (violations-quiet m b since path gs p c s q)

-- On a covered index, where the parent's path is settled at the fork point, asking first whether
-- the parent has moved at all changes no verdict: with or without it, the invocations that a
-- round's merge finds stale are those whose guards fail.
pub stale-violations :
    (m : Manager) (round : Round.Round) (path : ReadPath)
    → read_path m round.parent none ≡ ok path
    → IsCovered m.touches
    → All (IsSettled m.touches round.fork_point) path.segments
    → stale m round ≡ ok (violations m round.parent round.fork_point (Round.guards round))
unfolding stale touched_since
stale-violations m round path p c s =
    elim (Bool-cases (moved_since m.touches path round.fork_point)) [
      | inl t ↦ rw (p, t) refl
      | inr q ↦
          rw
            (
              p,
              q,
              violations-quiet m round.parent round.fork_point path (Round.guards round) p c s q,
            )
            refl
    ]
