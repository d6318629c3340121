-- ===== src/Engine/Log/Lifecycle/Touched.antt =====
-- A commit whose guards name a cell that has been touched.
use borg_core.Prelude.{
  ◌≡◌, ◌≢◌, none, some, Option-cases, List, [], ◌∷◌, In, All-at, inl, inr, refl, subst, ◌∙◌, nat_eq,
  arith,
}
use borg_core.Prelude.Map.{get, insert, get-remove, get-insert_self, get-insert_ne}
use borg_core.Core.Ids.{BranchId, LayerId}
use borg_core.Core.Cell.{CellRef}
use borg_core.Core.Layer.{Layer, Guard, ReadPath, open', sealed, aborted}
use borg_core.Core.Error.{Result, ok, err, BorgError, guard_violated, ◌>>◌}
use borg_core.Engine.Touch.{first_touched_since}
use borg_core.Engine.Touch.Lookup.{
  TouchedOn, Untouched, FirstTouched, first_touched_since-FirstTouched,
}
use borg_core.Engine.Log.State.{Manager}
use borg_core.Engine.Log.Reading.{read_path}
use borg_core.Engine.Log.Reading.Restated.{read_path-restated}
use borg_core.Engine.Log.Guarding.{check_guards, check_each, check_touched, refuse_derived}
use borg_core.Engine.Log.Lifecycle.{LayerHandle, commit}
use borg_core.Engine.Log.Lifecycle.Transitions.{moved, Rejected, commit-rejected}

abbrev Fails : Result (Unit {0}) → Type 0
Fails r = (e : BorgError) × (r ≡ err e)

first-Fails : (a b : Result (Unit {0})) → Fails a → Fails (a >> b)
first-Fails (err e) b h = (e, refl)
first-Fails (ok done) b h = cc (h.1)

second-Fails : (a b : Result (Unit {0})) → Fails b → Fails (a >> b)
second-Fails (err e) b h = (e, refl)
second-Fails (ok done) b h = h

check_touched-Fails :
    (m : Manager) (path : ReadPath) (cells : List CellRef) (since : LayerId) (c : CellRef)
    (at : LayerId)
    → In c cells
    → TouchedOn m.touches path.segments c since at
    → Fails (check_touched m path cells since)
unfolding check_touched
check_touched-Fails m path cells since c at i touched =
    elim (Option-cases (first_touched_since m.touches path cells since)) [
      | inl none_found ↦ absurd (
          All-at (Untouched m.touches path since) cells c
            (subst (FirstTouched m.touches path since cells) none_found
              (first_touched_since-FirstTouched m.touches path cells since))
            i at touched)
      | inr (f, e) ↦ rw (check_touched, e) (guard_violated f.0 since f.1, refl)
    ]

check_each-Fails :
    (m : Manager) (path : ReadPath) (guards : List Guard) (g : Guard) (c : CellRef) (at : LayerId)
    → In g guards
    → In c g.cells
    → TouchedOn m.touches path.segments c g.since at
    → Fails (check_each m path guards none)
unfolding check_each
check_each-Fails m path [] g c at i j touched = absurd i
check_each-Fails m path (k ∷ guards) g c at (inl here) j touched =
    first-Fails (refuse_derived m path k.cells >> check_touched m path k.cells k.since)
      (check_each m path guards none)
      (second-Fails (refuse_derived m path k.cells) (check_touched m path k.cells k.since) (
        check_touched-Fails m path k.cells k.since c at (subst (λ (x : Guard). In c x.cells) here j)
          (subst (λ (x : Guard). TouchedOn m.touches path.segments c x.since at) here touched)))
check_each-Fails m path (k ∷ guards) g c at (inr there) j touched =
    second-Fails (refuse_derived m path k.cells >> check_touched m path k.cells k.since)
      (check_each m path guards none) (check_each-Fails m path guards g c at there j touched)

check_guards-Fails :
    (m : Manager) (b : BranchId) (path : ReadPath) (guards : List Guard) (g : Guard) (c : CellRef)
    (at : LayerId)
    → read_path m b none ≡ ok path
    → In g guards
    → In c g.cells
    → TouchedOn m.touches path.segments c g.since at
    → Fails (check_guards m b guards none)
unfolding check_guards
check_guards-Fails m b path [] g c at p i j touched = absurd i
check_guards-Fails m b path (k ∷ guards) g c at p i j touched =
    rw p (check_each-Fails m path (k ∷ guards) g c at i j touched)

-- What a rejected commit leaves behind.
pub record IsRejected (m n : Manager) (id : LayerId) (l : Layer) : Type 0 where
  pub is_aborted : get n.layers id ≡ some (record l { state = aborted })
  pub others : (k : LayerId) → id ≢ k → get n.layers k ≡ get m.layers k
  pub is_dropped : get n.store.staged id ≡ none
  pub others_staged : (k : LayerId) → id ≢ k → get n.store.staged k ≡ get m.store.staged k
  pub events : n.store.events ≡ m.store.events
  pub members : n.store.members ≡ m.store.members
  pub reads : n.store.reads ≡ m.store.reads
  pub heads : n.heads ≡ m.heads
  pub touches : n.touches ≡ m.touches
  pub branches : n.branches ≡ m.branches

Rejected-IsRejected :
    (m : Manager) (h : LayerHandle) (l : Layer) → IsRejected m (Rejected m h l) h.id l
Rejected-IsRejected m h l =
    let sealing = insert m.layers h.id (record l { state = sealed }) in
    record {
      is_aborted = get-insert_self sealing h.id (record l { state = aborted });
      others = λ k other.
          get-insert_ne sealing h.id k (record l { state = aborted }) other
          ∙ get-insert_ne m.layers h.id k (record l { state = sealed }) other;
      is_dropped = ground (arith, get-remove m.store.staged h.id h.id);
      others_staged = λ k other. ground (arith, other, get-remove m.store.staged h.id k);
      events = refl;
      members = refl;
      reads = refl;
      heads = refl;
      touches = refl;
      branches = refl;
    }

-- A commit of an open layer of which some guard names a cell that a layer on the branch's path has
-- touched since the guard's layer returns an error, whatever the other guards are: the layer is
-- aborted and what it staged is dropped, and every other layer and what it staged, the events, the
-- memberships, the read index, the heads, the touch index and the branches are as they were.
pub commit-IsRejected :
    (m : Manager) (h : LayerHandle) (l : Layer) (path : ReadPath) (g : Guard) (c : CellRef)
    (at : LayerId)
    → get m.layers h.id ≡ some l
    → l.state ≡ open'
    → read_path m h.branch none ≡ ok path
    → In g h.guards
    → In c g.cells
    → TouchedOn m.touches path.segments c g.since at
    → (e : BorgError) × (n : Manager) × (commit m h ≡ (err e, n)) × IsRejected m n h.id l
commit-IsRejected m h l path g c at found is_open p i j touched =
    let same_path =
      read_path-restated m h.id l (record l { state = sealed }) h.branch none found refl in
    let (e, fails) =
      check_guards-Fails (moved m h.id l sealed) h.branch path h.guards g c at (same_path ∙ p) i j
        touched in
    (e, Rejected m h l, commit-rejected m h l e found is_open fails, Rejected-IsRejected m h l)
