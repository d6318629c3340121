-- ===== src/Engine/Branch/Tree/Forks.antt =====
-- A fork keeps the branches a forest.
use borg_core.Prelude.{ℕ, ◌+◌, ◌<◌, ◌%◌, ◌≡◌, ◌≢◌, true, Option, none, some, arith, refl, sym, ap}
use borg_core.Prelude.{String, subst, ◌∙◌, Option-cases, inl, inr, nat_eq, ◌≟◌}
use borg_core.Prelude.Map.{get, get-insert_self, get-insert_ne}
use borg_core.Core.Ids.{BranchId, LayerId}
use borg_core.Core.Layer.{Layer, Branch}
use borg_core.Core.Error.{ok}
use borg_core.Engine.Log.{forks_at, register_branch}
use borg_core.Engine.Log.Reading.Ancestry.{IsForest, forks_at-origin, forks_at-ext}
use borg_core.Engine.Branch.Tree.{
  Branches, fork, fork_found, created, next_branch, next_from, is_unused, is_none, persist,
}
use borg_core.Storage.Memory.State.{u64_mod}

-- Every branch that the log knows of has an id below the counter.
pub record IsAllotted (s : Branches) : Type 0 where
  pub forest : IsForest s.log
  pub rows : (b : BranchId) (r : Branch) → get s.log.branches b ≡ some r → b < s.next_id
  pub heads : (b : BranchId) (h : LayerId) → get s.log.heads b ≡ some h → b < s.next_id
  pub layers : (id : LayerId) (l : Layer) → get s.log.layers id ≡ some l → l.branch < s.next_id
  pub room : s.next_id < u64_mod

is_none_of : {A : Type 0} (o : Option A) → ((a : A) → o ≡ some a → ⊥) → is_none o ≡ true
is_none_of none f = refl
is_none_of (some a) f = absurd (f a refl)

next_branch-next :
    (s : Branches) → IsAllotted s → next_branch s ≡ ok (s.next_id, (s.next_id + 1) % u64_mod)
unfolding next_branch next_from is_unused
next_branch-next s h =
    rw
      (
        is_none_of (get s.log.branches s.next_id) (λ r e. bad (h.rows s.next_id r e)),
        is_none_of (get s.log.heads s.next_id) (λ l e. bad (h.heads s.next_id l e)),
      )
      refl
  where
    bad : s.next_id < s.next_id → ⊥
    bad lt = omega (arith, lt)

-- The new branch of a fork.
abbrev pub forked_row : Branches → LayerId → Option String → Branch
forked_row s at name = record { id = s.next_id; name = name; origin = some at }

forks_at-new :
    (s : Branches) (at : LayerId) (name : Option String) (l : Layer)
    → get s.log.layers at ≡ some l
    → forks_at (persist s.log (forked_row s at name)) s.next_id ≡ some (at, l.branch)
unfolding persist register_branch
forks_at-new s at name l e =
    forks_at-origin (persist s.log (forked_row s at name)) s.next_id (forked_row s at name) at l
      (get-insert_self s.log.branches s.next_id (forked_row s at name)) refl e

forks_at-old :
    (s : Branches) (at : LayerId) (name : Option String) (b : BranchId)
    → s.next_id ≢ b
    → forks_at (persist s.log (forked_row s at name)) b ≡ forks_at s.log b
unfolding persist register_branch
forks_at-old s at name b n =
    forks_at-ext (persist s.log (forked_row s at name)) s.log b
      (get-insert_ne s.log.branches s.next_id b (forked_row s at name) n) refl

wraps : (n : ℕ) → n + 1 < u64_mod → (n + 1) % u64_mod ≡ n + 1
wraps n h = omega (arith, h)

forked-IsAllotted :
    (s : Branches) (at : LayerId) (name : Option String) (l : Layer)
    → IsAllotted s
    → get s.log.layers at ≡ some l
    → s.next_id + 1 < u64_mod
    → IsAllotted
        (record { log = persist s.log (forked_row s at name); next_id = (s.next_id + 1) % u64_mod })
unfolding persist register_branch
forked-IsAllotted s at name l h e room = rw (wraps s.next_id room) (record {
  forest = λ b parent origin f. elim (s.next_id ≟ b) [
    | yes p ↦ new_parent b parent origin p (
        sym (
          subst (λ c. forks_at (persist s.log (forked_row s at name)) c ≡ some (at, l.branch)) p
            (forks_at-new s at name l e))
        ∙ f)
    | no n ↦ h.forest b parent origin (sym (forks_at-old s at name b n) ∙ f)
  ];
  rows = λ b r f. elim (s.next_id ≟ b) [
    | yes p ↦ omega (arith, p)
    | no n ↦
        let old =
          h.rows b r
            (sym (get-insert_ne s.log.branches s.next_id b (forked_row s at name) n) ∙ f) in
        omega (arith, old)
  ];
  heads = λ b x f. let old = h.heads b x f in omega (arith, old);
  layers = λ id k f. let old = h.layers id k f in omega (arith, old);
  room = room;
})
  where
    new_parent :
        (b parent : BranchId) (origin : LayerId)
        → s.next_id ≡ b
        → ◌≡◌ {A = Option (LayerId × BranchId)} (some (at, l.branch)) (some (origin, parent))
        → parent < b
    new_parent b parent origin p f = let old = h.layers at l e in ground (arith, p, f, old)

-- Where the branches are a forest below the counter, which has room, forking at a layer of the
-- parent hands out the counter's id, which no branch had; the parent of
-- the new branch is the one that was forked, and the branches remain a forest below the counter.
pub fork-IsAllotted :
    (s : Branches) (parent : BranchId) (at : LayerId) (name : Option String) (l : Layer)
    → IsAllotted s
    → get s.log.layers at ≡ some l
    → l.branch ≡ parent
    → s.next_id + 1 < u64_mod
    → (t : Branches) × (fork s parent at name ≡ (ok s.next_id, t))
      × (get s.log.branches s.next_id ≡ none)
      × (forks_at t.log s.next_id ≡ some (at, parent))
      × IsAllotted t
unfolding fork fork_found created
fork-IsAllotted s parent at name l h e p room = (
  record { log = persist s.log (forked_row s at name); next_id = (s.next_id + 1) % u64_mod },
  rw (e, next_branch-next s h) (ground (arith, p)),
  elim (Option-cases (get s.log.branches s.next_id)) [
    | inl n ↦ n
    | inr (r, q) ↦ absurd (bad (h.rows s.next_id r q))
  ],
  forks_at-new s at name l e ∙ ap (λ b. some (at, b)) p,
  forked-IsAllotted s at name l h e room,
)
  where
    bad : s.next_id < s.next_id → ⊥
    bad lt = omega (arith, lt)
