-- ===== src/Engine/Log/Reading/Ancestry.antt =====
-- `read_path` follows the forks to the root.
use borg_core.Prelude.{
  ℕ, zero, suc, ◌+◌, ◌≤◌, ◌<◌, ◌≡◌, Option, none, some, List, [], ◌∷◌, ◌≢◌, arith, refl, ap, ◌∙◌,
  ite, ◌≟◌, ◌⊎◌, min, sym, subst, some_inj,
}
use borg_core.Prelude.{length, if◌then◌else◌, Option-cases, inl, inr, nat_eq, leb}
use native.Mathlib.Decide.{dec_le}
use borg_core.Prelude.Map.{Map, get}
use borg_core.Core.Ids.{BranchId, LayerId}
use borg_core.Core.Layer.{Layer, Branch, ReadPath}
use borg_core.Core.Error.{ok}
use borg_core.Engine.Log.State.{Manager, head}
use borg_core.Engine.Log.Reading.{
  forks_at, clamp, segments_from, read_path, starting_at, origin_in, branch_origin, layer_branch,
}

-- Where a registered branch forks: its origin, and the branch that the origin's layer is on.
pub record IsFork (m : Manager) (b : BranchId) (origin : LayerId) (parent : BranchId) : Type 0 where
  pub registered : Branch
  pub at_layer : Layer
  pub is_registered : get m.branches b ≡ some registered
  pub from_origin : registered.origin ≡ some origin
  pub is_known : get m.layers origin ≡ some at_layer
  pub on_parent : at_layer.branch ≡ parent

-- The highest layer that is no higher than the fork point, nor than the layer that was asked for.
abbrev pub IsBound : Option LayerId → LayerId → LayerId → Type 0
IsBound none origin bound = bound ≡ origin
IsBound (some requested) origin bound =
    (bound ≤ requested) × (bound ≤ origin) × ((bound ≡ requested) ⊎ (bound ≡ origin))

-- The layer that was asked for, or the branch's head, or 0 on a branch without a layer.
abbrev pub IsStart : Option LayerId → Option LayerId → LayerId → Type 0
IsStart (some requested) head bound = bound ≡ requested
IsStart none (some head) bound = bound ≡ head
IsStart none none bound = bound ≡ 0

-- The segments from a branch to its root, each ancestor bounded at the fork point.
pub data Ancestry (m : Manager) (requested : Option LayerId)
    : BranchId → LayerId → List (BranchId × LayerId) → Type 0 where
  root :
      {b : BranchId} {bound : LayerId}
      → ((origin : LayerId) (parent : BranchId) → IsFork m b origin parent → ⊥)
      → Ancestry m requested b bound ((b, bound) ∷ [])
  forked :
      {b parent : BranchId} {bound origin above : LayerId} {rest : List (BranchId × LayerId)}
      → IsFork m b origin parent
      → IsBound requested origin above
      → Ancestry m requested parent above rest
      → Ancestry m requested b bound ((b, bound) ∷ rest)

clamp-IsBound :
    (requested : Option LayerId) (origin : LayerId)
    → IsBound requested origin (clamp requested origin)
unfolding clamp
clamp-IsBound none origin = refl
clamp-IsBound (some requested) origin = (omega arith, omega arith, least (dec_le requested origin))
  where
    least :
        Dec (requested ≤ origin)
        → (min requested origin ≡ requested) ⊎ (min requested origin ≡ origin)
    least (yes le) = inl (omega (arith, le))
    least (no gt) = inr (omega (arith, gt))

starting_at-IsStart :
    (requested head : Option LayerId) → IsStart requested head (starting_at requested head)
unfolding starting_at
starting_at-IsStart (some requested) head = refl
starting_at-IsStart none (some head) = refl
starting_at-IsStart none none = refl

-- Every branch forks from one with a lower id, as ids are handed out in order.
abbrev pub IsForest : Manager → Type 0
IsForest m =
    (b parent : BranchId) (origin : LayerId) → forks_at m b ≡ some (origin, parent) → parent < b

-- The registered branches up to an id.
below : Map BranchId Branch → BranchId → ℕ
below [] b = 0
below ((k, r) ∷ m) b = (if leb k b then 1 else 0) + below m b

below-length : (m : Map BranchId Branch) (b : BranchId) → below m b ≤ length m
unfolding below
below-length [] b = omega arith
below-length ((k, r) ∷ m) b = ground (arith, below-length m b)

below_mono : (m : Map BranchId Branch) (a b : BranchId) → a ≤ b → below m a ≤ below m b
unfolding below
below_mono [] a b le = omega arith
below_mono ((k, r) ∷ m) a b le = ground (arith, below_mono m a b le)

below_lt :
    (m : Map BranchId Branch) (a b : BranchId) (r : Branch)
    → get m b ≡ some r
    → a < b
    → below m a < below m b
unfolding below get
below_lt [] a b r e lt = cc
below_lt ((k, q) ∷ m) a b r e lt = elim (k ≟ b) [
  | yes p ↦ ground (arith, p, below_mono m a b (omega (arith, lt)))
  | no n ↦ ground (arith, below_lt m a b r (if_neg_get n e) lt)
]
  where
    if_neg_get : k ≢ b → ite (k ≟ b) (some q) (get m b) ≡ some r → get m b ≡ some r
    if_neg_get n h = ground (arith, n, h)

pub forks_at-origin :
    (m : Manager) (b : BranchId) (r : Branch) (at : LayerId) (l : Layer)
    → get m.branches b ≡ some r
    → r.origin ≡ some at
    → get m.layers at ≡ some l
    → forks_at m b ≡ some (at, l.branch)
unfolding forks_at origin_in layer_branch branch_origin
forks_at-origin m b r at l e o f = rw (e, o, f) refl

pub forks_at-ext :
    (m n : Manager) (b : BranchId)
    → get m.branches b ≡ get n.branches b
    → m.layers ≡ n.layers
    → forks_at m b ≡ forks_at n b
unfolding forks_at
forks_at-ext m n b e f =
    ap (λ o. origin_in m.layers (branch_origin o)) e
    ∙ ap (λ ls. origin_in ls (branch_origin (get n.branches b))) f

forks-registered :
    (m : Manager) (b : BranchId) (f : LayerId × BranchId)
    → forks_at m b ≡ some f
    → (r : Branch) × (get m.branches b ≡ some r)
unfolding forks_at origin_in branch_origin
forks-registered m b f e = elim (Option-cases (get m.branches b)) [
  | inl n ↦ cc (e, ap (λ o. origin_in m.layers (branch_origin o)) n)
  | inr (r, p) ↦ (r, p)
]

-- What `forks_at` finds is a fork, and it finds every fork.
forks_at-IsFork :
    (m : Manager) (b parent : BranchId) (origin : LayerId)
    → forks_at m b ≡ some (origin, parent)
    → IsFork m b origin parent
unfolding forks_at origin_in layer_branch branch_origin
forks_at-IsFork m b parent origin e = elim (Option-cases (get m.branches b)) [
  | inl n ↦ cc (e, ap (λ o. origin_in m.layers (branch_origin o)) n)
  | inr (r, p) ↦
      let of_branch : forks_at m b ≡ origin_in m.layers r.origin =
        ap (λ o. origin_in m.layers (branch_origin o)) p in
      elim (Option-cases r.origin) [
        | inl n ↦ cc (e, of_branch, ap (origin_in m.layers) n)
        | inr (at, o) ↦
            let of_layer : forks_at m b ≡ layer_branch at (get m.layers at) =
              of_branch ∙ ap (origin_in m.layers) o in
            elim (Option-cases (get m.layers at)) [
              | inl n ↦ cc (e, of_layer, ap (layer_branch at) n)
              | inr (l, f) ↦
                  let is = some_inj (sym (of_layer ∙ ap (layer_branch at) f) ∙ e) in
                  record {
                    registered = r;
                    at_layer = l;
                    is_registered = p;
                    from_origin = o ∙ ap (λ (x : LayerId × BranchId). some x.0) is;
                    is_known =
                        subst (λ x. get m.layers x ≡ some l)
                          (ap (λ (x : LayerId × BranchId). x.0) is) f;
                    on_parent = ap (λ (x : LayerId × BranchId). x.1) is;
                  }
            ]
      ]
]

IsFork-forks_at :
    (m : Manager) (b parent : BranchId) (origin : LayerId)
    → IsFork m b origin parent
    → forks_at m b ≡ some (origin, parent)
IsFork-forks_at m b parent origin f =
    forks_at-origin m b f.registered origin f.at_layer f.is_registered f.from_origin f.is_known
    ∙ ap (λ p. some (origin, p)) f.on_parent

segments_from-Ancestry :
    (fuel : ℕ) (m : Manager) (requested : Option LayerId) (b : BranchId) (bound : LayerId)
    → IsForest m
    → below m.branches b < fuel
    → (segments : List (BranchId × LayerId)) × (segments_from fuel m requested b bound
        ≡ ok segments)
      × Ancestry m requested b bound segments
unfolding segments_from
segments_from-Ancestry zero m requested b bound forest lt = absurd (bad lt)
  where
    bad : below m.branches b < 0 → ⊥
    bad h = omega (arith, h)
segments_from-Ancestry (suc fuel) m requested b bound forest lt =
    elim (Option-cases (forks_at m b)) [
      | inl e ↦
          rw (segments_from, e)
            (
              (b, bound) ∷ [],
              refl,
              root (λ origin parent f. cc (e, IsFork-forks_at m b parent origin f)),
            )
      | inr ((origin, parent), e) ↦
          let (r, found) = forks-registered m b (origin, parent) e in
          let (rest, done, chain) =
            segments_from-Ancestry fuel m requested parent (clamp requested origin) forest (
              omega (arith, lt, below_lt m.branches parent b r found (forest b parent origin e))) in
          rw (segments_from, e, done)
            (
              (b, bound) ∷ rest,
              refl,
              forked (forks_at-IsFork m b parent origin e) (clamp-IsBound requested origin) chain,
            )
    ]

-- In a forest of branches `read_path` ends, and is the branch at the layer that was asked for, or at
-- its head, and then its ancestors, each at its fork point or at the layer that was asked for,
-- whichever is lower.
pub read_path-Ancestry :
    (m : Manager) (b : BranchId) (requested : Option LayerId)
    → IsForest m
    → (path : ReadPath) × (bound : LayerId) × (read_path m b requested ≡ ok path)
      × IsStart requested (get m.heads b) bound
      × Ancestry m requested b bound path.segments
unfolding read_path
read_path-Ancestry m b requested forest =
    let bound = starting_at requested (head m b) in
    let (segments, done, chain) =
      segments_from-Ancestry (suc (length m.branches)) m requested b bound forest
        (omega (arith, below-length m.branches b)) in
    rw done
      (record { segments = segments }, bound, refl, starting_at-IsStart requested (head m b), chain)
