-- ===== src/Engine/Log/Reading/Restated.antt =====
-- A read path looks at no more of a layer than its branch.
use borg_core.Prelude.{
  ℕ, zero, suc, ◌≡◌, Option, none, some, Option-cases, inl, inr, ◌∷◌, length, refl, sym, ap, ◌∙◌,
  ◌≟◌, nat_eq,
}
use borg_core.Prelude.Map.{get, insert, get-insert_self, get-insert_ne}
use borg_core.Core.Ids.{BranchId, LayerId}
use borg_core.Core.Layer.{Layer}
use borg_core.Core.Error.{ok, ◌>>=◌}
use borg_core.Engine.Log.State.{Manager, head}
use borg_core.Engine.Log.Reading.{
  read_path, segments_from, forks_at, clamp, origin_in, layer_branch, branch_origin, starting_at,
}

-- The manager with a layer's record replaced.
abbrev pub restated : Manager → LayerId → Layer → Manager
restated m id l = record m { layers = insert m.layers id l }

layer_branch-restated :
    (m : Manager) (id : LayerId) (l k : Layer) (origin : Option LayerId)
    → get m.layers id ≡ some l
    → k.branch ≡ l.branch
    → origin_in (restated m id k).layers origin ≡ origin_in m.layers origin
unfolding origin_in layer_branch
layer_branch-restated m id l k none e same = refl
layer_branch-restated m id l k (some at) e same = elim (id ≟ at) [
  | yes here ↦
      ap (layer_branch at)
        (ap (get (restated m id k).layers) (sym here) ∙ get-insert_self m.layers id k)
      ∙ ap (λ b. some (at, b)) same
      ∙ sym (ap (layer_branch at) (ap (get m.layers) (sym here) ∙ e))
  | no other ↦ ap (layer_branch at) (get-insert_ne m.layers id at k other)
]

forks_at-restated :
    (m : Manager) (id : LayerId) (l k : Layer) (b : BranchId)
    → get m.layers id ≡ some l
    → k.branch ≡ l.branch
    → forks_at (restated m id k) b ≡ forks_at m b
unfolding forks_at
forks_at-restated m id l k b e same =
    layer_branch-restated m id l k (branch_origin (get m.branches b)) e same

segments_from-ext :
    (fuel : ℕ) (m n : Manager) (requested : Option LayerId) (b : BranchId) (bound : LayerId)
    → ((c : BranchId) → forks_at m c ≡ forks_at n c)
    → segments_from fuel m requested b bound ≡ segments_from fuel n requested b bound
unfolding segments_from
segments_from-ext zero m n requested b bound same = refl
segments_from-ext (suc fuel) m n requested b bound same = elim (Option-cases (forks_at n b)) [
  | inl e ↦ rw (segments_from, same b ∙ e) (rw (segments_from, e) refl)
  | inr ((origin, parent), e) ↦
      rw (segments_from, same b ∙ e)
        (rw (segments_from, e)
          (ap (λ s. s >>= λ rest. ok ((b, bound) ∷ rest))
            (segments_from-ext fuel m n requested parent (clamp requested origin) same)))
]

pub read_path-restated :
    (m : Manager) (id : LayerId) (l k : Layer) (b : BranchId) (requested : Option LayerId)
    → get m.layers id ≡ some l
    → k.branch ≡ l.branch
    → read_path (restated m id k) b requested ≡ read_path m b requested
unfolding read_path
read_path-restated m id l k b requested e same =
    ap (λ s. s >>= λ segments. ok (record { segments = segments }))
      (segments_from-ext (suc (length m.branches)) (restated m id k) m requested b
        (starting_at requested (head m b)) (λ c. forks_at-restated m id l k c e same))
