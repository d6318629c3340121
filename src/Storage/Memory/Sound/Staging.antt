-- ===== src/Storage/Memory/Sound/Staging.antt =====
-- The operations on staged layers keep the invariant.
use borg_core.Prelude.{ℕ, ◌≤◌, ◌≡◌, ◌≢◌, ◌⊎◌, inl, inr, none, some, All}
use borg_core.Prelude.{nat_eq, arith, sym, subst, ◌≟◌, ◌∙◌}
use borg_core.Prelude.{All-at, All-of}
use borg_core.Prelude.Map.{Map, get, insert, remove, get-insert, get-remove}
use borg_core.Core.Ids.{LayerId, EventId}
use borg_core.Storage.Memory.State.{Inner, StagedLayer}
use borg_core.Storage.Memory.Sound.{IsFresh, IsAuthored, IsNamed, IsSound}

-- To read a property of what a map holds after an insertion.
pub insert-cases :
    {V : Type 0} (m : Map LayerId V) (l k : LayerId) (v w : V)
    → get (insert m l v) k ≡ some w
    → ((l ≡ k) × (v ≡ w)) ⊎ ((l ≢ k) × (get m k ≡ some w))
insert-cases m l k v w h = elim (l ≟ k) [
  | yes p ↦ inl (p, ground (arith, get-insert m l k v))
  | no p ↦ inr (p, ground (arith, get-insert m l k v))
]

pub remove-cases :
    {V : Type 0} (m : Map LayerId V) (l k : LayerId) (w : V)
    → get (remove m l) k ≡ some w
    → (l ≢ k) × (get m k ≡ some w)
remove-cases m l k w h = elim (l ≟ k) [
  | yes p ↦ ground (arith, p, get-remove m l k)
  | no p ↦ (p, ground (arith, p, get-remove m l k))
]

module _ (inner : Inner) (sound : IsSound inner) (l : LayerId) (s : StagedLayer) (next : ℕ) where
  abbrev updated : Inner
  updated = record inner { staged = insert inner.staged l s; next_event = next }

  -- A layer that is not committed may be staged anew, with fresh events of its own.
  pub update-IsSound :
      inner.next_event ≤ next
      → get inner.members l ≡ none
      → All (IsFresh inner.events next) s.authored
      → ((k : LayerId) (t : StagedLayer) (id : EventId)
          → l ≢ k
          → get inner.staged k ≡ some t
          → IsAuthored s id
          → IsAuthored t id
          → ⊥)
      → All (IsNamed inner.events s) s.members
      → IsSound updated
  update-IsSound grows free fresh alone named = record {
    indexed = record {
      tidy = sound.indexed.tidy;
      agrees = sound.indexed.agrees;
      known = sound.indexed.known;
    };
    apart = λ k t h. elim (insert-cases inner.staged l k s t h) [
      | inl q ↦ subst (λ j. get inner.members j ≡ none) q.0 free
      | inr q ↦ sound.apart k t q.1
    ];
    fresh = λ k t h. elim (insert-cases inner.staged l k s t h) [
      | inl q ↦ subst (λ (u : StagedLayer). All (IsFresh inner.events next) u.authored) q.1 fresh
      | inr q ↦ All-of _ t.authored (λ e m.
          let (none', pos, le) = All-at _ t.authored e (sound.fresh k t q.1) m in
          (none', pos, omega arith))
    ];
    disjoint = λ j k t u id hj hk at au. elim (insert-cases inner.staged l j s t hj) [
      | inl p ↦ elim (insert-cases inner.staged l k s u hk) [
        | inl q ↦ sym p.0 ∙ q.0
        | inr q ↦ absurd (alone k u id q.0 q.1 (subst (λ x. IsAuthored x id) (sym p.1) at) au)
      ]
      | inr p ↦ elim (insert-cases inner.staged l k s u hk) [
        | inl q ↦ absurd (alone j t id p.0 p.1 (subst (λ x. IsAuthored x id) (sym q.1) au) at)
        | inr q ↦ sound.disjoint j k t u id p.1 q.1 at au
      ]
    ];
    named = λ k t h. elim (insert-cases inner.staged l k s t h) [
      | inl q ↦ subst (λ (u : StagedLayer). All (IsNamed inner.events u) u.members) q.1 named
      | inr q ↦ sound.named k t q.1
    ];
    bounded = λ id e h. let b = sound.bounded id e h in omega arith;
    own_id = sound.own_id;
  }

-- Dropping a staged layer.
pub drop-IsSound :
    (inner : Inner) (l : LayerId)
    → IsSound inner
    → IsSound (record inner { staged = remove inner.staged l })
drop-IsSound inner l sound = record {
  indexed = record {
    tidy = sound.indexed.tidy;
    agrees = sound.indexed.agrees;
    known = sound.indexed.known;
  };
  apart = λ k t h. sound.apart k t (remove-cases inner.staged l k t h).1;
  fresh = λ k t h. sound.fresh k t (remove-cases inner.staged l k t h).1;
  disjoint = λ j k t u id hj hk.
      sound.disjoint j k t u id (remove-cases inner.staged l j t hj).1
        (remove-cases inner.staged l k u hk).1;
  named = λ k t h. sound.named k t (remove-cases inner.staged l k t h).1;
  bounded = sound.bounded;
  own_id = sound.own_id;
}

-- Handing out more ids.
pub raise-IsSound :
    (inner : Inner) (next : ℕ)
    → IsSound inner
    → inner.next_event ≤ next
    → IsSound (record inner { next_event = next })
raise-IsSound inner next sound grows = record {
  indexed = record {
    tidy = sound.indexed.tidy;
    agrees = sound.indexed.agrees;
    known = sound.indexed.known;
  };
  apart = sound.apart;
  fresh = λ k t h. All-of _ t.authored (λ e m.
      let (none', pos, le) = All-at _ t.authored e (sound.fresh k t h) m in
      (none', pos, omega arith));
  disjoint = sound.disjoint;
  named = sound.named;
  bounded = λ id e h. let b = sound.bounded id e h in omega arith;
  own_id = sound.own_id;
}
