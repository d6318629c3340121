-- ===== src/Storage/Memory/Sound/Operations.antt =====
-- The operations on an open layer (memory.rs) keep the invariant.
use borg_core.Prelude.{ℕ, ◌≤◌, ◌<◌, ◌+◌, ◌%◌, ◌≡◌, ◌⊎◌, inl, inr, none, some, [], ◌∷◌, All, In}
use borg_core.Prelude.{nat_eq, arith, refl, sym, ap, subst, Option-cases, ◌∙◌}
use borg_core.Prelude.{true, false, Bool-cases, ◌==◌, ◌||◌}
use borg_core.Prelude.{
  max, All-at, push, In-append_cases, In-append_left, In-append_right, All-push, All-map,
}
use borg_core.Prelude.Map.{get, insert}
use borg_core.Core.Ids.{LayerId, EventId, BranchId}
use borg_core.Core.Cell.{Event, EventDraft, CellRef}
use borg_core.Core.Def.{DefEvent}
use borg_core.Core.Error.{ok}
use borg_core.Storage.Memory.State.{Inner, StagedLayer, stored_in, u64_mod}
use borg_core.Storage.Memory.OpenLayer.{
  staged, with_staged, with_event, event_from, author_event, adopt_event, include_event, put_def,
  seal, abort,
}
use borg_core.Storage.Memory.Provider.{open_layer, is_some}
use borg_core.Storage.Memory.Sound.{IsFresh, IsAuthored, IsNamed, IsSound}
use borg_core.Storage.Memory.Sound.Staging.{update-IsSound, drop-IsSound, raise-IsSound}

-- What `with_staged` does: nothing, or a write into a layer that is staged and not sealed.
pub with_staged-cases :
    {A : Type 0} (inner : Inner) (l : LayerId) (f : StagedLayer → StagedLayer) (a : A)
    → ((with_staged inner l f a).1 ≡ inner)
      ⊎ ((s : StagedLayer) × (get inner.staged l ≡ some s)
          × (with_staged inner l f a
              ≡ (ok a, record inner { staged = insert inner.staged l (f s) })))
unfolding with_staged staged
with_staged-cases inner l f a = elim (Option-cases (get inner.staged l)) [
  | inl e ↦ inl (ground arith)
  | inr (s, e) ↦ elim (Bool-cases s.sealed) [
    | inl t ↦ inl (ground arith)
    | inr u ↦ inr (s, e, ground arith)
  ]
]

-- An id that no event has, stored or staged.
pub record IsUnused (inner : Inner) (id : EventId) : Type 0 where
  pub positive : 0 < id
  pub not_stored : stored_in inner.events id ≡ none
  pub not_staged :
      (l : LayerId) (s : StagedLayer) → get inner.staged l ≡ some s → IsAuthored s id → ⊥

IsAuthored-with_event :
    (event : Event) (s : StagedLayer) (id : EventId)
    → IsAuthored (with_event event s) id
    → IsAuthored s id ⊎ (id ≡ event.id)
IsAuthored-with_event event s id (e, m, q) = elim (In-append_cases s.authored (event ∷ []) e m) [
  | inl old ↦ inl (e, old, q)
  | inr (inl new) ↦ inr (sym q ∙ ap (λ x. x.id) new)
  | inr (inr nil) ↦ absurd nil
]

-- A staged layer changed without a change of what it authors.
restage-IsSound :
    (inner : Inner) (l : LayerId) (s t : StagedLayer)
    → IsSound inner
    → get inner.staged l ≡ some s
    → t.authored ≡ s.authored
    → All (IsNamed inner.events t) t.members
    → IsSound (record inner { staged = insert inner.staged l t })
restage-IsSound inner l s t sound found same named =
    update-IsSound inner sound l t inner.next_event (omega arith) (sound.apart l s found)
      (subst (λ es. All (IsFresh inner.events inner.next_event) es) (sym same)
        (sound.fresh l s found))
      (λ k u id ne hk at au.
        ne (sound.disjoint l k s u id found hk (at.0, subst (λ es. In at.0 es) same at.1, at.2) au))
      named

with_event-IsSound :
    (inner : Inner) (l : LayerId) (event : Event) (next : ℕ) {A : Type 0} (a : A)
    → IsSound inner
    → IsUnused inner event.id
    → inner.next_event ≤ next
    → event.id ≤ next
    → IsSound (with_staged (record inner { next_event = next }) l (with_event event) a).1
with_event-IsSound inner l event next a sound unused grows below =
    elim (with_staged-cases (record inner { next_event = next }) l (with_event event) a) [
      | inl e ↦ rw e (raise-IsSound inner next sound grows)
      | inr (s, found, run) ↦ rw run (
          update-IsSound inner sound l (with_event event s) next grows (sound.apart l s found)
            (All-push (IsFresh inner.events next) s.authored event
              (All-map (IsFresh inner.events inner.next_event) (IsFresh inner.events next)
                s.authored (λ e f. (f.0, f.1, omega (arith, f.2))) (sound.fresh l s found))
              (unused.not_stored, unused.positive, below))
            (λ k t id ne hk au at. elim (IsAuthored-with_event event s id au) [
              | inl old ↦ ne (sound.disjoint l k s t id found hk old at)
              | inr new ↦ unused.not_staged k t hk (subst (λ x. IsAuthored t x) new at)
            ])
            (All-push (IsNamed inner.events (with_event event s)) s.members event.id
              (All-map (IsNamed inner.events s) (IsNamed inner.events (with_event event s))
                s.members
                (λ id. elim [
                  | inl st ↦ inl st
                  | inr (e, m, q) ↦ inr (e, In-append_left s.authored (event ∷ []) e m, q)
                ])
                (sound.named l s found))
              (inr (event, In-append_right s.authored (event ∷ []) event (inl refl), refl))))
    ]

-- Minting an id and authoring an event under it keeps the invariant while ids are left.
pub author_event-IsSound :
    (inner : Inner) (l : LayerId) (cell : CellRef) (draft : EventDraft)
    → IsSound inner
    → inner.next_event + 1 < u64_mod
    → IsSound (author_event inner l cell draft).1
unfolding author_event
author_event-IsSound inner l cell draft sound room =
    let id = (inner.next_event + 1) % u64_mod in
    let next : id ≡ inner.next_event + 1 = omega arith in
    with_event-IsSound inner l (event_from id l cell draft) id id sound
      (record {
        positive = omega arith;
        not_stored = elim (Option-cases (stored_in inner.events id)) [
          | inl e ↦ e
          | inr (e, h) ↦ absurd (omega (arith, sound.bounded id e h))
        ];
        not_staged = λ k s h au.
            let f =
              All-at (IsFresh inner.events inner.next_event) s.authored au.0 (sound.fresh k s h)
                au.1 in
            omega (arith, f.2, au.2);
      })
      (omega arith) (omega arith)

pub adopt_event-IsSound :
    (inner : Inner) (l : LayerId) (event : Event)
    → IsSound inner
    → IsUnused inner event.id
    → IsSound (adopt_event inner l event).1
unfolding adopt_event
adopt_event-IsSound inner l event sound unused = elim (Bool-cases (event.authored == l)) [
  | inl t ↦ rw t (
      with_event-IsSound inner l event (max inner.next_event event.id) tt sound unused (omega arith)
        (omega arith))
  | inr f ↦ rw f sound
]

-- A write into a staged layer that authors nothing.
plain-IsSound :
    (inner : Inner) (l : LayerId) (f : StagedLayer → StagedLayer) {A : Type 0} (a : A)
    → IsSound inner
    → ((s : StagedLayer) → (f s).authored ≡ s.authored)
    → ((s : StagedLayer)
        → All (IsNamed inner.events s) s.members
        → All (IsNamed inner.events (f s)) (f s).members)
    → IsSound (with_staged inner l f a).1
plain-IsSound inner l f a sound same named = elim (with_staged-cases inner l f a) [
  | inl e ↦ rw e sound
  | inr (s, found, run) ↦
      rw run
        (restage-IsSound inner l s (f s) sound found (same s) (named s (sound.named l s found)))
]

pub include_event-IsSound :
    (inner : Inner) (l : LayerId) (id : EventId)
    → IsSound inner
    → IsSound (include_event inner l id).1
unfolding include_event
include_event-IsSound inner l id sound = elim (Option-cases (stored_in inner.events id)) [
  | inl e ↦ rw e sound
  | inr (event, e) ↦ rw e (
      plain-IsSound inner l (λ s. record s { members = push s.members id }) tt sound (λ s. refl)
        (λ s h. All-push (IsNamed inner.events s) s.members id h (inl (event, e))))
]

pub put_def-IsSound :
    (inner : Inner) (l : LayerId) (event : DefEvent)
    → IsSound inner
    → IsSound (put_def inner l event).1
unfolding put_def
put_def-IsSound inner l event sound =
    plain-IsSound inner l (λ s. record s { defs = push s.defs event }) tt sound (λ s. refl)
      (λ s h. h)

pub seal-IsSound : (inner : Inner) (l : LayerId) → IsSound inner → IsSound (seal inner l).1
unfolding seal
seal-IsSound inner l sound = elim (Option-cases (get inner.staged l)) [
  | inl e ↦ rw e sound
  | inr (s, e) ↦
      rw e (restage-IsSound inner l s (record s { sealed = true }) sound e refl (sound.named l s e))
]

pub abort-IsSound : (inner : Inner) (l : LayerId) → IsSound inner → IsSound (abort inner l).1
unfolding abort
abort-IsSound inner l sound = drop-IsSound inner l sound

pub open_layer-IsSound :
    (inner : Inner) (branch : BranchId) (l : LayerId)
    → IsSound inner
    → IsSound (open_layer inner branch l).1
unfolding open_layer
open_layer-IsSound inner branch l sound =
    elim (Bool-cases (is_some (get inner.staged l) || is_some (get inner.members l))) [
      | inl t ↦ rw t sound
      | inr f ↦ rw f (
          update-IsSound inner sound l
            (record { branch = branch; members = []; authored = []; defs = []; sealed = false })
            inner.next_event (omega arith) (ground arith) tt (λ k t id ne hk au. absurd au.1) tt)
    ]
