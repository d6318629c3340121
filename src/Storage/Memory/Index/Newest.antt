-- ===== src/Storage/Memory/Index/Newest.antt =====
-- What `newest_at` of memory.rs answers.
use borg_core.Prelude.{◌≤◌, ◌≡◌, ◌⊎◌, inl, inr, Option, none, some, [], ◌∷◌, arith, refl}
use borg_core.Prelude.{In, leb, ◌&&◌, if◌then◌else◌, Bool-cases, sym, ap, nat_eq}
use borg_core.Prelude.{subst, ◌∙◌}
use borg_core.Prelude.Map.{get}
use borg_core.Prelude.Unique.{IsUnique, In_of_get, get_of_In}
use borg_core.Core.Ids.{LayerId, EventId}
use borg_core.Storage.Memory.Index.{History, beats, newest_from, newest_at}

-- The option holds an entry with the property at the highest layer that has one.
abbrev pub IsNewest : Option (LayerId × EventId) → (LayerId → EventId → Type 0) → Type 0
IsNewest none P = (l : LayerId) (e : EventId) → P l e → ⊥
IsNewest (some (l, e)) P = P l e × ((k : LayerId) (f : EventId) → P k f → k ≤ l)

-- An entry of a history within a bound.
abbrev pub Within : History → LayerId → LayerId → EventId → Type 0
Within history bound l e = (get history l ≡ some e) × (l ≤ bound)

abbrev Listed : (LayerId → EventId → Type 0) → History → LayerId → LayerId → EventId → Type 0
Listed P history bound l e = P l e ⊎ (In (l, e) history × (l ≤ bound))

IsNewest-iff :
    (P Q : LayerId → EventId → Type 0) (o : Option (LayerId × EventId))
    → ((l : LayerId) (e : EventId) → P l e → Q l e)
    → ((l : LayerId) (e : EventId) → Q l e → P l e)
    → IsNewest o P
    → IsNewest o Q
IsNewest-iff P Q none f g h = λ l e q. h l e (g l e q)
IsNewest-iff P Q (some (x, y)) f g h = (f x y h.0, λ l e q. h.1 l e (g l e q))

step : Option (LayerId × EventId) → LayerId → EventId → LayerId → Option (LayerId × EventId)
unfolding beats
step best landed event bound =
    if leb landed bound && beats best landed then some (landed, event) else best

abbrev Stepped :
    (LayerId → EventId → Type 0) → LayerId → EventId → LayerId → LayerId → EventId → Type 0
Stepped P landed event bound l e =
    P l e ⊎ (◌≡◌ {A = LayerId × EventId} (l, e) (landed, event) × (l ≤ bound))

step-IsNewest :
    (P : LayerId → EventId → Type 0) (best : Option (LayerId × EventId))
    (landed event bound : LayerId)
    → IsNewest best P
    → IsNewest (step best landed event bound) (Stepped P landed event bound)
unfolding step
step-IsNewest P none landed event bound h = elim (Bool-cases (leb landed bound)) [
  | inl t ↦ rw t (
    inr (refl, ground arith),
    λ l e. elim [ inl p ↦ absurd (h l e p) | inr q ↦ omega (arith, ap (λ p. p.0) q.0) ],
  )
  | inr f ↦ rw f (λ l e. elim [ inl p ↦ h l e p | inr q ↦ ground (arith, q.0, q.1) ])
]
step-IsNewest P (some (x, y)) landed event bound h =
    elim (Bool-cases (leb landed bound && leb x landed)) [
      | inl t ↦ rw t (
        inr (refl, ground arith),
        λ l e. elim [
          | inl p ↦ ground (arith, h.1 l e p)
          | inr q ↦ omega (arith, ap (λ p. p.0) q.0)
        ],
      )
      | inr f ↦ rw f (inl h.0, λ l e. elim [ inl p ↦ h.1 l e p | inr q ↦ ground (arith, q.0, q.1) ])
    ]

newest_from-IsNewest :
    (P : LayerId → EventId → Type 0) (best : Option (LayerId × EventId)) (history : History)
    (bound : LayerId)
    → IsNewest best P
    → IsNewest (newest_from best history bound) (Listed P history bound)
unfolding newest_from step
newest_from-IsNewest P best [] bound h =
    IsNewest-iff P (Listed P [] bound) best (λ l e p. inl p)
      (λ l e. elim [ inl p ↦ p | inr q ↦ absurd q.0 ]) h
newest_from-IsNewest P best ((landed, event) ∷ rest) bound h =
    IsNewest-iff (Listed (Stepped P landed event bound) rest bound)
      (Listed P ((landed, event) ∷ rest) bound) _
      (λ l e. elim [
        | inl (inl p) ↦ inl p
        | inl (inr q) ↦ inr (inl q.0, q.1)
        | inr q ↦ inr (inr q.0, q.1)
      ])
      (λ l e. elim [
        | inl p ↦ inl (inl p)
        | inr (inl m, q) ↦ inl (inr (m, q))
        | inr (inr m, q) ↦ inr (m, q)
      ])
      (newest_from-IsNewest (Stepped P landed event bound) (step best landed event bound) rest bound
        (step-IsNewest P best landed event bound h))

-- On a history without repeated layers `newest_at` answers the entry of the highest layer within
-- the bound, in whatever order the entries stand, and nothing exactly when none is within it.
pub newest_at-IsNewest :
    (history : History) (bound : LayerId)
    → IsUnique history
    → IsNewest (newest_at history bound) (Within history bound)
unfolding newest_at
newest_at-IsNewest history bound u =
    IsNewest-iff (Listed (λ l e. ⊥) history bound) (Within history bound) _
      (λ l e. elim [ inl p ↦ absurd p | inr q ↦ (get_of_In history l e u q.0, q.1) ])
      (λ l e q. inr (In_of_get history l e q.0, q.1))
      (newest_from-IsNewest (λ l e. ⊥) none history bound (λ l e p. p))

IsNewest_unique :
    (P : LayerId → EventId → Type 0) (o p : Option (LayerId × EventId))
    → ((l : LayerId) (e f : EventId) → P l e → P l f → e ≡ f)
    → IsNewest o P
    → IsNewest p P
    → o ≡ p
IsNewest_unique P none none d h k = refl
IsNewest_unique P none (some (l, e)) d h k = absurd (h l e k.0)
IsNewest_unique P (some (l, e)) none d h k = absurd (k l e h.0)
IsNewest_unique P (some (l, e)) (some (m, f)) d h k =
    let same_layer : l ≡ m = omega (arith, h.1 m f k.0, k.1 l e h.0) in
    let moved : P m e = subst (λ x. P x e) same_layer h.0 in cc (same_layer, d m e f moved k.0)

-- Histories without repeated layers that agree on every layer have the same newest entries.
pub newest_at-ext :
    (g h : History) (bound : LayerId)
    → IsUnique g
    → IsUnique h
    → ((l : LayerId) → get g l ≡ get h l)
    → newest_at g bound ≡ newest_at h bound
newest_at-ext g h bound ug uh agree =
    IsNewest_unique (Within h bound) _ _ (λ l e f p q. cc (p.0, q.0))
      (IsNewest-iff (Within g bound) (Within h bound) _ (λ l e p. (sym (agree l) ∙ p.0, p.1))
        (λ l e p. (agree l ∙ p.0, p.1)) (newest_at-IsNewest g bound ug))
      (newest_at-IsNewest h bound uh)
