-- ===== src/Engine/Resolve/Validate/Ends.antt =====
-- That validation ends, and what its answer means.
use borg_core.Prelude.{
  ℕ, zero, suc, ◌+◌, ◌≤◌, ◌<◌, ◌≡◌, ◌⊎◌, inl, inr, Bool-cases, Option, none, some, Option-cases,
  List, [], ◌∷◌, In, All, refl, sym, subst, ◌∙◌, arith, ltb, min, length, nat_eq, ◌≟◌,
}
use borg_core.Prelude.Map.{get, insert, get-insert_self, get-insert_ne}
use borg_core.Core.Ids.{LayerId, DefVersion}
use borg_core.Core.Cell.{CellRef, CellAt, Landed, Derivation, reflects, cell_at_eq}
use borg_core.Core.Layer.{ReadPath}
use borg_core.Core.Error.{Result, ok, err, diverged}
use borg_core.Engine.Resolve.Validate.{
  Composed, Validation, Nested, bound_of, bound_behind, over_reads, validate,
}
use borg_core.Storage.Memory.State.{Inner}
use borg_core.Storage.Memory.Provider.{get_cell}

-- Those of the records that no call has reached.
fresh_one : Option (Option LayerId) → ℕ
fresh_one none = 1
fresh_one (some mark) = 0

pub unreached : List CellAt → Composed → ℕ
unfolding fresh_one
unreached [] composed = 0
unreached (c ∷ known) composed = fresh_one (get composed c) + unreached known composed

pub unreached-le-length :
    (known : List CellAt) (composed : Composed) → unreached known composed ≤ length known
unfolding unreached fresh_one
unreached-le-length [] composed = omega arith
unreached-le-length (c ∷ known) composed = elim (Option-cases (get composed c)) [
  | inl e ↦ rw (fresh_one, e) (omega (arith, unreached-le-length known composed))
  | inr (mark, e) ↦ rw (fresh_one, e) (omega (arith, unreached-le-length known composed))
]

-- What was reached stays so.
pub Grows : Composed → Composed → Type 0
Grows a b = (c : CellAt) → get b c ≡ none → get a c ≡ none

Grows-insert : (a : Composed) (c : CellAt) (v : Option LayerId) → Grows a (insert a c v)
unfolding Grows
Grows-insert a c v d h = elim (c ≟ d) [
  | yes e ↦ cc (h, subst (λ x. get (insert a c v) x ≡ some v) e (get-insert_self a c v))
  | no n ↦ sym (get-insert_ne a c d v n) ∙ h
]

Grows-trans : (a b c : Composed) → Grows a b → Grows b c → Grows a c
unfolding Grows
Grows-trans a b c f g d h = f d (g d h)

unreached-Grows :
    (known : List CellAt) (a b : Composed) → Grows a b → unreached known b ≤ unreached known a
unfolding unreached fresh_one Grows
unreached-Grows [] a b g = omega arith
unreached-Grows (c ∷ known) a b g = elim (Option-cases (get b c)) [
  | inl e ↦ rw (fresh_one, e) (rw (fresh_one, g c e) (omega (arith, unreached-Grows known a b g)))
  | inr (mark, e) ↦ rw (fresh_one, e) (omega (arith, unreached-Grows known a b g))
]

fresh_one-le : (a b : Composed) (c : CellAt) → Grows a b → fresh_one (get b c) ≤ fresh_one (get a c)
unfolding fresh_one Grows
fresh_one-le a b c g = elim (Option-cases (get b c)) [
  | inl e ↦ rw (fresh_one, e) (rw (fresh_one, g c e) (omega arith))
  | inr (mark, e) ↦ rw (fresh_one, e) (omega arith)
]

-- Reaching a new record leaves fewer.
unreached-insert :
    (known : List CellAt) (a : Composed) (c : CellAt) (v : Option LayerId)
    → In c known
    → get a c ≡ none
    → unreached known (insert a c v) < unreached known a
unfolding unreached fresh_one
unreached-insert [] a c v m h = absurd m
unreached-insert (d ∷ known) a c v (inl e) h =
    let now : fresh_one (get (insert a c v) d) ≡ 0 =
      subst (λ x. fresh_one (get (insert a c v) x) ≡ 0) e
        (rw (fresh_one, get-insert_self a c v) refl) in
    let before : fresh_one (get a d) ≡ 1 =
      subst (λ x. fresh_one (get a x) ≡ 1) e (rw (fresh_one, h) refl) in
    omega (arith, now, before, unreached-Grows known a (insert a c v) (Grows-insert a c v))
unreached-insert (d ∷ known) a c v (inr m) h =
    omega (
      arith,
      fresh_one-le a (insert a c v) d (Grows-insert a c v),
      unreached-insert known a c v m h,
    )

-- The dependency's record, where there is one, reflects nothing past the layer.
abbrev pub Unmoved : Inner → ReadPath → LayerId → CellAt → Type 0
Unmoved store path fresh c =
    (found : Landed)
    → get_cell store path c.cell c.version ≡ ok (some found)
    → reflects found ≤ fresh

-- An answer: the stored watermark, or one within `mark`, and then no dependency has moved.
abbrev pub IsHonest : Inner → ReadPath → LayerId → LayerId → List CellAt → LayerId → Type 0
IsHonest store path fresh mark reads w =
    (w ≡ fresh) ⊎ ((w ≤ mark) × All (Unmoved store path fresh) reads)

found_once : {r : Result (Option Landed)} (a b : Landed) → r ≡ ok (some a) → r ≡ ok (some b) → a ≡ b
found_once a b h k = cc

Ends : Composed → Validation → Type 0
Ends before r = (w : LayerId) × (after : Composed) × (r ≡ ok (w, after)) × Grows before after

module _ (store : Inner) (path : ReadPath) (known : List CellAt)
    (readable : (c : CellRef) (v : DefVersion)
      → (o : Option Landed) × (get_cell store path c v ≡ ok o))
    (listed : (c : CellAt) (found : Landed)
      → get_cell store path c.cell c.version ≡ ok (some found)
      → In c known) where
  -- A call that has room for the records that are left.
  Enough : ℕ → Nested → Type 0
  Enough room nested =
      (reads : List CellAt) (fresh : LayerId) (composed : Composed)
      → unreached known composed < room
      → Ends composed (nested reads fresh composed)

  bound_of-Ends :
      (room : ℕ) (nested : Nested) (c : CellAt) (found : Landed) (upstream : Derivation)
      (composed : Composed) (answer : Option (Option LayerId))
      → Enough room nested
      → get_cell store path c.cell c.version ≡ ok (some found)
      → get composed c ≡ answer
      → unreached known composed ≤ room
      → Ends composed (bound_of nested c upstream composed answer)
  unfolding bound_of Enough Ends Grows
  bound_of-Ends room nested c found upstream composed (some (some w)) enough at is fits =
      (w, composed, refl, λ d h. h)
  bound_of-Ends room nested c found upstream composed (some none) enough at is fits =
      (upstream.fresh_as_of, composed, refl, λ d h. h)
  bound_of-Ends room nested c found upstream composed none enough at is fits =
      let marked = insert composed c none in
      let (w, after, e, grows) =
        enough upstream.read_set upstream.fresh_as_of marked
          (omega (arith, fits, unreached-insert known composed c none (listed c found at) is)) in
      (
        w,
        insert after c (some w),
        rw e refl,
        Grows-trans composed after (insert after c (some w))
            (Grows-trans composed marked after (Grows-insert composed c none) grows)
            (Grows-insert after c (some w)),
      )

  bound_behind-Ends :
      (room : ℕ) (nested : Nested) (c : CellAt) (found : Landed) (derivation : Option Derivation)
      (mark : LayerId) (composed : Composed)
      → Enough room nested
      → get_cell store path c.cell c.version ≡ ok (some found)
      → unreached known composed ≤ room
      → (w : LayerId) × (after : Composed) × (bound_behind nested c derivation mark composed
          ≡ ok (w, after))
        × Grows composed after
        × (w ≤ mark)
  unfolding bound_behind Ends Grows
  bound_behind-Ends room nested c found none mark composed enough at fits =
      (mark, composed, refl, λ d h. h, omega arith)
  bound_behind-Ends room nested c found (some upstream) mark composed enough at fits =
      let (w, after, e, grows) =
        bound_of-Ends room nested c found upstream composed (get composed c) enough at refl fits in
      (min mark w, after, rw e refl, grows, grind arith)

  -- The answer of the loop over a read set.
  Loop : Nested → LayerId → List CellAt → LayerId → Composed → Type 0
  Loop nested fresh reads mark composed =
      (w : LayerId) × (after : Composed) × (over_reads nested store path fresh reads mark composed
        ≡ ok (w, after))
      × Grows composed after
      × IsHonest store path fresh mark reads w

  one_read :
      (room : ℕ) (nested : Nested) (fresh : LayerId) (c : CellAt) (reads : List CellAt)
      (mark : LayerId) (composed : Composed) (o : Option Landed)
      → Enough room nested
      → unreached known composed ≤ room
      → get_cell store path c.cell c.version ≡ ok o
      → ((mark' : LayerId) (composed' : Composed)
          → unreached known composed' ≤ room
          → Loop nested fresh reads mark' composed')
      → Loop nested fresh (c ∷ reads) mark composed
  unfolding over_reads Grows Loop
  one_read room nested fresh c reads mark composed none enough fits at rest =
      let (w, after, e, grows, honest) = rest mark composed fits in
      (
        w,
        after,
        rw (over_reads, at) e,
        grows,
        elim honest [
          | inl stored ↦ inl stored
          | inr (within, still) ↦ inr (within, (λ found h. cc (h, at), still))
        ],
      )
  one_read room nested fresh c reads mark composed (some found) enough fits at rest =
      elim (Bool-cases (ltb fresh (reflects found))) [
        | inl moved ↦ (fresh, composed, rw (over_reads, at) (rw moved refl), λ d h. h, inl refl)
        | inr still ↦
            let (w, after, e, grows, lower) =
              bound_behind-Ends room nested c found found.event.derivation mark composed enough at
                fits in
            let (w', after', e', grows', honest) =
              rest w after (omega (arith, fits, unreached-Grows known composed after grows)) in
            (
              w',
              after',
              rw (over_reads, at) (rw still (rw e e')),
              Grows-trans composed after after' grows grows',
              elim honest [
                | inl stored ↦ inl stored
                | inr (within, others) ↦ inr (
                  omega (arith, within, lower),
                  (
                    λ other h.
                        subst (λ (l : Landed). reflects l ≤ fresh) (found_once found other at h)
                          (ground (arith, still)),
                    others,
                  ),
                )
              ],
            )
      ]

  over_reads-Ends :
      (room : ℕ) (nested : Nested) (fresh : LayerId) (reads : List CellAt) (mark : LayerId)
      (composed : Composed)
      → Enough room nested
      → unreached known composed ≤ room
      → Loop nested fresh reads mark composed
  unfolding over_reads Grows Loop
  over_reads-Ends room nested fresh [] mark composed enough fits =
      (mark, composed, refl, λ d h. h, inr (omega arith, tt))
  over_reads-Ends room nested fresh (c ∷ reads) mark composed enough fits =
      one_read room nested fresh c reads mark composed (readable c.cell c.version).0 enough fits
        (readable c.cell c.version).1
        (λ mark' composed' lower.
          over_reads-Ends room nested fresh reads mark' composed' enough lower)

  pub validate-Ends :
      (fuel : ℕ) (target : LayerId) (reads : List CellAt) (fresh : LayerId) (composed : Composed)
      → unreached known composed ≤ fuel
      → (w : LayerId) × (after : Composed) × (validate fuel store path target reads fresh composed
          ≡ ok (w, after))
        × Grows composed after
        × IsHonest store path fresh target reads w
  unfolding validate Loop Enough Ends
  validate-Ends zero target reads fresh composed fits =
      over_reads-Ends 0 (λ _ _ _. err diverged) fresh reads target composed
        (λ reads' fresh' composed' lower. absurd (omega (arith, lower))) fits
  validate-Ends (suc fuel) target reads fresh composed fits =
      over_reads-Ends (suc fuel) (validate fuel store path target) fresh reads target composed
        (λ reads' fresh' composed' lower.
          let (w, after, e, grows, honest) =
            validate-Ends fuel target reads' fresh' composed' (omega (arith, lower)) in
          (w, after, e, grows))
        fits
