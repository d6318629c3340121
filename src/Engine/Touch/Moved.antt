-- ===== src/Engine/Touch/Moved.antt =====
-- What `record` and `apply` of touch.rs write, and when `moved_since` may stand in for a look at
-- every cell.
use borg_core.Prelude.{◌≡◌, ◌⊎◌, ◌↔◌, inl, inr, List, [], ◌∷◌, arith}
use borg_core.Prelude.{true, refl, sym, In, map, push, unwrap_or, Bool-cases}
use borg_core.Prelude.{
  In-append_left, In-append_right, In-append_cases, ◌≟◌, nat_eq, subst, if_pos, if_neg,
}
use borg_core.Prelude.{if◌then◌else◌}
use borg_core.Prelude.Map.{Map, get, get-insert}
use borg_core.Core.Ids.{LayerId}
use borg_core.Core.Cell.{CellRef, Event, cell_eq}
use borg_core.Core.Layer.{Layer, is_source}
use borg_core.Engine.Touch.{
  Touches, history, last_is, touch_cell, touch_cells, record_touches, apply,
}
use borg_core.Engine.Touch.Lookup.{}

In_of_last_is : (h : List LayerId) (layer : LayerId) → last_is h layer ≡ true → In layer h
unfolding last_is
In_of_last_is [] layer e = cc
In_of_last_is (l ∷ []) layer e = inl (ground arith)
In_of_last_is (l ∷ k ∷ rest) layer e = inr (In_of_last_is (k ∷ rest) layer e)

-- The history of a cell in the map of one branch.
abbrev of_cell : Map CellRef (List LayerId) → CellRef → List LayerId
of_cell m cell = unwrap_or (get m cell) []

abbrev pushed : List LayerId → LayerId → List LayerId
pushed h layer = if last_is h layer then h else push h layer

In-pushed : (h : List LayerId) (layer l : LayerId) → In l (pushed h layer) ↔ (In l h ⊎ (l ≡ layer))
In-pushed h layer l = elim (Bool-cases (last_is h layer)) [
  | inl t ↦ rw t (λ m. inl m, elim [ inl m ↦ m | inr e ↦ rw e (In_of_last_is h layer t) ])
  | inr f ↦ rw f (
    λ m. elim (In-append_cases h (layer ∷ []) l m) [
      | inl a ↦ inl a
      | inr (inl e) ↦ inr e
      | inr (inr n) ↦ absurd n
    ],
    elim [
      | inl m ↦ In-append_left h (layer ∷ []) l m
      | inr e ↦ In-append_right h (layer ∷ []) l (inl e)
    ],
  )
]

of_cell-touch_cell :
    (layer l : LayerId) (m : Map CellRef (List LayerId)) (cell c : CellRef)
    → In l (of_cell (touch_cell layer m cell) c) ↔ (In l (of_cell m c) ⊎ ((l ≡ layer) × (c ≡ cell)))
unfolding touch_cell
of_cell-touch_cell layer l m cell c = rw get-insert (elim (cell ≟ c) [
  | yes p ↦ rw (if_pos _ p) (
    λ h. elim ((In-pushed (of_cell m cell) layer l).0 h) [
      | inl a ↦ inl (subst (λ d. In l (of_cell m d)) p a)
      | inr e ↦ inr (e, sym p)
    ],
    elim [
      | inl a ↦
          (In-pushed (of_cell m cell) layer l).1 (inl (subst (λ d. In l (of_cell m d)) (sym p) a))
      | inr q ↦ (In-pushed (of_cell m cell) layer l).1 (inr q.0)
    ],
  )
  | no p ↦ rw (if_neg _ p) (λ h. inl h, elim [ inl h ↦ h | inr q ↦ absurd (p (sym q.1)) ])
])

of_cell-touch_cells :
    (layer l : LayerId) (m : Map CellRef (List LayerId)) (cells : List CellRef) (c : CellRef)
    → In l (of_cell (touch_cells layer m cells) c)
      ↔ (In l (of_cell m c) ⊎ ((l ≡ layer) × In c cells))
unfolding touch_cells
of_cell-touch_cells layer l m [] c = (λ h. inl h, elim [ inl h ↦ h | inr q ↦ absurd q.1 ])
of_cell-touch_cells layer l m (cell ∷ rest) c =
    let (to, from) = of_cell-touch_cells layer l (touch_cell layer m cell) rest c in
    let (to', from') = of_cell-touch_cell layer l m cell c in
    (
      λ h. elim (to h) [
        | inl a ↦ elim (to' a) [ inl b ↦ inl b | inr q ↦ inr (q.0, inl q.1) ]
        | inr q ↦ inr (q.0, inr q.1)
      ],
      elim [
        | inl a ↦ from (inl (from' (inl a)))
        | inr (e, inl q) ↦ from (inl (from' (inr (e, q))))
        | inr (e, inr q) ↦ from (inr (e, q))
      ],
    )

-- The cells that a layer's events wrote.
abbrev pub written : List Event → List CellRef
written events = map (λ e. e.cell) events

history-record :
    (t : Touches) (branch layer b l : LayerId) (cells : List CellRef) (c : CellRef)
    → In l (history (record_touches t branch layer cells) b c)
      ↔ (In l (history t b c) ⊎ ((b ≡ branch) × (l ≡ layer) × In c cells))
unfolding history record_touches
history-record t branch layer b l cells c = rw get-insert (elim (branch ≟ b) [
  | yes p ↦
      let old = unwrap_or (get t.cells branch) [] in
      rw (if_pos _ p) (
        λ h. elim ((of_cell-touch_cells layer l old cells c).0 h) [
          | inl a ↦ inl (subst (λ d. In l (of_cell (unwrap_or (get t.cells d) []) c)) p a)
          | inr q ↦ inr (sym p, q.0, q.1)
        ],
        elim [
          | inl a ↦
              (of_cell-touch_cells layer l old cells c).1
                (inl (subst (λ d. In l (of_cell (unwrap_or (get t.cells d) []) c)) (sym p) a))
          | inr q ↦ (of_cell-touch_cells layer l old cells c).1 (inr (q.1, q.2))
        ],
      )
  | no p ↦ rw (if_neg _ p) (λ h. inl h, elim [ inl h ↦ h | inr q ↦ absurd (p (sym q.0)) ])
])

-- Folding a committed layer into the index adds the layer to the history of exactly the cells that
-- the layer's events wrote, on the layer's branch, if a client authored it; every other history,
-- and with a derived layer each of them, holds the layers that it held.
pub history-apply :
    (t : Touches) (layer : Layer) (events : List Event) (b l : LayerId) (c : CellRef)
    → In l (history (apply t layer events) b c) ↔ (
        In l (history t b c)
        ⊎ ((is_source layer.author ≡ true)
            × (b ≡ layer.branch)
            × (l ≡ layer.id)
            × In c (written events)))
unfolding apply
history-apply t layer events b l c = elim (Bool-cases (is_source layer.author)) [
  | inl s ↦ rw s (
    λ h.
        elim ((history-record t layer.branch layer.id b l (written events) c).0
          (unfold history in h)) [ inl a ↦ inl a | inr q ↦ inr (refl, q.0, q.1, q.2) ],
    elim [
      | inl a ↦
          unfold history in
          (history-record t layer.branch layer.id b l (written events) c).1 (inl a)
      | inr q ↦
          unfold history in
          (history-record t layer.branch layer.id b l (written events) c).1 (inr (q.1, q.2, q.3))
    ],
  )
  | inr d ↦
      rw d (λ h. inl (unfold history in h), elim [ inl h ↦ unfold history in h | inr q ↦ cc (q.0) ])
]
