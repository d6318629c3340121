-- ===== src/Core/Round/Readers.antt =====
-- The index from cells to the invocations that read them, which `cascade` builds.
use borg_core.Prelude.{◌≡◌, ◌⊎◌, ◌↔◌, inl, inr, List, [], ◌∷◌, refl, sym, ap, subst, nat_eq, ◌∙◌}
use borg_core.Prelude.{
  In, unwrap_or, ◌≟◌, if_pos, if_neg, In-append_left, In-append_right, In-append_cases,
}
use borg_core.Prelude.Map.{Map, get, get-insert}
use borg_core.Core.Ids.{LayerId}
use borg_core.Core.Cell.{CellAt, CellRef, cell_eq}
use borg_core.Core.Round.{Accesses, add_reader, add_readers, readers_from}

abbrev pub readers_of : Map CellRef (List LayerId) → CellRef → List LayerId
readers_of readers c = unwrap_or (get readers c) []

-- A record of the list is at the cell.
abbrev pub ReadsAt : List CellAt → CellRef → Type 0
ReadsAt reads c = (at : CellAt) × In at reads × (at.cell ≡ c)

-- An invocation of the round under the layer `k` read the cell.
abbrev pub ReadsCell : Map LayerId Accesses → LayerId → CellRef → Type 0
ReadsCell m k c = (a : Accesses) × In (k, a) m × ReadsAt a.reads c

In-add_reader :
    (readers : Map CellRef (List LayerId)) (layer k : LayerId) (at : CellAt) (c : CellRef)
    → In k (readers_of (add_reader readers layer at) c)
      ↔ (In k (readers_of readers c) ⊎ ((k ≡ layer) × (at.cell ≡ c)))
unfolding add_reader
In-add_reader readers layer k at c = rw get-insert (elim (at.cell ≟ c) [
  | yes p ↦ rw (if_pos _ p) (
    λ h. elim (In-append_cases (readers_of readers at.cell) (layer ∷ []) k h) [
      | inl o ↦ inl (subst (λ d. In k (readers_of readers d)) p o)
      | inr (inl e) ↦ inr (e, p)
      | inr (inr n) ↦ absurd n
    ],
    elim [
      | inl o ↦ In-append_left _ (layer ∷ []) k (subst (λ d. In k (readers_of readers d)) (sym p) o)
      | inr q ↦ In-append_right (readers_of readers at.cell) (layer ∷ []) k (inl q.0)
    ],
  )
  | no p ↦ rw (if_neg _ p) (λ h. inl h, elim [ inl h ↦ h | inr q ↦ absurd (p q.1) ])
])

In-add_readers :
    (readers : Map CellRef (List LayerId)) (layer k : LayerId) (reads : List CellAt) (c : CellRef)
    → In k (readers_of (add_readers readers layer reads) c)
      ↔ (In k (readers_of readers c) ⊎ ((k ≡ layer) × ReadsAt reads c))
unfolding add_readers
In-add_readers readers layer k [] c = (λ h. inl h, elim [ inl h ↦ h | inr q ↦ absurd q.1.1 ])
In-add_readers readers layer k (at ∷ reads) c =
    let (to, from) = In-add_readers (add_reader readers layer at) layer k reads c in
    let (to', from') = In-add_reader readers layer k at c in
    (
      λ h. elim (to h) [
        | inl o ↦ elim (to' o) [ inl p ↦ inl p | inr q ↦ inr (q.0, (at, inl refl, q.1)) ]
        | inr (e, (r, i, q)) ↦ inr (e, (r, inr i, q))
      ],
      elim [
        | inl o ↦ from (inl (from' (inl o)))
        | inr (e, (r, inl i, q)) ↦ from (inl (from' (inr (e, sym (ap (λ x. x.cell) i) ∙ q))))
        | inr (e, (r, inr i, q)) ↦ from (inr (e, (r, i, q)))
      ],
    )

In-readers_from :
    (readers : Map CellRef (List LayerId)) (m : Map LayerId Accesses) (k : LayerId) (c : CellRef)
    → In k (readers_of (readers_from readers m) c) ↔ (In k (readers_of readers c) ⊎ ReadsCell m k c)
unfolding readers_from
In-readers_from readers [] k c = (λ h. inl h, elim [ inl h ↦ h | inr q ↦ absurd q.1 ])
In-readers_from readers ((layer, a) ∷ m) k c =
    let (to, from) = In-readers_from (add_readers readers layer a.reads) m k c in
    let (to', from') = In-add_readers readers layer k a.reads c in
    (
      λ h. elim (to h) [
        | inl o ↦ elim (to' o) [
          | inl p ↦ inl p
          | inr q ↦ inr (a, inl (ap (λ (j : LayerId). (j, a)) q.0), q.1)
        ]
        | inr (b, i, r) ↦ inr (b, inr i, r)
      ],
      elim [
        | inl o ↦ from (inl (from' (inl o)))
        | inr (b, inl e, r) ↦ from (
            inl (
              from' (
                inr (
                  ap (λ (q : LayerId × Accesses). q.0) e,
                  subst (λ (q : LayerId × Accesses). ReadsAt q.1.reads c) e r,
                ))))
        | inr (b, inr i, r) ↦ from (inr (b, i, r))
      ],
    )

-- The index holds, under each cell, exactly the layers whose invocations read it.
pub In-readers :
    (m : Map LayerId Accesses) (k : LayerId) (c : CellRef)
    → In k (readers_of (readers_from [] m) c) ↔ ReadsCell m k c
unfolding get
In-readers m k c =
    let (to, from) = In-readers_from [] m k c in
    (λ h. elim (to h) [ inl n ↦ absurd n | inr r ↦ r ], λ r. from (inr r))
