-- ===== src/Core/Round/Guards.antt =====
-- What a round's guards are.
use borg_core.Prelude.{◌≡◌, ◌↔◌, inl, inr, Bool, true, false, not, List, [], ◌∷◌, map, refl, sym}
use borg_core.Prelude.{
  In, contains, keep, Bool-cases, contains_of_In, In_of_contains, In-append_left,
}
use borg_core.Prelude.{In-append_right, In-append_cases, ap, subst, ◌∙◌}
use borg_core.Prelude.Map.{Map}
use borg_core.Core.Ids.{LayerId}
use borg_core.Core.Cell.{CellAt, CellRef, cell_at_eq}
use borg_core.Core.Round.{Round, Accesses, written_by, guards_of, guards}

-- Some invocation of the round wrote the record.
abbrev pub Produced : Map LayerId Accesses → CellAt → Type 0
Produced m at = (k : LayerId) × (a : Accesses) × In (k, a) m × In at a.writes

In-written_by : (m : Map LayerId Accesses) (at : CellAt) → In at (written_by m) ↔ Produced m at
unfolding written_by
In-written_by [] at = (λ h. absurd h, λ p. p.2)
In-written_by ((layer, a) ∷ m) at =
    let (to, from) = In-written_by m at in
    (
      λ h. elim (In-append_cases a.writes (written_by m) at h) [
        | inl w ↦ (layer, a, inl refl, w)
        | inr w ↦ let (k, b, i, v) = to w in (k, b, inr i, v)
      ],
      λ p. elim p.2 [
        | inl e ↦
            In-append_left a.writes (written_by m) at
              (subst (λ (q : LayerId × Accesses). In at q.1.writes) e p.3)
        | inr i ↦ In-append_right a.writes (written_by m) at (from (p.0, p.1, i, p.3))
      ],
    )

-- The cell of a record that the invocation read and the list does not hold.
abbrev pub ReadUnproduced : List CellAt → List CellAt → CellRef → Type 0
ReadUnproduced produced reads c =
    (at : CellAt) × In at reads × (contains produced at ≡ false) × (at.cell ≡ c)

In-guards_of :
    (produced reads : List CellAt) (c : CellRef)
    → In c (map (λ at. at.cell) (keep (λ at. not (contains produced at)) reads))
      ↔ ReadUnproduced produced reads c
In-guards_of produced [] c = (λ h. absurd h, λ p. p.1)
In-guards_of produced (r ∷ reads) c =
    let (to, from) = In-guards_of produced reads c in
    elim (Bool-cases (contains produced r)) [
      | inl t ↦ rw t (
        λ h. let (at, i, n, e) = to h in (at, inr i, n, e),
        λ p. elim p.1 [
          | inl e ↦ absurd (clash (subst (λ x. contains produced x ≡ true) (sym e) t) p.2)
          | inr i ↦ from (p.0, i, p.2, p.3)
        ],
      )
      | inr f ↦ rw f (
        elim [
          | inl e ↦ (r, inl refl, f, sym e)
          | inr h ↦ let (at, i, n, e) = to h in (at, inr i, n, e)
        ],
        λ p. elim p.1 [
          | inl e ↦ inl (sym p.3 ∙ ap (λ x. x.cell) e)
          | inr i ↦ inr (from (p.0, i, p.2, p.3))
        ],
      )
    ]
  where
    clash : {b : Bool} → b ≡ true → b ≡ false → ⊥
    clash p q = cc

In-map :
    {A B : Type 0} (f : A → B) (xs : List A) (b : B)
    → In b (map f xs)
    → (a : A) × In a xs × (b ≡ f a)
In-map f [] b h = absurd h
In-map f (x ∷ xs) b (inl e) = (x, inl refl, e)
In-map f (x ∷ xs) b (inr h) = let (a, i, e) = In-map f xs b h in (a, inr i, e)

-- Every entry of a round's guards belongs to one of its invocations, and names exactly the cells of
-- the records that the invocation read and no invocation of the round wrote: the difference is over
-- records, so a migration that reads a cell at one version and writes it at another guards it.
pub guards-ReadUnproduced :
    (round : Round) (layer : LayerId) (cells : List CellRef)
    → In (layer, cells) (guards round)
    → (a : Accesses) × In (layer, a) round.invocations
      × ((c : CellRef)
          → In c cells
            ↔ ((at : CellAt) × In at a.reads × (Produced round.invocations at → ⊥) × (at.cell ≡ c)))
unfolding guards
guards-ReadUnproduced round layer cells h =
    let inv = round.invocations in
    let produced = written_by inv in
    let (p, i, e) =
      In-map (λ (q : LayerId × Accesses). (q.0, guards_of produced q.1)) inv (layer, cells) h in
    let names : cells ≡ guards_of produced p.1 = ap (λ (q : LayerId × List CellRef). q.1) e in
    (
      p.1,
      subst (λ (k : LayerId). In (k, p.1) inv) (sym (ap (λ (q : LayerId × List CellRef). q.0) e)) i,
      λ c.
          let (to, from) = In-guards_of produced p.1.reads c in
          (
            λ m.
                let (at, r, n, q) = to (subst (λ cs. In c cs) names m) in
                (at, r, λ w. clash (contains_of_In produced at ((In-written_by inv at).1 w)) n, q),
            λ m.
                subst (λ cs. In c cs) (sym names)
                  (from
                    (m.0, m.1, absent produced m.0 (λ w. m.2 ((In-written_by inv m.0).0 w)), m.3)),
          ),
    )
  where
    clash : {b : Bool} → b ≡ true → b ≡ false → ⊥
    clash p q = cc

    absent : (xs : List CellAt) (at : CellAt) → (In at xs → ⊥) → contains xs at ≡ false
    absent xs at n = elim (Bool-cases (contains xs at)) [
      | inl t ↦ absurd (n (In_of_contains xs at t))
      | inr f ↦ f
    ]
