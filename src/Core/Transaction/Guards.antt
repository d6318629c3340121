-- ===== src/Core/Transaction/Guards.antt =====
-- What a transaction's guards are, whatever it reads and writes.
use borg_core.Prelude.{
  ◌≡◌, ◌≢◌, ◌⊎◌, ◌↔◌, inl, inr, Bool, true, false, List, [], ◌∷◌, arith, refl, sym, ap, ◌∙◌,
}
use borg_core.Prelude.{add, contains, contains-add, push, Bool-cases, ◌≟◌, ◌||◌, same}
use borg_core.Core.Ids.{BranchId, LayerId}
use borg_core.Core.Cell.{CellAt, CellRef, cell_eq, cell_at_eq}
use borg_core.Core.Transaction.{Transaction, new, observe, wrote, guards, cells_of}

-- What a client does through a transaction.
pub data Access : Type 0 where
  read : CellAt → Access
  write : CellRef → Access

unfoldable pub perform : Transaction → List Access → Transaction
perform t [] = t
perform t (read at ∷ rest) = perform (observe t at) rest
perform t (write cell ∷ rest) = perform (wrote t cell) rest

-- The cell is read before the first write to it.
abbrev pub ReadsFirst : List Access → CellRef → Type 0
ReadsFirst [] c = ⊥
ReadsFirst (read at ∷ rest) c = (at.cell ≡ c) ⊎ ReadsFirst rest c
ReadsFirst (write cell ∷ rest) c = (cell ≢ c) × ReadsFirst rest c

-- Some read of the list is of the cell.
abbrev reads_cell : List CellAt → CellRef → Bool
reads_cell [] c = false
reads_cell (at ∷ rest) c = same at.cell c || reads_cell rest c

contains-cells_of :
    (cells : List CellRef) (reads : List CellAt) (c : CellRef)
    → contains (cells_of cells reads) c ≡ (contains cells c || reads_cell reads c)
unfolding cells_of
contains-cells_of cells [] c = ground arith
contains-cells_of cells (at ∷ rest) c =
    ground (arith, contains-cells_of (add cells at.cell) rest c, contains-add cells at.cell c)

reads_cell_known :
    (reads : List CellAt) (at : CellAt) (c : CellRef)
    → contains reads at ≡ true
    → reads_cell reads c ≡ (reads_cell reads c || same at.cell c)
reads_cell_known [] at c h = cc
reads_cell_known (x ∷ xs) at c h = elim (x ≟ at) [
  | yes p ↦ ground (arith, ap (λ (y : CellAt). same y.cell c) p)
  | no p ↦ ground (arith, p, reads_cell_known xs at c (ground (arith, p)))
]

reads_cell-push :
    (reads : List CellAt) (at : CellAt) (c : CellRef)
    → reads_cell (push reads at) c ≡ (reads_cell reads c || same at.cell c)
reads_cell-push [] at c = ground arith
reads_cell-push (x ∷ xs) at c = ground (arith, reads_cell-push xs at c)

reads_cell-add :
    (reads : List CellAt) (at : CellAt) (c : CellRef)
    → reads_cell (add reads at) c ≡ (reads_cell reads c || same at.cell c)
unfolding add
reads_cell-add reads at c = elim (Bool-cases (contains reads at)) [
  | inl t ↦ rw t (reads_cell_known reads at c t)
  | inr f ↦ rw f (reads_cell-push reads at c)
]

-- A cell is read by the transaction so far, or is read later before any write to it.
abbrev Guarded : Transaction → List Access → CellRef → Type 0
Guarded t ops c = (reads_cell t.reads c ≡ true) ⊎ ((contains t.writes c ≡ false) × ReadsFirst ops c)

Guarded-observe :
    (t : Transaction) (at : CellAt) (ops : List Access) (c : CellRef)
    → Guarded (observe t at) ops c ↔ Guarded t (read at ∷ ops) c
unfolding observe
Guarded-observe t at ops c = elim (Bool-cases (contains t.writes at.cell)) [
  | inl w ↦ rw w (
    elim [ inl r ↦ inl r | inr q ↦ inr (q.0, inr q.1) ],
    elim [
      | inl r ↦ inl r
      | inr (u, inl p) ↦ absurd (clash (rw p at w) u)
      | inr (u, inr q) ↦ inr (u, q)
    ],
  )
  | inr w ↦ rw w (
    elim [
      | inl r ↦ elim (at.cell ≟ c) [
        | yes p ↦ inr (rw p at w, inl p)
        | no p ↦ inl (ground (arith, p, r, reads_cell-add t.reads at c))
      ]
      | inr q ↦ inr (q.0, inr q.1)
    ],
    elim [
      | inl r ↦ inl (ground (arith, r, reads_cell-add t.reads at c))
      | inr (u, inl p) ↦ inl (ground (arith, p, reads_cell-add t.reads at c))
      | inr (u, inr q) ↦ inr (u, q)
    ],
  )
]
  where
    clash : {b : Bool} → b ≡ true → b ≡ false → ⊥
    clash p q = cc

Guarded-wrote :
    (t : Transaction) (cell : CellRef) (ops : List Access) (c : CellRef)
    → Guarded (wrote t cell) ops c ↔ Guarded t (write cell ∷ ops) c
unfolding wrote
Guarded-wrote t cell ops c = (
  elim [
    | inl r ↦ inl r
    | inr q ↦ inr (
      ground (arith, q.0, contains-add t.writes cell c),
      (λ p. ground (arith, q.0, p, contains-add t.writes cell c), q.1),
    )
  ],
  elim [
    | inl r ↦ inl r
    | inr q ↦ inr (
      elim (cell ≟ c) [
        | yes p ↦ absurd (q.1.0 p)
        | no p ↦ ground (arith, q.0, p, contains-add t.writes cell c)
      ],
      q.1.1,
    )
  ],
)

reads_cell-perform :
    (t : Transaction) (ops : List Access) (c : CellRef)
    → (reads_cell (perform t ops).reads c ≡ true) ↔ Guarded t ops c
unfolding perform
reads_cell-perform t [] c = (λ h. inl h, elim [ inl h ↦ h | inr q ↦ absurd q.1 ])
reads_cell-perform t (read at ∷ ops) c =
    let (to, from) = reads_cell-perform (observe t at) ops c in
    let (out, back) = Guarded-observe t at ops c in (λ h. out (to h), λ h. from (back h))
reads_cell-perform t (write cell ∷ ops) c =
    let (to, from) = reads_cell-perform (wrote t cell) ops c in
    let (out, back) = Guarded-wrote t cell ops c in (λ h. out (to h), λ h. from (back h))

-- Whatever a transaction reads and writes, and at whatever versions, its guards are exactly the
-- cells that it read before it first wrote them: a read of its own write is no guard, and a read
-- that comes before a write to the same cell is one.
pub guards-ReadsFirst :
    (branch parent : BranchId) (fork_point : LayerId) (ops : List Access) (c : CellRef)
    → (contains (guards (perform (new branch parent fork_point) ops)) c ≡ true) ↔ ReadsFirst ops c
unfolding guards
guards-ReadsFirst branch parent fork_point ops c =
    let t = perform (new branch parent fork_point) ops in
    let (to, from) = reads_cell-perform (new branch parent fork_point) ops c in
    (
      λ h. elim (to (sym (contains-cells_of [] t.reads c) ∙ h)) [ inl e ↦ cc | inr q ↦ q.1 ],
      λ h. contains-cells_of [] t.reads c ∙ from (inr (refl, h)),
    )
