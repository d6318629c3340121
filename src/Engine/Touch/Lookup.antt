-- ===== src/Engine/Touch/Lookup.antt =====
-- What `lookup` and `first_touched_since` of touch.rs answer.
use borg_core.Prelude.{◌≤◌, ◌<◌, ◌≡◌, ◌⊎◌, inl, inr, Option, none, some, List, [], ◌∷◌, arith, refl}
use borg_core.Prelude.{In, All, ltb, leb, ◌&&◌, if◌then◌else◌, subst, ap, Bool-cases, ltb→lt, ◌++◌}
use borg_core.Core.Ids.{BranchId, LayerId}
use borg_core.Core.Cell.{CellRef}
use borg_core.Core.Layer.{ReadPath}
use borg_core.Engine.Touch.{
  Touches, history, is_earlier, earliest_in, lookup_from, lookup, found_at, first_touched_since,
}

-- `layer` wrote the cell on a segment, above `since` and within the segment's bound.
pub record TouchedOn (t : Touches) (segments : List (BranchId × LayerId)) (cell : CellRef)
    (since layer : LayerId) : Type 0 where
  pub branch : BranchId
  pub bound : LayerId
  pub on_path : In (branch, bound) segments
  pub written : In layer (history t branch cell)
  pub after : since < layer
  pub visible : layer ≤ bound

-- The option holds the least layer with the property, and `none` means that there is none.
abbrev pub IsLeast : Option LayerId → (LayerId → Type 0) → Type 0
IsLeast none P = (l : LayerId) → P l → ⊥
IsLeast (some f) P = P f × ((l : LayerId) → P l → f ≤ l)

IsLeast-iff :
    (P Q : LayerId → Type 0) (o : Option LayerId)
    → ((l : LayerId) → P l → Q l)
    → ((l : LayerId) → Q l → P l)
    → IsLeast o P
    → IsLeast o Q
IsLeast-iff P Q none f g h = λ l q. h l (g l q)
IsLeast-iff P Q (some x) f g h = (f x h.0, λ l q. h.1 l (g l q))

abbrev InRange : LayerId → LayerId → LayerId → Type 0
InRange since bound l = (since < l) × (l ≤ bound)

abbrev Stepped : (LayerId → Type 0) → LayerId → LayerId → LayerId → LayerId → Type 0
Stepped P layer since bound l = P l ⊎ ((l ≡ layer) × InRange since bound l)

abbrev Scanned : (LayerId → Type 0) → List LayerId → LayerId → LayerId → LayerId → Type 0
Scanned P xs since bound l = P l ⊎ (In l xs × InRange since bound l)

-- One turn of the inner loop.
step : Option LayerId → LayerId → LayerId → LayerId → Option LayerId
unfolding is_earlier
step found layer since bound =
    if ltb since layer && leb layer bound && is_earlier found layer then some layer else found

step-IsLeast :
    (P : LayerId → Type 0) (found : Option LayerId) (layer since bound : LayerId)
    → IsLeast found P
    → IsLeast (step found layer since bound) (Stepped P layer since bound)
unfolding step
step-IsLeast P none layer since bound h = elim (Bool-cases (ltb since layer && leb layer bound)) [
  | inl t ↦ rw t (
    inr (refl, (ground arith, ground arith)),
    λ l. elim [ inl p ↦ absurd (h l p) | inr q ↦ omega (arith, q.0) ],
  )
  | inr f ↦ rw f (λ l. elim [ inl p ↦ h l p | inr q ↦ ground (arith, q.0) ])
]
step-IsLeast P (some x) layer since bound h =
    elim (Bool-cases (ltb since layer && leb layer bound && ltb layer x)) [
      | inl t ↦ rw t (
        inr (refl, (ground arith, ground arith)),
        λ l. elim [
          | inl p ↦ omega (arith, h.1 l p, ltb→lt layer x (ground arith))
          | inr q ↦ omega (arith, q.0)
        ],
      )
      | inr f ↦ rw f (inl h.0, λ l. elim [ inl p ↦ h.1 l p | inr q ↦ ground (arith, q.0, q.1) ])
    ]

module _ (since bound : LayerId) where
  earliest_in-IsLeast :
      (P : LayerId → Type 0) (found : Option LayerId) (xs : List LayerId)
      → IsLeast found P
      → IsLeast (earliest_in found xs since bound) (Scanned P xs since bound)
  unfolding earliest_in step
  earliest_in-IsLeast P found [] h =
      IsLeast-iff P _ found (λ l p. inl p) (λ l. elim [ inl p ↦ p | inr q ↦ absurd q.0 ]) h
  earliest_in-IsLeast P found (x ∷ xs) h =
      IsLeast-iff (Scanned (Stepped P x since bound) xs since bound)
        (Scanned P (x ∷ xs) since bound) _
        (λ l. elim [
          | inl (inl p) ↦ inl p
          | inl (inr q) ↦ inr (inl q.0, q.1)
          | inr q ↦ inr (inr q.0, q.1)
        ])
        (λ l. elim [
          | inl p ↦ inl (inl p)
          | inr (inl e, q) ↦ inl (inr (e, q))
          | inr (inr m, q) ↦ inr (m, q)
        ])
        (earliest_in-IsLeast (Stepped P x since bound) (step found x since bound) xs
          (step-IsLeast P found x since bound h))

module _ (t : Touches) (cell : CellRef) (since : LayerId) where
  abbrev Touched : List (BranchId × LayerId) → LayerId → Type 0
  Touched segments l = TouchedOn t segments cell since l

  here_or_later :
      (branch bound l : LayerId) (rest : List (BranchId × LayerId))
      → TouchedOn t ((branch, bound) ∷ rest) cell since l
      → (In l (history t branch cell) × InRange since bound l) ⊎ TouchedOn t rest cell since l
  here_or_later branch bound l rest h = go h.on_path
    where
      go :
          In (h.branch, h.bound) ((branch, bound) ∷ rest)
          → (In l (history t branch cell) × InRange since bound l) ⊎ TouchedOn t rest cell since l
      go (inl e) = inl (
        subst (λ b. In l (history t b cell)) (ap (λ p. p.0) e) h.written,
        (h.after, subst (λ b. l ≤ b) (ap (λ p. p.1) e) h.visible),
      )
      go (inr m) = inr (record {
        branch = h.branch;
        bound = h.bound;
        on_path = m;
        written = h.written;
        after = h.after;
        visible = h.visible;
      })

  lookup_from-IsLeast :
      (P : LayerId → Type 0) (found : Option LayerId) (segments : List (BranchId × LayerId))
      → IsLeast found P
      → IsLeast (lookup_from found t segments cell since) (λ l. P l ⊎ Touched segments l)
  unfolding lookup_from
  lookup_from-IsLeast P found [] h =
      IsLeast-iff P _ found (λ l p. inl p) (λ l. elim [ inl p ↦ p | inr q ↦ absurd q.on_path ]) h
  lookup_from-IsLeast P found ((branch, bound) ∷ rest) h =
      let Q = Scanned P (history t branch cell) since bound in
      IsLeast-iff (λ l. Q l ⊎ Touched rest l) (λ l. P l ⊎ Touched ((branch, bound) ∷ rest) l) _
        (λ l. elim [
          | inl (inl p) ↦ inl p
          | inl (inr q) ↦ inr (record {
            branch = branch;
            bound = bound;
            on_path = inl refl;
            written = q.0;
            after = q.1.0;
            visible = q.1.1;
          })
          | inr q ↦ inr (record {
            branch = q.branch;
            bound = q.bound;
            on_path = inr q.on_path;
            written = q.written;
            after = q.after;
            visible = q.visible;
          })
        ])
        (λ l. elim [
          | inl p ↦ inl (inl p)
          | inr q ↦ elim (here_or_later branch bound l rest q) [
            | inl a ↦ inl (inr a)
            | inr b ↦ inr b
          ]
        ])
        (lookup_from-IsLeast (Scanned P (history t branch cell) since bound)
          (earliest_in found (history t branch cell) since bound) rest
          (earliest_in-IsLeast since bound P found (history t branch cell) h))

-- `lookup` answers the earliest visible layer after `since` that touched the cell on the path, and
-- nothing exactly when there is no such layer.
pub lookup-IsLeast :
    (t : Touches) (path : ReadPath) (cell : CellRef) (since : LayerId)
    → IsLeast (lookup t path cell since) (TouchedOn t path.segments cell since)
unfolding lookup
lookup-IsLeast t path cell since =
    IsLeast-iff (λ l. ⊥ ⊎ TouchedOn t path.segments cell since l)
      (TouchedOn t path.segments cell since) _ (λ l. elim [ inl p ↦ absurd p | inr q ↦ q ])
      (λ l q. inr q) (lookup_from-IsLeast t cell since (λ l. ⊥) none path.segments (λ l p. p))

-- No layer after `since` that the path shows has touched the cell.
abbrev pub Untouched : Touches → ReadPath → LayerId → CellRef → Type 0
Untouched t path since cell = (l : LayerId) → TouchedOn t path.segments cell since l → ⊥

-- What `first_touched_since` promises: with `none` no cell was touched, and with a cell and a layer
-- the cell stands in the list behind untouched ones only, and the layer is its earliest touch.
abbrev pub FirstTouched :
    Touches → ReadPath → LayerId → List CellRef → Option (CellRef × LayerId) → Type 0
FirstTouched t path since cells none = All (Untouched t path since) cells
FirstTouched t path since cells (some (cell, layer)) =
    (before : List CellRef) × (after : List CellRef) × (cells ≡ before ++ (cell ∷ after))
    × All (Untouched t path since) before
    × TouchedOn t path.segments cell since layer
    × ((l : LayerId) → TouchedOn t path.segments cell since l → layer ≤ l)

-- `first_touched_since` answers the first cell of the list that was touched after `since` on the
-- path, with its earliest touch, and nothing exactly when no cell of the list was touched.
pub first_touched_since-FirstTouched :
    (t : Touches) (path : ReadPath) (cells : List CellRef) (since : LayerId)
    → FirstTouched t path since cells (first_touched_since t path cells since)
unfolding first_touched_since
first_touched_since-FirstTouched t path [] since = tt
first_touched_since-FirstTouched t path (cell ∷ rest) since =
    go (lookup t path cell since) (lookup-IsLeast t path cell since)
      (first_touched_since t path rest since) (first_touched_since-FirstTouched t path rest since)
  where
    go :
        (found : Option LayerId)
        → IsLeast found (TouchedOn t path.segments cell since)
        → (later : Option (CellRef × LayerId)) → FirstTouched t path since rest later
        → FirstTouched t path since (cell ∷ rest) (found_at cell found later)
    go (some layer) h later ih = ([], rest, refl, tt, h.0, h.1)
    go none h none ih = (h, ih)
    go none h (some (c, layer)) (before, after, e, all, touched, least) =
        (cell ∷ before, after, ap (◌∷◌ cell) e, (h, all), touched, least)
