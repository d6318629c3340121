-- ===== src/Engine/Touch/Quiet.antt =====
-- When `moved_since` of touch.rs may stand in for a look at every cell.
use borg_core.Prelude.{◌≤◌, ◌<◌, ◌≡◌, ◌⊎◌, inl, inr, Option, none, some, List, [], ◌∷◌, arith}
use borg_core.Prelude.{Bool, true, false, refl, sym, In, All, Bool-cases, ◌≟◌, ite, nat_eq, subst}
use borg_core.Prelude.{if_pos, if_neg, if◌then◌else◌, any, ◌||◌, All-at, le→leb, lt→ltb}
use borg_core.Prelude.Map.{get, get-insert}
use borg_core.Core.Ids.{BranchId, LayerId}
use borg_core.Core.Cell.{CellRef, Event}
use borg_core.Core.Layer.{Layer, ReadPath, is_source}
use borg_core.Engine.Touch.{
  Touches, history, raise, record_touches, above_on_segment, moved_since, first_touched_since,
  apply, empty,
}
use borg_core.Engine.Touch.Lookup.{FirstTouched, first_touched_since-FirstTouched, Untouched}
use borg_core.Engine.Touch.Moved.{history-apply, written}

-- What `highest` says of a branch is at least `l`.
abbrev pub Covers : Option LayerId → LayerId → Type 0
Covers none l = ⊥
Covers (some h) l = l ≤ h

-- No history holds a layer above the branch's highest.
pub record IsCovered (t : Touches) : Type 0 where
  pub covered : (b l : LayerId) (c : CellRef) → In l (history t b c) → Covers (get t.highest b) l

pub IsCovered-empty : IsCovered empty
unfolding history get
IsCovered-empty = record { covered = λ b l c m. m }

raise-Covers :
    (o : Option LayerId) (layer l : LayerId) → Covers o l → Covers (some (raise o layer)) l
unfolding raise
raise-Covers none layer l h = absurd h
raise-Covers (some x) layer l h = ground arith

raise-Covers_self : (o : Option LayerId) (layer : LayerId) → Covers (some (raise o layer)) layer
unfolding raise
raise-Covers_self none layer = omega arith
raise-Covers_self (some x) layer = ground arith

highest-apply :
    (t : Touches) (layer : Layer) (events : List Event) (b : BranchId)
    → get (apply t layer events).highest b ≡ (
        if is_source layer.author
        then ite
            (layer.branch ≟ b)
            (some (raise (get t.highest layer.branch) layer.id))
            (get t.highest b)
        else get t.highest b)
unfolding apply record_touches
highest-apply t layer events b = elim (Bool-cases (is_source layer.author)) [
  | inl s ↦ rw s (get-insert t.highest layer.branch b _)
  | inr d ↦ rw d
]

-- Folding in a committed layer, of either author, keeps every history covered.
pub apply-IsCovered :
    (t : Touches) (layer : Layer) (events : List Event)
    → IsCovered t
    → IsCovered (apply t layer events)
apply-IsCovered t layer events h = record {
  covered = λ b l c m. rw highest-apply (elim (Bool-cases (is_source layer.author)) [
    | inl s ↦ rw s (source_case b l c ((history-apply t layer events b l c).0 m))
    | inr d ↦ rw d (elim ((history-apply t layer events b l c).0 m) [
      | inl old ↦ h.covered b l c old
      | inr q ↦ cc (q.0, d)
    ])
  ]);
}
  where
    source_case :
        (b l : LayerId) (c : CellRef)
        → (In l (history t b c)
            ⊎ ((is_source layer.author ≡ true)
                × (b ≡ layer.branch)
                × (l ≡ layer.id)
                × In c (written events)))
        → Covers
            (ite
              (layer.branch ≟ b)
              (some (raise (get t.highest layer.branch) layer.id))
              (get t.highest b))
            l
    source_case b l c m = elim (layer.branch ≟ b) [
      | yes p ↦ rw (if_pos _ p) (elim m [
        | inl old ↦
            raise-Covers _ layer.id l
              (subst (λ d. Covers (get t.highest d) l) (sym p) (h.covered b l c old))
        | inr q ↦
            subst (λ k. Covers (some (raise (get t.highest layer.branch) layer.id)) k) (sym q.2)
              (raise-Covers_self (get t.highest layer.branch) layer.id)
      ])
      | no p ↦
          rw (if_neg _ p) (elim m [ inl old ↦ h.covered b l c old | inr q ↦ absurd (p (sym q.1)) ])
    ]

-- On each segment the branch's newest touch lies within the bound, or the bound is not after
-- `since`, so that the segment shows nothing new.
abbrev pub IsSettled : Touches → LayerId → BranchId × LayerId → Type 0
IsSettled t since (branch, bound) =
    (h : LayerId) → get t.highest branch ≡ some h → (h ≤ bound) ⊎ (bound ≤ since)

above-Covers :
    (o : Option LayerId) (since bound l : LayerId)
    → Covers o l
    → since < l
    → l ≤ bound
    → ((h : LayerId) → o ≡ some h → (h ≤ bound) ⊎ (bound ≤ since))
    → above_on_segment o since bound ≡ true
unfolding above_on_segment
above-Covers none since bound l c lo hi f = absurd c
above-Covers (some x) since bound l c lo hi f = elim (f x refl) [
  | inl w ↦ rw (lt→ltb since x (omega arith)) (rw (le→leb x bound w))
  | inr w ↦ absurd (omega arith)
]

Bool-or_true : (b : Bool) → (b || true) ≡ true
Bool-or_true true = refl
Bool-or_true false = refl

any_of_In :
    {A : Type 0} (p : A → Bool) (xs : List A) (a : A) → In a xs → p a ≡ true → any p xs ≡ true
any_of_In p [] a m h = absurd m
any_of_In p (x ∷ xs) a (inl e) h = rw (subst (λ y. p y ≡ true) e h)
any_of_In p (x ∷ xs) a (inr m) h = rw (any_of_In p xs a m h) (Bool-or_true (p x))

Untouched-of_quiet :
    (t : Touches) (path : ReadPath) (since : LayerId)
    → IsCovered t
    → All (IsSettled t since) path.segments
    → moved_since t path since ≡ false
    → (cell : CellRef) → Untouched t path since cell
unfolding moved_since
Untouched-of_quiet t path since c settled quiet cell l w = cc (
  quiet,
  any_of_In (λ s. above_on_segment (get t.highest s.0) since s.1) path.segments (w.branch, w.bound)
      w.on_path
      (above-Covers (get t.highest w.branch) since w.bound l (c.covered w.branch l cell w.written)
        w.after w.visible
        (All-at (IsSettled t since) path.segments (w.branch, w.bound) settled w.on_path)),
)

none_of_FirstTouched :
    (t : Touches) (path : ReadPath) (since : LayerId) (cells : List CellRef)
    (o : Option (CellRef × LayerId))
    → ((cell : CellRef) → Untouched t path since cell)
    → FirstTouched t path since cells o
    → o ≡ none
none_of_FirstTouched t path since cells none f h = refl
none_of_FirstTouched t path since cells (some (cell, layer)) f h = absurd (f cell layer h.4)

-- On a covered index whose path is settled, `moved_since` answering false means that
-- `first_touched_since` finds nothing, whatever the cells: a merge may skip its guards.
pub first_touched_since-moved_since :
    (t : Touches) (path : ReadPath) (since : LayerId) (cells : List CellRef)
    → IsCovered t
    → All (IsSettled t since) path.segments
    → moved_since t path since ≡ false
    → first_touched_since t path cells since ≡ none
first_touched_since-moved_since t path since cells c settled quiet =
    none_of_FirstTouched t path since cells _ (Untouched-of_quiet t path since c settled quiet)
      (first_touched_since-FirstTouched t path cells since)
