-- ===== src/Engine/Log/State/Highest.antt =====
-- `highest_source_layer`: where a branch stands in the stream of source layers.
use borg_core.Prelude.{
  ◌≤◌, ◌≡◌, inl, inr, true, false, Option, none, some, List, [], ◌∷◌, ◌&&◌, max, keep, same, refl,
  sym, subst, ap, ◌↔◌, ◌==◌, nat_eq, any, arith,
}
use borg_core.Prelude.{In, In-keep, Bool-cases, leb}
use borg_core.Core.Ids.{BranchId, LayerId}
use borg_core.Core.Layer.{
  Layer, LayerAuthor, ReadPath, source, derived, committed, is_source, layer_state_eq,
}
use borg_core.Engine.Log.State.{
  Manager, all_layers, highest, max_with, visible_along, highest_source_layer,
}

-- The option holds the greatest id of a layer with the property, and `none` means that there is none.
abbrev pub IsHighest : Option LayerId → (Layer → Type 0) → Type 0
IsHighest none P = (l : Layer) → P l → ⊥
IsHighest (some h) P = ((l : Layer) × P l × (l.id ≡ h)) × ((l : Layer) → P l → l.id ≤ h)

-- A segment of the path that is on the layer's branch, with a bound at the layer or above it.
abbrev pub IsWithin : List (BranchId × LayerId) → Layer → Type 0
IsWithin segments l = (s : BranchId × LayerId) × In s segments × (l.branch ≡ s.0) × (l.id ≤ s.1)

-- A committed source layer that the path shows.
abbrev pub IsShown : Manager → ReadPath → Layer → Type 0
IsShown m path l =
    In l (all_layers m) × (l.state ≡ committed) × (l.author ≡ source) × IsWithin path.segments l

any-IsWithin :
    (segments : List (BranchId × LayerId)) (l : Layer)
    → (any (λ (s : BranchId × LayerId). (l.branch == s.0) && leb l.id s.1) segments ≡ true)
      ↔ IsWithin segments l
any-IsWithin [] l = (λ h. cc, λ h. absurd h.1)
any-IsWithin ((b, bound) ∷ segments) l =
    let (forth, back) = any-IsWithin segments l in
    elim (Bool-cases ((l.branch == b) && leb l.id bound)) [
      | inl t ↦ rw t (λ h. ((b, bound), inl refl, ground (arith, t), ground (arith, t)), λ h. refl)
      | inr f ↦ rw f (
        λ h. let (s, i, e, le) = forth h in (s, inr i, e, le),
        λ (s, i, e, le). elim i [
          | inl here ↦ absurd (apart s here f e le)
          | inr there ↦ back (s, there, e, le)
        ],
      )
    ]
  where
    apart :
        (s : BranchId × LayerId)
        → s ≡ (b, bound)
        → ((l.branch == b) && leb l.id bound) ≡ false
        → l.branch ≡ s.0
        → l.id ≤ s.1
        → ⊥
    apart s here f e le =
        let at : s.0 ≡ b = ap (λ (x : BranchId × LayerId). x.0) here in
        let up : s.1 ≡ bound = ap (λ (x : BranchId × LayerId). x.1) here in
        ground (arith, f, e, le, at, up)

visible_along-IsWithin :
    (path : ReadPath) (l : Layer) → (visible_along path l ≡ true) ↔ IsWithin path.segments l
unfolding visible_along
visible_along-IsWithin path l = any-IsWithin path.segments l

pub is_source_lem : (author : LayerAuthor) → is_source author ≡ true → author ≡ source
is_source_lem source h = refl
is_source_lem (derived producer reflects) h = cc

step-IsHighest :
    (l : Layer) (ls : List Layer) (o : Option LayerId)
    → IsHighest o (λ k. In k ls)
    → IsHighest (some (max_with l.id o)) (λ k. In k (l ∷ ls))
unfolding max_with
step-IsHighest l ls none h = (
  (l, inl refl, refl),
  λ k. elim [
    | inl e ↦ subst (λ (q : Layer). q.id ≤ l.id) (sym e) (omega arith)
    | inr i ↦ absurd (h k i)
  ],
)
step-IsHighest l ls (some x) h = (
  elim (Bool-cases (leb x l.id)) [
    | inl t ↦ (l, inl refl, ground (arith, t))
    | inr f ↦ (h.0.0, inr h.0.1, ground (arith, f, h.0.2))
  ],
  λ k. elim [
    | inl e ↦ subst (λ (q : Layer). q.id ≤ max l.id x) (sym e) (omega arith)
    | inr i ↦ let le = h.1 k i in omega (arith, le)
  ],
)

highest-IsHighest : (ls : List Layer) → IsHighest (highest ls) (λ k. In k ls)
unfolding highest
highest-IsHighest [] = λ l i. i
highest-IsHighest (l ∷ ls) = step-IsHighest l ls (highest ls) (highest-IsHighest ls)

IsHighest-iff :
    (P Q : Layer → Type 0) (o : Option LayerId)
    → ((l : Layer) → P l → Q l)
    → ((l : Layer) → Q l → P l)
    → IsHighest o P
    → IsHighest o Q
IsHighest-iff P Q none f g h = λ l q. h l (g l q)
IsHighest-iff P Q (some x) f g h = ((h.0.0, f h.0.0 h.0.1, h.0.2), λ l q. h.1 l (g l q))

-- `highest_source_layer` answers the highest committed source layer that stands on a branch of the
-- path at or below that segment's bound, and nothing exactly when there is no such layer.
pub highest_source_layer-IsHighest :
    (m : Manager) (path : ReadPath) → IsHighest (highest_source_layer m path) (IsShown m path)
unfolding highest_source_layer
highest_source_layer-IsHighest m path =
    let p = λ (l : Layer). same l.state committed && is_source l.author in
    let kept = keep p (all_layers m) in
    IsHighest-iff (λ l. In l (keep (visible_along path) kept)) (IsShown m path) _
      (λ l i.
        let (j, v) = (In-keep (visible_along path) kept l).0 i in
        let (k, s) = (In-keep p (all_layers m) l).0 j in
        (
          k,
          ground (arith, s),
          is_source_lem l.author (ground (arith, s)),
          (visible_along-IsWithin path l).0 v,
        ))
      (λ l (k, c, s, v). (In-keep (visible_along path) kept l).1 (
        (In-keep p (all_layers m) l).1 (k, ground (arith, c, s, ap is_source s)),
        (visible_along-IsWithin path l).1 v,
      ))
      (highest-IsHighest (keep (visible_along path) kept))
