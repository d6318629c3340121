-- ===== src/Engine/Index/Forgotten.antt =====
-- What forgetting a producer takes away.
use borg_core.Prelude.{
  ◌≡◌, inl, inr, Bool, false, none, some, List, [], ◌∷◌, arith, refl, sym, ap, ◌∙◌,
}
use borg_core.Prelude.{
  contains, not, same, unwrap_or, Bool-cases, if◌then◌else◌, ◌≟◌, ◌||◌, ◌&&◌, ◌==◌, if_pos, if_neg,
}
use borg_core.Prelude.Map.{Map, get}
use borg_core.Prelude.Unique.{IsUnique}
use borg_core.Core.Ids.{BranchId, ProducerId}
use borg_core.Core.Cell.{CellAt}
use borg_core.Engine.Index.{
  Invocation, CellOn, DependencyIndex, cell_on_eq, invocation_eq, forget_set, forget_edges,
  is_nonempty, forget_producer,
}
use borg_core.Engine.Index.Edges.{subscribed}

contains-forget_set :
    (set : List Invocation) (p : ProducerId) (i : Invocation)
    → contains (forget_set p set) i ≡ (contains set i && not (i.producer == p))
unfolding forget_set
contains-forget_set [] p i = refl
contains-forget_set (k ∷ set) p i = elim (k ≟ i) [
  | yes q ↦ ground (arith, q, ap (λ (x : Invocation). x.producer) q, contains-forget_set set p i)
  | no n ↦ ground (arith, n, contains-forget_set set p i)
]

get-forget_edges-none :
    (m : Map CellOn (List Invocation)) (b : BranchId) (p : ProducerId) (at : CellOn)
    → get m at ≡ none
    → get (forget_edges m b p) at ≡ none
unfolding get forget_edges
get-forget_edges-none [] b p at h = refl
get-forget_edges-none ((k, set) ∷ m) b p at h = elim (k ≟ at) [
  | yes q ↦ cc (sym (if_pos (k ≟ at) q (some set) (get m at)) ∙ h)
  | no n ↦
      let rest =
        get-forget_edges-none m b p at (sym (if_neg (k ≟ at) n (some set) (get m at)) ∙ h) in
      elim (Bool-cases (not (k.branch == b) || is_nonempty (forget_set p set))) [
        | inl t ↦
            rw t (if_neg (k ≟ at) n (some (forget_set p set)) (get (forget_edges m b p) at) ∙ rest)
        | inr f ↦ rw f rest
      ]
]

contains-empty :
    (set : List Invocation) (i : Invocation) → is_nonempty set ≡ false → contains set i ≡ false
unfolding is_nonempty
contains-empty [] i h = refl
contains-empty (k ∷ set) i h = cc

subscribed-cons :
    (m : Map CellOn (List Invocation)) (k at : CellOn) (set : List Invocation) (i : Invocation)
    → subscribed ((k, set) ∷ m) at i ≡ (if same k at then contains set i else subscribed m at i)
unfolding subscribed get
subscribed-cons m k at set i = elim (k ≟ at) [
  | yes q ↦ ground (arith, q)
  | no n ↦ ground (arith, n)
]

forget_edges-cons :
    (m : Map CellOn (List Invocation)) (k : CellOn) (set : List Invocation) (b : BranchId)
    (p : ProducerId)
    → forget_edges ((k, set) ∷ m) b p ≡ (
        if not (k.branch == b) || is_nonempty (forget_set p set)
        then (k, forget_set p set) ∷ forget_edges m b p
        else forget_edges m b p)
unfolding forget_edges
forget_edges-cons m k set b p = refl

subscribed-absent :
    (m : Map CellOn (List Invocation)) (at : CellOn) (i : Invocation)
    → get m at ≡ none
    → subscribed m at i ≡ false
unfolding subscribed
subscribed-absent m at i e = ap (λ o. contains (unwrap_or o []) i) e

subscribed-forget_edges :
    (m : Map CellOn (List Invocation)) (b : BranchId) (p : ProducerId) (at : CellOn)
    (i : Invocation)
    → IsUnique m
    → subscribed (forget_edges m b p) at i ≡ (subscribed m at i && not (i.producer == p))
subscribed-forget_edges [] b p at i u = unfold subscribed forget_edges get in refl
subscribed-forget_edges ((k, set) ∷ m) b p at i u =
    let left = forget_set p set in
    let rest = subscribed-forget_edges m b p at i u.1 in
    rw (forget_edges-cons m k set b p, subscribed-cons m k at set i)
      (elim (Bool-cases (not (k.branch == b) || is_nonempty left)) [
        | inl t ↦ rw t (
            rw (subscribed-cons (forget_edges m b p) k at left i) (elim (k ≟ at) [
              | yes q ↦ ground (arith, q, contains-forget_set set p i)
              | no n ↦ ground (arith, n, rest)
            ]))
        | inr f ↦ rw f (elim (k ≟ at) [
          | yes q ↦
              let gone =
                subscribed-absent (forget_edges m b p) at i
                  (get-forget_edges-none m b p at (ap (λ j. get m j) (sym q) ∙ u.0)) in
              let empty =
                contains-empty left i (nothing_left (not (k.branch == b)) (is_nonempty left) f) in
              ground (arith, q, gone, sym empty ∙ contains-forget_set set p i)
          | no n ↦ ground (arith, n, rest)
        ])
      ])
  where
    nothing_left : (a c : Bool) → (a || c) ≡ false → c ≡ false
    nothing_left a c h = ground (arith, h)

-- On an index with one entry for each record, forgetting a producer on one branch takes its
-- invocations out of the forward edges of every
-- branch, and no other invocation out of any.
pub forget_producer-subscribed :
    (d : DependencyIndex) (b e : BranchId) (p : ProducerId) (c : CellAt) (i : Invocation)
    → IsUnique d.dependents
    → subscribed (forget_producer d b p).dependents (record { branch = e; cell = c }) i
      ≡ (subscribed d.dependents (record { branch = e; cell = c }) i && not (i.producer == p))
unfolding forget_producer
forget_producer-subscribed d b e p c i u =
    subscribed-forget_edges d.dependents b p (record { branch = e; cell = c }) i u
