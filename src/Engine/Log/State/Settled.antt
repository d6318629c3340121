-- ===== src/Engine/Log/State/Settled.antt =====
-- `settled_ceiling` is the end of the longest settled prefix of a branch.
use borg_core.Prelude.{
  ◌≤◌, ◌<◌, ◌≡◌, ◌⊎◌, ◌↔◌, ◌&&◌, ◌==◌, same, nat_eq, In-keep, inl, inr, true, false, List, [], ◌∷◌,
  arith, refl, sym, subst,
}
use borg_core.Prelude.{Bool-cases, leb, In, All, All-at, All-map, All-of}
use borg_core.Core.Ids.{BranchId, LayerId}
use borg_core.Core.Layer.{Layer, LayerAuthor, source, derived, committed, layer_state_eq}
use borg_core.Engine.Log.State.{
  Manager, all_layers, layers_of, insert_by_id, sort_by_id, settled_by, ceiling_from,
  settled_ceiling,
}

-- A source layer is settled once the watermark has reached it; a derived one, once the watermark has
-- reached the source layer that it brings the world up to, whatever its own id is.
abbrev SettledAt : LayerId → LayerAuthor → LayerId → Type 0
SettledAt id source watermark = id ≤ watermark
SettledAt id (derived producer reflects) watermark = reflects ≤ watermark

abbrev pub IsSettled : LayerId → Layer → Type 0
IsSettled watermark l = SettledAt l.id l.author watermark

settled_by-SettledAt :
    (id watermark : LayerId) (author : LayerAuthor)
    → settled_by id author watermark ≡ true
    → SettledAt id author watermark
unfolding settled_by
settled_by-SettledAt id watermark source h = ground (arith, h)
settled_by-SettledAt id watermark (derived producer reflects) h = ground (arith, h)

settled_by-not_SettledAt :
    (id watermark : LayerId) (author : LayerAuthor)
    → settled_by id author watermark ≡ false
    → SettledAt id author watermark
    → ⊥
unfolding settled_by
settled_by-not_SettledAt id watermark source h k = ground (arith, h, k)
settled_by-not_SettledAt id watermark (derived producer reflects) h k = ground (arith, h, k)

-- A committed layer of a branch.
abbrev pub IsCommittedOn : Manager → BranchId → Layer → Type 0
IsCommittedOn m b l = In l (all_layers m) × (l.branch ≡ b) × (l.state ≡ committed)

both :
    (l : Layer) (b : BranchId)
    → ((l.branch == b) && same l.state committed) ≡ true
    → (l.branch ≡ b) × (l.state ≡ committed)
both l b h = (ground (arith, h), ground (arith, h))

pub In-layers_of :
    (m : Manager) (b : BranchId) (l : Layer) → In l (layers_of m b) ↔ IsCommittedOn m b l
unfolding layers_of
In-layers_of m b l =
    let (to, from) =
      In-keep (λ (k : Layer). (k.branch == b) && same k.state committed) (all_layers m) l in
    (
      λ h. ((to h).0, (both l b (to h).1).0, (both l b (to h).1).1),
      λ h. from (h.0, ground (arith, h.1, h.2)),
    )

-- The layers stand in the order of their ids.
unfoldable pub IsOrdered : List Layer → Type 0
IsOrdered [] = Unit
IsOrdered (l ∷ ls) = All (λ (k : Layer). l.id ≤ k.id) ls × IsOrdered ls

In-insert_by_id : (l k : Layer) (ls : List Layer) → In k (insert_by_id l ls) → (k ≡ l) ⊎ In k ls
unfolding insert_by_id
In-insert_by_id l k [] = λ i. i
In-insert_by_id l k (j ∷ ls) = elim (Bool-cases (leb l.id j.id)) [
  | inl t ↦ rw t (λ i. i)
  | inr f ↦ rw f (elim [
    | inl e ↦ inr (inl e)
    | inr i ↦ elim (In-insert_by_id l k ls i) [ inl e ↦ inl e | inr o ↦ inr (inr o) ]
  ])
]

insert_by_id-In : (l k : Layer) (ls : List Layer) → (k ≡ l) ⊎ In k ls → In k (insert_by_id l ls)
unfolding insert_by_id
insert_by_id-In l k [] = λ i. i
insert_by_id-In l k (j ∷ ls) = elim (Bool-cases (leb l.id j.id)) [
  | inl t ↦ rw t (λ i. i)
  | inr f ↦ rw f (elim [
    | inl e ↦ inr (insert_by_id-In l k ls (inl e))
    | inr (inl e) ↦ inl e
    | inr (inr i) ↦ inr (insert_by_id-In l k ls (inr i))
  ])
]

pub sort_by_id-In : (k : Layer) (ls : List Layer) → In k ls → In k (sort_by_id ls)
unfolding sort_by_id
sort_by_id-In k [] i = i
sort_by_id-In k (l ∷ ls) (inl e) = insert_by_id-In l k (sort_by_id ls) (inl e)
sort_by_id-In k (l ∷ ls) (inr i) = insert_by_id-In l k (sort_by_id ls) (inr (sort_by_id-In k ls i))

pub In-sort_by_id : (k : Layer) (ls : List Layer) → In k (sort_by_id ls) → In k ls
unfolding sort_by_id
In-sort_by_id k [] i = i
In-sort_by_id k (l ∷ ls) i = elim (In-insert_by_id l k (sort_by_id ls) i) [
  | inl e ↦ inl e
  | inr o ↦ inr (In-sort_by_id k ls o)
]

All-insert_by_id :
    (P : Layer → Type 0) (l : Layer) (ls : List Layer) → P l → All P ls → All P (insert_by_id l ls)
unfolding insert_by_id
All-insert_by_id P l [] p h = (p, tt)
All-insert_by_id P l (j ∷ ls) p h = elim (Bool-cases (leb l.id j.id)) [
  | inl t ↦ rw t (p, h)
  | inr f ↦ rw f (h.0, All-insert_by_id P l ls p h.1)
]

insert_by_id-IsOrdered :
    (l : Layer) (ls : List Layer) → IsOrdered ls → IsOrdered (insert_by_id l ls)
unfolding insert_by_id IsOrdered
insert_by_id-IsOrdered l [] h = (tt, tt)
insert_by_id-IsOrdered l (j ∷ ls) h = elim (Bool-cases (leb l.id j.id)) [
  | inl t ↦ rw t (
    (
      ground (arith, t),
      All-map (λ (k : Layer). j.id ≤ k.id) (λ (k : Layer). l.id ≤ k.id) ls
          (λ k le. ground (arith, t, le)) h.0,
    ),
    h,
  )
  | inr f ↦ rw f (
    All-insert_by_id (λ (k : Layer). j.id ≤ k.id) l ls (ground (arith, f)) h.0,
    insert_by_id-IsOrdered l ls h.1,
  )
]

pub sort_by_id-IsOrdered : (ls : List Layer) → IsOrdered (sort_by_id ls)
unfolding sort_by_id IsOrdered
sort_by_id-IsOrdered [] = tt
sort_by_id-IsOrdered (l ∷ ls) = insert_by_id-IsOrdered l (sort_by_id ls) (sort_by_id-IsOrdered ls)

-- What the ceiling of a collection of layers is.
pub record Ceiling (P : Layer → Type 0) (watermark start found : LayerId) : Type 0 where
  pub below : (l : Layer) → P l → l.id < found → IsSettled watermark l
  pub stands : (found ≡ start) ⊎ ((l : Layer) × P l × (l.id ≡ found) × IsSettled watermark l)
  pub above :
      ((l : Layer) → P l → IsSettled watermark l × (l.id ≤ found))
      ⊎ ((l : Layer) × P l × ¬ (IsSettled watermark l) × (found ≤ l.id))

ceiling_from-Ceiling :
    (start : LayerId) (ls : List Layer) (watermark : LayerId)
    → IsOrdered ls
    → All (λ (l : Layer). start ≤ l.id) ls
    → Ceiling (λ l. In l ls) watermark start (ceiling_from start ls watermark)
unfolding ceiling_from IsOrdered
ceiling_from-Ceiling start [] watermark o b = record {
  below = λ l i. absurd i;
  stands = inl refl;
  above = inl (λ l i. absurd i);
}
ceiling_from-Ceiling start (l ∷ ls) watermark o b =
    elim (Bool-cases (settled_by l.id l.author watermark)) [
      | inl passed ↦ rw passed (
          let t = settled_by-SettledAt l.id watermark l.author passed in
          let h = ceiling_from-Ceiling l.id ls watermark o.1 o.0 in
          record {
            below = λ k i lt. elim i [
              | inl e ↦ subst (IsSettled watermark) (sym e) t
              | inr j ↦ h.below k j lt
            ];
            stands = elim h.stands [
              | inl e ↦ inr (l, inl refl, sym e, t)
              | inr s ↦ inr (s.0, inr s.1, s.2, s.3)
            ];
            above = elim h.above [
              | inl all ↦ inl (λ k. elim [
                | inl e ↦ (
                  subst (IsSettled watermark) (sym e) t,
                  subst (λ (q : Layer). q.id ≤ ceiling_from l.id ls watermark) (sym e)
                      (ceiling_from-ge l.id ls watermark o.0 o.1),
                )
                | inr j ↦ all k j
              ])
              | inr s ↦ inr (s.0, inr s.1, s.2, s.3)
            ];
          })
      | inr f ↦ rw f (record {
        below = λ k i lt. absurd (under k i lt);
        stands = inl refl;
        above = inr (l, inl refl, settled_by-not_SettledAt l.id watermark l.author f, b.0);
      })
    ]
  where
    under : (k : Layer) → In k (l ∷ ls) → k.id < start → ⊥
    under k i lt =
        let le = All-at (λ (q : Layer). start ≤ q.id) (l ∷ ls) k b i in omega (arith, le, lt)

    ceiling_from-ge :
        (s : LayerId) (js : List Layer) (w : LayerId)
        → All (λ (q : Layer). s ≤ q.id) js
        → IsOrdered js
        → s ≤ ceiling_from s js w
    ceiling_from-ge s [] w a q = omega arith
    ceiling_from-ge s (j ∷ js) w a q = elim (Bool-cases (settled_by j.id j.author w)) [
      | inl t ↦ rw t (let r = ceiling_from-ge j.id js w q.0 q.1 in omega (arith, r, a.0))
      | inr f ↦ rw f (omega arith)
    ]

-- The settled ceiling of a branch: every committed layer of the branch below it is settled; it is
-- such a layer and settled, or 0; and nothing higher would do, because all are settled and at or
-- below it, or one that is not settled stands at or above it. A source layer is settled at its own
-- id, a derived one at the source layer that it reflects.
pub settled_ceiling-Ceiling :
    (m : Manager) (b : BranchId) (watermark : LayerId)
    → Ceiling (IsCommittedOn m b) watermark 0 (settled_ceiling m b watermark)
unfolding settled_ceiling
settled_ceiling-Ceiling m b watermark =
    let ls = layers_of m b in
    let h =
      ceiling_from-Ceiling 0 (sort_by_id ls) watermark (sort_by_id-IsOrdered ls)
        (All-of (λ (l : Layer). 0 ≤ l.id) (sort_by_id ls) (λ l i. omega arith)) in
    record {
      below = λ l i lt. h.below l (sort_by_id-In l ls ((In-layers_of m b l).1 i)) lt;
      stands = elim h.stands [
        | inl e ↦ inl e
        | inr s ↦ inr (s.0, (In-layers_of m b s.0).0 (In-sort_by_id s.0 ls s.1), s.2, s.3)
      ];
      above = elim h.above [
        | inl all ↦ inl (λ l i. all l (sort_by_id-In l ls ((In-layers_of m b l).1 i)))
        | inr s ↦ inr (s.0, (In-layers_of m b s.0).0 (In-sort_by_id s.0 ls s.1), s.2, s.3)
      ];
    }
