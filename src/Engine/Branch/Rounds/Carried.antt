-- ===== src/Engine/Branch/Rounds/Carried.antt =====
-- Which invocations a round's merge carries to the parent.
use borg_core.Prelude.{ℕ, suc, ◌≡◌, ◌≢◌, ◌⊎◌, inl, inr, ◌↔◌, Bool, true, false, some, List, [], ◌∷◌}
use borg_core.Prelude.{
  refl, sym, ap, subst, ◌∙◌, In, In-append_left, In-append_right, In-append_cases, push, same,
  arith,
}
use borg_core.Prelude.{
  contains, contains_of_In, In_of_contains, if◌then◌else◌, Bool-cases, unwrap_or, nat_eq, ◌≟◌,
}
use borg_core.Core.Ids.{LayerId}
use borg_core.Core.Layer.{LayerAuthor, source, layer_author_eq}
use borg_core.Core.Round
use borg_core.Core.Round.Cascade.{Tainted, cascade-IsCascade}
use borg_core.Engine.Log.{Manager, author_of}
use borg_core.Engine.Branch.Rounds.{Groups, join_group, grouped}

-- A layer stands in an author's group.
abbrev pub InGroup : Groups → LayerAuthor → LayerId → Type 0
InGroup [] author layer = ⊥
InGroup ((seen, group) ∷ rest) author layer =
    ((author ≡ seen) × In layer group) ⊎ InGroup rest author layer

In-push : (xs : List LayerId) (x l : LayerId) → In l (push xs x) ↔ (In l xs ⊎ (l ≡ x))
In-push xs x l = (
  λ h. elim (In-append_cases xs (x ∷ []) l h) [
    | inl o ↦ inl o
    | inr (inl e) ↦ inr e
    | inr (inr n) ↦ absurd n
  ],
  elim [ inl o ↦ In-append_left xs (x ∷ []) l o | inr e ↦ In-append_right xs (x ∷ []) l (inl e) ],
)

InGroup-join_group :
    (gs : Groups) (author a : LayerAuthor) (layer l : LayerId)
    → InGroup (join_group gs author layer) a l ↔ (InGroup gs a l ⊎ ((a ≡ author) × (l ≡ layer)))
unfolding join_group
InGroup-join_group [] author a layer l = (
  elim [ inl h ↦ inr (h.0, elim h.1 [ inl e ↦ e | inr n ↦ absurd n ]) | inr n ↦ absurd n ],
  elim [ inl n ↦ absurd n | inr h ↦ inl (h.0, inl h.1) ],
)
InGroup-join_group ((seen, g) ∷ rest) author a layer l = elim (seen ≟ author) [
  | yes p ↦ rw (same-yes p) (
    elim [
      | inl h ↦ elim ((In-push g layer l).0 h.1) [
        | inl o ↦ inl (inl (h.0, o))
        | inr e ↦ inr (h.0 ∙ p, e)
      ]
      | inr r ↦ inl (inr r)
    ],
    elim [
      | inl (inl h) ↦ inl (h.0, (In-push g layer l).1 (inl h.1))
      | inl (inr r) ↦ inr r
      | inr h ↦ inl (h.0 ∙ sym p, (In-push g layer l).1 (inr h.1))
    ],
  )
  | no n ↦ rw (same-no n) (
    elim [
      | inl h ↦ inl (inl h)
      | inr r ↦ elim ((InGroup-join_group rest author a layer l).0 r) [
        | inl o ↦ inl (inr o)
        | inr e ↦ inr e
      ]
    ],
    elim [
      | inl (inl h) ↦ inl h
      | inl (inr r) ↦ inr ((InGroup-join_group rest author a layer l).1 (inl r))
      | inr e ↦ inr ((InGroup-join_group rest author a layer l).1 (inr e))
    ],
  )
]
  where
    same-yes : seen ≡ author → same seen author ≡ true
    same-yes p = ground (arith, p)

    same-no : seen ≢ author → same seen author ≡ false
    same-no n = ground (arith, n)

-- The producer of an invocation's layer, as the merge sees it.
abbrev pub author : Manager → LayerId → LayerAuthor
author m layer = unwrap_or (author_of m layer) source

abbrev Kept : Manager → List LayerId → List LayerId → LayerAuthor → LayerId → Type 0
Kept m dropped layers a l = In l layers × (contains dropped l ≡ false) × (a ≡ author m l)

grouped-cons :
    (m : Manager) (dropped layers : List LayerId) (n : ℕ) (gs : Groups) (x : LayerId) (b : Bool)
    → contains dropped x ≡ b
    → grouped (n, gs) m dropped (x ∷ layers)
      ≡ grouped (if b then (n, gs) else (suc n, join_group gs (author m x) x)) m dropped layers
unfolding grouped
grouped-cons m dropped layers n gs x b e =
    ap
      (λ c. grouped (if c then (n, gs) else (suc n, join_group gs (author m x) x)) m dropped layers)
      e

grouped-nil :
    (m : Manager) (dropped : List LayerId) (found : ℕ × Groups) → grouped found m dropped [] ≡ found
unfolding grouped
grouped-nil m dropped found = refl

InGroup-grouped :
    (m : Manager) (dropped layers : List LayerId) (n : ℕ) (gs : Groups) (a : LayerAuthor)
    (l : LayerId)
    → InGroup (grouped (n, gs) m dropped layers).1 a l
      ↔ (InGroup gs a l ⊎ Kept m dropped layers a l)
InGroup-grouped m dropped [] n gs a l =
    rw (grouped-nil m dropped (n, gs)) (λ h. inl h, elim [ inl h ↦ h | inr k ↦ absurd k.0 ])
InGroup-grouped m dropped (x ∷ layers) n gs a l = elim (Bool-cases (contains dropped x)) [
  | inl t ↦ rw (grouped-cons m dropped layers n gs x true t) (
    λ h. elim ((InGroup-grouped m dropped layers n gs a l).0 h) [
      | inl o ↦ inl o
      | inr k ↦ inr (inr k.0, k.1, k.2)
    ],
    elim [
      | inl o ↦ (InGroup-grouped m dropped layers n gs a l).1 (inl o)
      | inr (inl e, k, q) ↦ absurd (differ t (subst (λ y. contains dropped y ≡ false) e k))
      | inr (inr i, k, q) ↦ (InGroup-grouped m dropped layers n gs a l).1 (inr (i, k, q))
    ],
  )
  | inr f ↦
      let joined = join_group gs (author m x) x in
      rw (grouped-cons m dropped layers n gs x false f) (
        λ h. elim ((InGroup-grouped m dropped layers (suc n) joined a l).0 h) [
          | inl o ↦ elim ((InGroup-join_group gs (author m x) a x l).0 o) [
            | inl old ↦ inl old
            | inr e ↦ inr (
              inl e.1,
              subst (λ y. contains dropped y ≡ false) (sym e.1) f,
              subst (λ y. a ≡ author m y) (sym e.1) e.0,
            )
          ]
          | inr k ↦ inr (inr k.0, k.1, k.2)
        ],
        elim [
          | inl o ↦
              (InGroup-grouped m dropped layers (suc n) joined a l).1
                (inl ((InGroup-join_group gs (author m x) a x l).1 (inl o)))
          | inr (inl e, k, q) ↦ (InGroup-grouped m dropped layers (suc n) joined a l).1 (
              inl (
                (InGroup-join_group gs (author m x) a x l).1
                  (inr (subst (λ y. a ≡ author m y) e q, e))))
          | inr (inr i, k, q) ↦
              (InGroup-grouped m dropped layers (suc n) joined a l).1 (inr (i, k, q))
        ],
      )
]
  where
    differ : {b : Bool} → b ≡ true → b ≡ false → ⊥
    differ t f = cc (t, f)

-- Whatever was rejected, the cascade ends, and the groups that a round's merge lands hold exactly
-- the invocations of the round that neither were rejected nor, transitively, consumed the output of
-- one that was; each stands in the group of its producer.
pub grouped-Untainted :
    (m : Manager) (round : Round.Round) (rejected : List LayerId)
    → (dropped : List LayerId) × (Round.cascade round rejected ≡ some dropped)
      × ((a : LayerAuthor) (l : LayerId)
          → InGroup (grouped (0, []) m dropped (Round.layers round)).1 a l ↔ (
              In l (Round.layers round)
              × ¬ Tainted round.invocations rejected l
              × (a ≡ author m l)))
grouped-Untainted m round rejected =
    let (dropped, done, tainted) = cascade-IsCascade round rejected in
    (
      dropped,
      done,
      λ a l. (
        λ h. elim ((InGroup-grouped m dropped (Round.layers round) 0 [] a l).0 h) [
          | inl n ↦ absurd n
          | inr k ↦
              (k.0, λ t. absurd (missing (contains_of_In dropped l ((tainted l).1 t)) k.1), k.2)
        ],
        λ h. (InGroup-grouped m dropped (Round.layers round) 0 [] a l).1 (
            inr (
              h.0,
              elim (Bool-cases (contains dropped l)) [
                | inl t ↦ absurd (h.1 ((tainted l).0 (In_of_contains dropped l t)))
                | inr f ↦ f
              ],
              h.2,
            )),
      ),
    )
  where
    missing : {b : Bool} → b ≡ true → b ≡ false → ⊥
    missing t f = cc (t, f)
