-- ===== src/Core/Round/Cascade/Sweeps.antt =====
-- One turn of the loop of `cascade`.
use borg_core.Prelude.{ℕ, ◌+◌, ◌≤◌, ◌≡◌, ◌⊎◌, ◌↔◌, inl, inr, false, some}
use borg_core.Prelude.{
  List, [], ◌∷◌, arith, refl, sym, ap, subst, In, contains, length, nat_eq, push,
}
use borg_core.Prelude.{if◌then◌else◌, Bool-cases, contains-push, In_of_contains}
use borg_core.Prelude.{In-append_left, In-append_right, In-append_cases, Option-cases}
use borg_core.Prelude.Map.{Map, get}
use borg_core.Core.Ids.{LayerId}
use borg_core.Core.Cell.{CellAt, cell_eq}
use borg_core.Core.Round.{
  Accesses, Sweep, sweep_layer, sweep_layers, sweep_writes, sweep_output, readers_from,
}
use borg_core.Core.Round.Readers.{ReadsCell, readers_of, In-readers}

-- The invocation under `k` read a cell that the invocation under `l` wrote.
abbrev pub Consumes : Map LayerId Accesses → LayerId → LayerId → Type 0
Consumes m l k =
    (a : Accesses) × (get m l ≡ some a) × (w : CellAt) × In w a.writes × ReadsCell m k w.cell

-- How many invocations are not dropped.
unfoldable pub undropped : Map LayerId Accesses → List LayerId → ℕ
undropped [] d = 0
undropped ((k, a) ∷ m) d = (if contains d k then 0 else 1) + undropped m d

pub undropped-le : (m : Map LayerId Accesses) (d : List LayerId) → undropped m d ≤ length m
unfolding undropped
undropped-le [] d = omega arith
undropped-le ((k, a) ∷ m) d = ground (arith, undropped-le m d)

undropped-push :
    (m : Map LayerId Accesses) (d : List LayerId) (x : LayerId)
    → undropped m (push d x) ≤ undropped m d
unfolding undropped
undropped-push [] d x = omega arith
undropped-push ((k, a) ∷ m) d x = ground (arith, undropped-push m d x, contains-push d x k)

undropped-push_lt :
    (m : Map LayerId Accesses) (d : List LayerId) (x : LayerId) (a : Accesses)
    → In (x, a) m
    → contains d x ≡ false
    → undropped m (push d x) + 1 ≤ undropped m d
unfolding undropped
undropped-push_lt [] d x a i h = absurd i
undropped-push_lt ((k, b) ∷ m) d x a (inl e) h =
    ground
      (arith, ap (λ (q : LayerId × Accesses). q.0) e, undropped-push m d x, contains-push d x k)
undropped-push_lt ((k, b) ∷ m) d x a (inr i) h =
    ground (arith, undropped-push_lt m d x a i h, contains-push d x k)

-- A key of the round.
abbrev Runs : Map LayerId Accesses → LayerId → Type 0
Runs m x = (a : Accesses) × In (x, a) m

-- A sweep drops exactly the layers with the property, besides those that were dropped; what it
-- newly drops stands in the frontier; and frontier and undropped layers together do not grow.
pub record Swept (m : Map LayerId Accesses) (P : LayerId → Type 0) (s t : Sweep) : Type 0 where
  pub drops : (k : LayerId) → In k t.dropped ↔ (In k s.dropped ⊎ P k)
  pub queued : (k : LayerId) → In k s.frontier → In k t.frontier
  pub fresh : (k : LayerId) → In k t.dropped → In k s.dropped ⊎ In k t.frontier
  pub only : (k : LayerId) → In k t.frontier → In k s.frontier ⊎ P k
  pub smaller :
      length t.frontier + undropped m t.dropped ≤ length s.frontier + undropped m s.dropped

Swept-refl : (m : Map LayerId Accesses) (s : Sweep) → Swept m (λ k. ⊥) s s
Swept-refl m s = record {
  drops = λ k. (λ h. inl h, elim [ inl h ↦ h | inr n ↦ absurd n ]);
  queued = λ k h. h;
  fresh = λ k h. inl h;
  only = λ k h. inl h;
  smaller = omega arith;
}

Swept-trans :
    {m : Map LayerId Accesses} {P Q R : LayerId → Type 0} {s t u : Sweep}
    → ((k : LayerId) → (P k ⊎ Q k) ↔ R k)
    → Swept m P s t
    → Swept m Q t u
    → Swept m R s u
Swept-trans iff p q = record {
  drops = λ k. (
    λ h. elim ((q.drops k).0 h) [
      | inl i ↦ elim ((p.drops k).0 i) [ inl o ↦ inl o | inr x ↦ inr ((iff k).0 (inl x)) ]
      | inr y ↦ inr ((iff k).0 (inr y))
    ],
    elim [
      | inl o ↦ (q.drops k).1 (inl ((p.drops k).1 (inl o)))
      | inr r ↦ elim ((iff k).1 r) [
        | inl x ↦ (q.drops k).1 (inl ((p.drops k).1 (inr x)))
        | inr y ↦ (q.drops k).1 (inr y)
      ]
    ],
  );
  queued = λ k h. q.queued k (p.queued k h);
  fresh = λ k h. elim (q.fresh k h) [
    | inl i ↦ elim (p.fresh k i) [ inl o ↦ inl o | inr f ↦ inr (q.queued k f) ]
    | inr f ↦ inr f
  ];
  only = λ k h. elim (q.only k h) [
    | inl i ↦ elim (p.only k i) [ inl o ↦ inl o | inr x ↦ inr ((iff k).0 (inl x)) ]
    | inr y ↦ inr ((iff k).0 (inr y))
  ];
  smaller = omega (arith, p.smaller, q.smaller);
}

sweep_layer-Swept :
    (m : Map LayerId Accesses) (s : Sweep) (x : LayerId)
    → Runs m x
    → Swept m (λ k. k ≡ x) s (sweep_layer s x)
unfolding sweep_layer
sweep_layer-Swept m s x runs = elim (Bool-cases (contains s.dropped x)) [
  | inl t ↦ rw t (record {
    drops = λ k. (
      λ h. inl h,
      elim [
        | inl h ↦ h
        | inr e ↦ subst (λ j. In j s.dropped) (sym e) (In_of_contains s.dropped x t)
      ],
    );
    queued = λ k h. h;
    fresh = λ k h. inl h;
    only = λ k h. inl h;
    smaller = omega arith;
  })
  | inr f ↦ rw f (record {
    drops = λ k. (
      λ h. elim (In-append_cases s.dropped (x ∷ []) k h) [
        | inl o ↦ inl o
        | inr (inl e) ↦ inr e
        | inr (inr n) ↦ absurd n
      ],
      elim [
        | inl o ↦ In-append_left s.dropped (x ∷ []) k o
        | inr e ↦ In-append_right s.dropped (x ∷ []) k (inl e)
      ],
    );
    queued = λ k h. inr h;
    fresh = λ k h. elim (In-append_cases s.dropped (x ∷ []) k h) [
      | inl o ↦ inl o
      | inr (inl e) ↦ inr (inl e)
      | inr (inr n) ↦ absurd n
    ];
    only = λ k h. elim h [ inl e ↦ inr e | inr o ↦ inl o ];
    smaller = omega (arith, undropped-push_lt m s.dropped x runs.0 runs.1 f);
  })
]

sweep_layers-Swept :
    (m : Map LayerId Accesses) (s : Sweep) (xs : List LayerId)
    → ((x : LayerId) → In x xs → Runs m x)
    → Swept m (λ k. In k xs) s (sweep_layers s xs)
unfolding sweep_layers
sweep_layers-Swept m s [] runs = Swept-refl m s
sweep_layers-Swept m s (x ∷ xs) runs =
    Swept-trans {P = λ k. k ≡ x} {Q = λ k. In k xs} {R = λ k. In k (x ∷ xs)} (λ k. (λ h. h, λ h. h))
      (sweep_layer-Swept m s x (runs x (inl refl)))
      (sweep_layers-Swept m (sweep_layer s x) xs (λ y i. runs y (inr i)))

-- Some record of the list is at a cell that the invocation under `k` read.
abbrev ReadsSome : Map LayerId Accesses → List CellAt → LayerId → Type 0
ReadsSome m writes k = (w : CellAt) × In w writes × ReadsCell m k w.cell

sweep_writes-Swept :
    (m : Map LayerId Accesses) (s : Sweep) (writes : List CellAt)
    → Swept m (ReadsSome m writes) s (sweep_writes (readers_from [] m) s writes)
unfolding sweep_writes
sweep_writes-Swept m s [] =
    Swept-trans {P = λ k. ⊥} {Q = λ k. ⊥} {R = ReadsSome m []}
      (λ k. (elim [ inl n ↦ absurd n | inr n ↦ absurd n ], λ r. absurd r.1)) (Swept-refl m s)
      (Swept-refl m s)
sweep_writes-Swept m s (w ∷ writes) =
    let readers = readers_of (readers_from [] m) w.cell in
    Swept-trans {P = λ k. In k readers} {Q = ReadsSome m writes} {R = ReadsSome m (w ∷ writes)}
      (λ k. (
        elim [ inl i ↦ (w, inl refl, (In-readers m k w.cell).0 i) | inr r ↦ (r.0, inr r.1, r.2) ],
        λ r. elim r.1 [
          | inl e ↦ inl ((In-readers m k w.cell).1 (subst (λ v. ReadsCell m k v.cell) e r.2))
          | inr i ↦ inr (r.0, i, r.2)
        ],
      ))
      (sweep_layers-Swept m s readers
        (λ x i. let (a, j, r) = (In-readers m x w.cell).0 i in (a, j)))
      (sweep_writes-Swept m (sweep_layers s readers) writes)

-- A turn of the loop drops exactly the consumers of the popped layer.
pub sweep_output-Swept :
    (m : Map LayerId Accesses) (s : Sweep) (l : LayerId)
    → Swept m (Consumes m l) s (sweep_output (readers_from [] m) s (get m l))
unfolding sweep_output
sweep_output-Swept m s l = elim (Option-cases (get m l)) [
  | inl e ↦ rw e (
      Swept-trans {P = λ k. ⊥} {Q = λ k. ⊥} {R = Consumes m l}
        (λ k. (elim [ inl n ↦ absurd n | inr n ↦ absurd n ], λ c. cc (e, c.1))) (Swept-refl m s)
        (Swept-refl m s))
  | inr (a, e) ↦ rw e (
      Swept-trans {P = λ k. ⊥} {Q = ReadsSome m a.writes} {R = Consumes m l}
        (λ k. (
          elim [ inl n ↦ absurd n | inr r ↦ (a, e, r.0, r.1, r.2) ],
          λ c. inr (c.2, subst (λ (b : Accesses). In c.2 b.writes) (same_accesses e c.1) c.3, c.4),
        ))
        (Swept-refl m s) (sweep_writes-Swept m s a.writes))
]
  where
    same_accesses : {a b : Accesses} → get m l ≡ some a → get m l ≡ some b → b ≡ a
    same_accesses p q = cc (p, q)
