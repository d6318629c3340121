-- ===== src/Core/Round/Cascade.antt =====
-- `cascade`: everything that must be dropped once these layers are.
pub mod Sweeps
use borg_core.Prelude.{
  ℕ, zero, suc, ◌+◌, ◌≤◌, ◌≡◌, ◌⊎◌, ◌↔◌, inl, inr, Option, none, some, List, [], ◌∷◌, ◌++◌,
}
use borg_core.Prelude.{
  arith, refl, sym, ap, subst, In, contains, length, nat_eq, ◌∙◌, contains_of_In, In_of_contains,
}
use borg_core.Prelude.{In-append_left, In-append_right, In-append_cases, length-append}
use borg_core.Prelude.Map.{Map, get}
use borg_core.Core.Ids.{LayerId}
use borg_core.Core.Cell.{CellAt, CellRef, cell_eq}
use borg_core.Core.Round.{Round, Accesses, readers_from, Sweep, sweep_output, sweep_loop, cascade}
use borg_core.Core.Round.Readers.{ReadsCell}
use borg_core.Core.Round.Cascade.Sweeps.{
  Consumes, undropped, undropped-le, Swept, sweep_output-Swept,
}
use mathlib.Core.List.{reverse, reverse_aux}

-- The least set that holds the layers that failed and every consumer of an output of its members.
pub data Tainted (m : Map LayerId Accesses) (failed : List LayerId) : LayerId → Type 0 where
  failing : {k : LayerId} → In k failed → Tainted m failed k
  consuming : {l k : LayerId} → Tainted m failed l → Consumes m l k → Tainted m failed k

-- What is dropped is tainted, and what a dropped layer taints is dropped, if it is not queued.
record IsSwept (m : Map LayerId Accesses) (failed dropped frontier : List LayerId) : Type 0 where
  holds : (k : LayerId) → In k failed → In k dropped
  tainted : (k : LayerId) → In k dropped → Tainted m failed k
  queue : (k : LayerId) → In k frontier → In k dropped
  closed :
      (l : LayerId) → In l dropped → In l frontier ⊎ ((k : LayerId) → Consumes m l k → In k dropped)

step-IsSwept :
    (m : Map LayerId Accesses) (failed dropped frontier : List LayerId) (layer : LayerId)
    (t : Sweep)
    → IsSwept m failed dropped (layer ∷ frontier)
    → Swept m (Consumes m layer) (record { dropped = dropped; frontier = frontier }) t
    → IsSwept m failed t.dropped t.frontier
step-IsSwept m failed dropped frontier layer t h s = record {
  holds = λ k f. (s.drops k).1 (inl (h.holds k f));
  tainted = λ k d. elim ((s.drops k).0 d) [
    | inl o ↦ h.tainted k o
    | inr c ↦ consuming (h.tainted layer (h.queue layer (inl refl))) c
  ];
  queue = λ k q. elim (s.only k q) [
    | inl f ↦ (s.drops k).1 (inl (h.queue k (inr f)))
    | inr c ↦ (s.drops k).1 (inr c)
  ];
  closed = λ l d. elim (s.fresh l d) [
    | inr q ↦ inl q
    | inl o ↦ elim (h.closed l o) [
      | inl (inl e) ↦ inr (λ k c. (s.drops k).1 (inr (subst (λ j. Consumes m j k) e c)))
      | inl (inr q) ↦ inl (s.queued l q)
      | inr done ↦ inr (λ k c. (s.drops k).1 (inl (done k c)))
    ]
  ];
}

-- What `cascade` should return.
abbrev IsCascade : Map LayerId Accesses → List LayerId → List LayerId → Type 0
IsCascade m failed d = (k : LayerId) → In k d ↔ Tainted m failed k

done-IsCascade :
    (m : Map LayerId Accesses) (failed d : List LayerId)
    → IsSwept m failed d []
    → IsCascade m failed d
done-IsCascade m failed d h k = (h.tainted k, back)
  where
    back : {j : LayerId} → Tainted m failed j → In j d
    back (failing i) = h.holds _ i
    back (consuming {l = l} t c) = elim (h.closed l (back t)) [ inl n ↦ absurd n | inr f ↦ f _ c ]

sweep_loop-IsCascade :
    (fuel : ℕ) (m : Map LayerId Accesses) (failed dropped frontier : List LayerId)
    → length frontier + undropped m dropped ≤ fuel
    → IsSwept m failed dropped frontier
    → (d : List LayerId) × (sweep_loop fuel m (readers_from [] m) dropped frontier ≡ some d)
      × IsCascade m failed d
unfolding sweep_loop
sweep_loop-IsCascade fuel m failed dropped [] le h =
    (dropped, refl, done-IsCascade m failed dropped h)
sweep_loop-IsCascade zero m failed dropped (layer ∷ frontier) le h = absurd (bad le)
  where
    bad : length (layer ∷ frontier) + undropped m dropped ≤ 0 → ⊥
    bad h = omega (arith, h)
sweep_loop-IsCascade (suc fuel) m failed dropped (layer ∷ frontier) le h =
    let s = sweep_output-Swept m (record { dropped = dropped; frontier = frontier }) layer in
    sweep_loop-IsCascade fuel m failed _ _ (omega (arith, le, s.smaller))
      (step-IsSwept m failed dropped frontier layer _ h s)

In-reverse_aux : (xs ys : List LayerId) (k : LayerId) → In k (reverse_aux xs ys) → In k xs ⊎ In k ys
In-reverse_aux [] ys k i = inr i
In-reverse_aux (x ∷ xs) ys k i = elim (In-reverse_aux xs (x ∷ ys) k i) [
  | inl a ↦ inl (inr a)
  | inr (inl e) ↦ inl (inl e)
  | inr (inr b) ↦ inr b
]

reverse_aux-In : (xs ys : List LayerId) (k : LayerId) → In k xs ⊎ In k ys → In k (reverse_aux xs ys)
reverse_aux-In [] ys k (inl n) = absurd n
reverse_aux-In [] ys k (inr i) = i
reverse_aux-In (x ∷ xs) ys k (inl (inl e)) = reverse_aux-In xs (x ∷ ys) k (inr (inl e))
reverse_aux-In (x ∷ xs) ys k (inl (inr i)) = reverse_aux-In xs (x ∷ ys) k (inl i)
reverse_aux-In (x ∷ xs) ys k (inr i) = reverse_aux-In xs (x ∷ ys) k (inr (inr i))

length-reverse_aux : (xs ys : List LayerId) → length (reverse_aux xs ys) ≡ length xs + length ys
length-reverse_aux [] ys = omega arith
length-reverse_aux (x ∷ xs) ys = omega (arith, length-reverse_aux xs (x ∷ ys))

start-IsSwept :
    (m : Map LayerId Accesses) (failed : List LayerId) → IsSwept m failed failed (reverse failed)
start-IsSwept m failed = record {
  holds = λ k i. i;
  tainted = λ k i. failing i;
  queue = λ k i. elim (In-reverse_aux failed [] k i) [ inl j ↦ j | inr n ↦ absurd n ];
  closed = λ l i. inl (reverse_aux-In failed [] l (inl i));
}

-- `cascade` terminates on every round, and drops exactly the layers that failed and, transitively,
-- those that read a cell that a dropped invocation wrote.
pub cascade-IsCascade :
    (round : Round) (failed : List LayerId)
    → (d : List LayerId) × (cascade round failed ≡ some d)
      × ((k : LayerId) → In k d ↔ Tainted round.invocations failed k)
unfolding cascade
cascade-IsCascade round [] =
    ([], refl, done-IsCascade round.invocations [] [] (start-IsSwept round.invocations []))
cascade-IsCascade round (layer ∷ rest) =
    let m = round.invocations in
    let failed = layer ∷ rest in
    sweep_loop-IsCascade (length failed + length m) m failed failed (reverse failed)
      (omega (arith, length-reverse_aux failed [], undropped-le m failed)) (start-IsSwept m failed)
