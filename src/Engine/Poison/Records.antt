-- ===== src/Engine/Poison/Records.antt =====
-- What is poisoned after a failure and after a retry.
use borg_core.Prelude.{
  ◌≡◌, ◌≢◌, ◌⊎◌, inl, inr, ◌↔◌, true, false, [], ◌∷◌, arith, refl, sym, ap, subst, ◌∙◌,
}
use borg_core.Prelude.{In, keep, map, Option, some, nat_eq, ◌==◌, ◌≟◌}
use borg_core.Prelude.Map.{get, insert, get-insert_self, get-insert_ne}
use borg_core.Prelude.Unique.{IsUnique, In_of_get, get_of_In, insert-IsUnique}
use borg_core.Core.Ids.{BranchId, ProducerId}
use borg_core.Engine.Poison.{Poisoning, PoisonKey, poison_key_eq, Broken, poisoned, poison}

abbrev key : BranchId → ProducerId → PoisonKey
key b p = record { branch = b; producer = p }

-- One record for each key, which names the record's producer.
pub record IsKept (m : Broken) : Type 0 where
  pub unique : IsUnique m
  pub named : (k : PoisonKey) (r : Poisoning) → get m k ≡ some r → k.producer ≡ r.producer

In-kept :
    (m : Broken) (b : BranchId) (r : Poisoning)
    → In r (
        map
          (λ (e : PoisonKey × Poisoning). e.1)
          (keep (λ (e : PoisonKey × Poisoning). e.0.branch == b) m))
      ↔ ((k : PoisonKey) × In (k, r) m × (k.branch ≡ b))
In-kept [] b r = (λ h. absurd h, λ h. absurd h.1)
In-kept ((k, q) ∷ m) b r = elim (k.branch ≟ b) [
  | yes p ↦ rw (test p) (
    elim [
      | inl e ↦ (k, inl (ap (λ (x : Poisoning). (k, x)) e), p)
      | inr i ↦ let h = (In-kept m b r).0 i in (h.0, inr h.1, h.2)
    ],
    λ h. elim h.1 [
      | inl e ↦ inl (ap (λ (x : PoisonKey × Poisoning). x.1) e)
      | inr i ↦ inr ((In-kept m b r).1 (h.0, i, h.2))
    ],
  )
  | no n ↦ rw (test_no n) (
    λ i. let h = (In-kept m b r).0 i in (h.0, inr h.1, h.2),
    λ h. elim h.1 [
      | inl e ↦ absurd (n (ap (λ (x : PoisonKey × Poisoning). x.0.branch) (sym e) ∙ h.2))
      | inr i ↦ (In-kept m b r).1 (h.0, i, h.2)
    ],
  )
]
  where
    test : k.branch ≡ b → (k.branch == b) ≡ true
    test p = ground (arith, p)

    test_no : k.branch ≢ b → (k.branch == b) ≡ false
    test_no n = ground (arith, n)

In-poisoned :
    (m : Broken) (b : BranchId) (r : Poisoning)
    → IsKept m
    → In r (poisoned m b) ↔ (get m (key b r.producer) ≡ some r)
unfolding poisoned
In-poisoned m b r h = (
  λ i.
      let (k, j, p) = (In-kept m b r).0 i in
      let found = get_of_In m k r h.unique j in
      subst (λ q. get m q ≡ some r) (same_key k p (h.named k r found)) found,
  λ e. (In-kept m b r).1 (key b r.producer, In_of_get m (key b r.producer) r e, refl),
)
  where
    same_key : (k : PoisonKey) → k.branch ≡ b → k.producer ≡ r.producer → k ≡ key b r.producer
    same_key k p q = cc (p, q)

poison-IsKept : (m : Broken) (b : BranchId) (p : Poisoning) → IsKept m → IsKept (poison m b p)
unfolding poison
poison-IsKept m b p h = record {
  unique = insert-IsUnique m (key b p.producer) p h.unique;
  named = λ k r e. elim (key b p.producer ≟ k) [
    | yes q ↦ named_new k r q (
        sym (
          subst (λ j. get (insert m (key b p.producer) p) j ≡ some p) q
            (get-insert_self m (key b p.producer) p))
        ∙ e)
    | no n ↦ h.named k r (sym (get-insert_ne m (key b p.producer) k p n) ∙ e)
  ];
}
  where
    named_new :
        (k : PoisonKey) (r : Poisoning)
        → key b p.producer ≡ k
        → ◌≡◌ {A = Option Poisoning} (some p) (some r)
        → k.producer ≡ r.producer
    named_new k r q f = ground (arith, q, f)

some_inj : {p r : Poisoning} → ◌≡◌ {A = Option Poisoning} (some p) (some r) → r ≡ p
some_inj e = ground (arith, e)

get-poison :
    (m : Broken) (b d : BranchId) (p r : Poisoning)
    → IsKept m
    → In r (poisoned (poison m b p) d)
      ↔ (get (insert m (key b p.producer) p) (key d r.producer) ≡ some r)
unfolding poison
get-poison m b d p r h = In-poisoned (poison m b p) d r (poison-IsKept m b p h)

-- Where each record stands once, under its own key, a failure replaces the producer's record on
-- that branch, and no other: on any branch, what is
-- poisoned afterwards is the new record, there, and what was poisoned under another key.
pub poisoned-poison :
    (m : Broken) (b d : BranchId) (p r : Poisoning)
    → IsKept m
    → In r (poisoned (poison m b p) d)
      ↔ (((d ≡ b) × (r ≡ p)) ⊎ (In r (poisoned m d) × ¬ ((d ≡ b) × (r.producer ≡ p.producer))))
poisoned-poison m b d p r h = elim (key b p.producer ≟ key d r.producer) [
  | yes q ↦
      let at : get (insert m (key b p.producer) p) (key d r.producer) ≡ some p =
        subst (λ k. get (insert m (key b p.producer) p) k ≡ some p) q
          (get-insert_self m (key b p.producer) p) in
      (
        λ i. inl (
          sym (ap (λ (k : PoisonKey). k.branch) q),
          some_inj (sym at ∙ (get-poison m b d p r h).0 i),
        ),
        elim [
          | inl e ↦ (get-poison m b d p r h).1 (at ∙ ap (λ x. some x) (sym e.1))
          | inr o ↦ absurd (o.1 (same_parts q))
        ],
      )
  | no n ↦
      let at = get-insert_ne m (key b p.producer) (key d r.producer) p n in
      (
        λ i.
            inr (
              (In-poisoned m d r h).1 (sym at ∙ (get-poison m b d p r h).0 i),
              λ e. n (same_key e),
            ),
        elim [
          | inl e ↦ absurd (n (same_key (e.0, ap (λ (x : Poisoning). x.producer) e.1)))
          | inr o ↦ (get-poison m b d p r h).1 (at ∙ (In-poisoned m d r h).0 o.0)
        ],
      )
]
  where
    same_parts : key b p.producer ≡ key d r.producer → (d ≡ b) × (r.producer ≡ p.producer)
    same_parts q =
        (sym (ap (λ (k : PoisonKey). k.branch) q), sym (ap (λ (k : PoisonKey). k.producer) q))

    same_key : (d ≡ b) × (r.producer ≡ p.producer) → key b p.producer ≡ key d r.producer
    same_key e = cc (e.0, e.1)
