-- ===== src/Prelude/Members.antt =====
-- Membership, and predicates on every member, by recursion: they compute to sums and products.
use mathlib.Core.Path.{◌≡◌, refl, sym, subst}
use mathlib.Core.Bool.{Bool, true, false, ◌||◌}
use mathlib.Core.Logic.{◌⊎◌, inl, inr, ◌↔◌}
use mathlib.Core.List.{List, [], ◌∷◌, ◌++◌, map}
use native.Mathlib.Omega.{arith}
use borg_core.Prelude.Equality.{Eq, ◌≟◌, same}
use borg_core.Prelude.Tests.{if◌then◌else◌, Bool-cases}
use borg_core.Prelude.Lists.{push, keep}

-- `a` stands in the list.
abbrev pub In : {A : Type 0} → A → List A → Type 0
In a [] = ⊥
In a (x ∷ xs) = (a ≡ x) ⊎ In a xs

abbrev pub All {κ} : {A : Type 0} → (A → Type κ) → List A → Type κ
All P [] = Unit
All P (x ∷ xs) = P x × All P xs

module _ {A : Type 0} where
  pub All-at {κ} : (P : A → Type κ) (xs : List A) (a : A) → All P xs → In a xs → P a
  All-at P [] a h m = absurd m
  All-at P (x ∷ xs) a h (inl e) = subst P (sym e) h.0
  All-at P (x ∷ xs) a h (inr m) = All-at P xs a h.1 m

  pub All-of {κ} : (P : A → Type κ) (xs : List A) → ((a : A) → In a xs → P a) → All P xs
  All-of P [] f = tt
  All-of P (x ∷ xs) f = (f x (inl refl), All-of P xs (λ a m. f a (inr m)))

  pub In-append_left : (xs ys : List A) (a : A) → In a xs → In a (xs ++ ys)
  In-append_left [] ys a m = absurd m
  In-append_left (x ∷ xs) ys a (inl e) = inl e
  In-append_left (x ∷ xs) ys a (inr m) = inr (In-append_left xs ys a m)

  pub In-append_right : (xs ys : List A) (a : A) → In a ys → In a (xs ++ ys)
  In-append_right [] ys a m = m
  In-append_right (x ∷ xs) ys a m = inr (In-append_right xs ys a m)

  pub In-append_cases : (xs ys : List A) (a : A) → In a (xs ++ ys) → In a xs ⊎ In a ys
  In-append_cases [] ys a m = inr m
  In-append_cases (x ∷ xs) ys a (inl e) = inl (inl e)
  In-append_cases (x ∷ xs) ys a (inr m) = elim (In-append_cases xs ys a m) [
    | inl l ↦ inl (inr l)
    | inr r ↦ inr r
  ]

  pub All-push {κ} : (P : A → Type κ) (xs : List A) (a : A) → All P xs → P a → All P (push xs a)
  All-push P [] a h p = (p, tt)
  All-push P (x ∷ xs) a h p = (h.0, All-push P xs a h.1 p)

  pub All-append {κ} : (P : A → Type κ) (xs ys : List A) → All P xs → All P ys → All P (xs ++ ys)
  All-append P [] ys h k = k
  All-append P (x ∷ xs) ys h k = (h.0, All-append P xs ys h.1 k)

  pub All-map {κ μ} :
      (P : A → Type κ) (Q : A → Type μ) (xs : List A) → ((a : A) → P a → Q a) → All P xs → All Q xs
  All-map P Q [] f h = tt
  All-map P Q (x ∷ xs) f h = (f x h.0, All-map P Q xs f h.1)

pub In-keep :
    {A : Type 0} (p : A → Bool) (xs : List A) (a : A) → In a (keep p xs) ↔ (In a xs × (p a ≡ true))
In-keep p [] a = (λ h. absurd h, λ h. absurd h.0)
In-keep p (x ∷ xs) a = elim (Bool-cases (p x)) [
  | inl t ↦ rw t (
    elim [
      | inl e ↦ (inl e, subst (λ y. p y ≡ true) (sym e) t)
      | inr m ↦ let h = (In-keep p xs a).0 m in (inr h.0, h.1)
    ],
    λ h. elim h.0 [ inl e ↦ inl e | inr m ↦ inr ((In-keep p xs a).1 (m, h.1)) ],
  )
  | inr f ↦ rw f (
    λ m. let h = (In-keep p xs a).0 m in (inr h.0, h.1),
    λ h. elim h.0 [
      | inl e ↦ cc (f, subst (λ y. p y ≡ true) e h.1)
      | inr m ↦ (In-keep p xs a).1 (m, h.1)
    ],
  )
]

pub In-map :
    {A B : Type 0} (f : A → B) (xs : List A) (b : B)
    → In b (map f xs) ↔ ((a : A) × In a xs × (b ≡ f a))
In-map f [] b = (λ h. absurd h, λ h. absurd h.1)
In-map f (x ∷ xs) b = (
  elim [ inl e ↦ (x, inl refl, e) | inr m ↦ let h = (In-map f xs b).0 m in (h.0, inr h.1, h.2) ],
  λ h. elim h.1 [
    | inl e ↦ inl (subst (λ y. b ≡ f y) e h.2)
    | inr m ↦ inr ((In-map f xs b).1 (h.0, m, h.2))
  ],
)

-- Sets: lists without repetition, each new member at the end.
module _ {A : Type 0} ⦃e : Eq A⦄ where
  abbrev pub contains : List A → A → Bool
  contains [] a = false
  contains (x ∷ xs) a = let rest = contains xs a in elim (x ≟ a) [ yes _ ↦ true | no _ ↦ rest ]

  -- `insert` of a set.
  unfoldable pub add : List A → A → List A
  add xs a = if contains xs a then xs else push xs a

  pub contains_of_In : (xs : List A) (a : A) → In a xs → contains xs a ≡ true
  contains_of_In [] a m = absurd m
  contains_of_In (x ∷ xs) a (inl p) = ground arith
  contains_of_In (x ∷ xs) a (inr m) = ground (arith, contains_of_In xs a m)

  pub In_of_contains : (xs : List A) (a : A) → contains xs a ≡ true → In a xs
  In_of_contains [] a h = cc
  In_of_contains (x ∷ xs) a h = elim (x ≟ a) [
    | yes p ↦ inl (sym p)
    | no p ↦ inr (In_of_contains xs a (ground arith))
  ]

  pub contains-push : (xs : List A) (a b : A) → contains (push xs a) b ≡ (contains xs b || same a b)
  contains-push [] a b = ground arith
  contains-push (x ∷ xs) a b = ground (arith, contains-push xs a b)

  pub contains-add : (xs : List A) (a b : A) → contains (add xs a) b ≡ (contains xs b || same a b)
  unfolding add
  contains-add xs a b = elim (Bool-cases (contains xs a)) [
    | inl t ↦ rw t (elim (a ≟ b) [
      | yes p ↦ ground (arith, p, subst (λ y. contains xs y ≡ true) p t)
      | no p ↦ ground (arith, p)
    ])
    | inr f ↦ rw f (contains-push xs a b)
  ]
