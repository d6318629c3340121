-- ===== src/Engine/Defs/Paths/Walk.antt =====
-- Walking a linked list of steps from one point to another, in either order of the versions.
use borg_core.Prelude.{
  ℕ, Bool, true, false, List, [], ◌∷◌, ◌≡◌, ◌⊎◌, inl, inr, refl, sym, subst, ◌∙◌, Bool-cases, ◌&&◌,
  keep, arith,
}

-- A step, by its two ends.
abbrev pub Edge : Type 0
Edge = ℕ × ℕ

-- Each edge starts where the last one ended.
abbrev pub Joins : ℕ → List Edge → ℕ → Type 0
Joins a [] b = a ≡ b
Joins a (e ∷ es) b = (e.0 ≡ a) × Joins e.1 es b

-- A point where an edge ends, or the start.
abbrev pub On : ℕ → ℕ → List Edge → Type 0
On x p [] = x ≡ p
On x p (e ∷ es) = (x ≡ p) ⊎ On x e.1 es

-- No step goes back.
abbrev pub Ascends : (ℕ → ℕ → Bool) → List Edge → Type 0
Ascends le [] = Unit
Ascends le (e ∷ es) = (le e.0 e.1 ≡ true) × Ascends le es

abbrev pub between : (ℕ → ℕ → Bool) → ℕ → ℕ → Edge → Bool
between le a b e = le a e.0 && le e.1 b

module _ (le : ℕ → ℕ → Bool) (le_refl : (a : ℕ) → le a a ≡ true)
    (le_anti : (a b : ℕ) → le a b ≡ true → le b a ≡ true → a ≡ b)
    (le_trans : (a b c : ℕ) → le a b ≡ true → le b c ≡ true → le a c ≡ true) where
  On-here : (p : ℕ) (es : List Edge) → On p p es
  On-here p [] = refl
  On-here p (e ∷ es) = inl refl

  -- Nothing on the list lies before its start.
  On-after : (x p q : ℕ) (es : List Edge) → Joins p es q → Ascends le es → On x p es → le p x ≡ true
  On-after x p q [] j up on = subst (λ y. le p y ≡ true) (sym on) (le_refl p)
  On-after x p q (e ∷ es) j up (inl same) = subst (λ y. le p y ≡ true) (sym same) (le_refl p)
  On-after x p q (e ∷ es) j up (inr on) =
      le_trans p e.1 x (subst (λ y. le y e.1 ≡ true) j.0 up.0) (On-after x e.1 q es j.1 up.1 on)

  -- Past `b`, no step ends by `b`.
  none_left :
      (a b p q : ℕ) (es : List Edge)
      → Joins p es q
      → Ascends le es
      → le p b ≡ false
      → keep (between le a b) es ≡ []
  none_left a b p q [] j up past = refl
  none_left a b p q (e ∷ es) j up past = elim (Bool-cases (le e.1 b)) [
    | inl by ↦
        let first : le p e.1 ≡ true = subst (λ y. le y e.1 ≡ true) j.0 up.0 in
        cc (past, le_trans p e.1 b first by)
    | inr after ↦ let rest = none_left a b e.1 q es j.1 up.1 after in ground (arith, after, rest)
  ]

  -- From a point at or past `a`.
  walk_from :
      (a b p q : ℕ) (es : List Edge)
      → Joins p es q
      → Ascends le es
      → le a p ≡ true
      → On b p es
      → Joins p (keep (between le a b) es) b
  walk_from a b p q [] j up past on = sym on
  walk_from a b p q (e ∷ es) j up past on =
      let begun : le a e.0 ≡ true = subst (λ y. le a y ≡ true) (sym j.0) past in
      elim (Bool-cases (le e.1 b)) [
        | inl by ↦
            let on' : On b e.1 es = elim on [
              | inl at ↦
                  let back : le e.1 e.0 ≡ true = subst (λ y. le e.1 y ≡ true) (at ∙ sym j.0) by in
                  subst (λ y. On y e.1 es) (sym (at ∙ sym j.0 ∙ le_anti e.0 e.1 up.0 back))
                    (On-here e.1 es)
              | inr further ↦ further
            ] in
            rw (keep, begun)
              (rw by (j.0, walk_from a b e.1 q es j.1 up.1 (le_trans a e.0 e.1 begun up.0) on'))
        | inr after ↦
            let at : b ≡ p = elim on [
              | inl at ↦ at
              | inr further ↦ cc (after, On-after b e.1 q es j.1 up.1 further)
            ] in
            rw (keep, begun) (rw after (rw (none_left a b e.1 q es j.1 up.1 after) (sym at)))
      ]

  -- The steps between two points of the list lead from the one to the other.
  pub walk_between :
      (a b p q : ℕ) (es : List Edge)
      → Joins p es q
      → Ascends le es
      → On a p es
      → On b p es
      → le a b ≡ true
      → Joins a (keep (between le a b) es) b
  walk_between a b p q [] j up on on' ab = on ∙ sym on'
  walk_between a b p q (e ∷ es) j up (inl here) on' ab =
      let past : le a p ≡ true = subst (λ y. le a y ≡ true) here (le_refl a) in
      subst (λ y. Joins y (keep (between le a b) (e ∷ es)) b) (sym here)
        (walk_from a b p q (e ∷ es) j up past on')
  walk_between a b p q (e ∷ es) j up (inr on) on' ab = elim (Bool-cases (le a e.0)) [
    | inl by ↦
        let further = le_trans e.0 e.1 a up.0 (On-after a e.1 q es j.1 up.1 on) in
        let past : le a p ≡ true = subst (λ y. le a y ≡ true) j.0 by in
        subst (λ y. Joins y (keep (between le a b) (e ∷ es)) b)
          (sym (le_anti a e.0 by further ∙ j.0)) (walk_from a b p q (e ∷ es) j up past on')
    | inr before ↦ elim on' [
      | inl at ↦ cc (before, subst (λ y. le a y ≡ true) (at ∙ sym j.0) ab)
      | inr further ↦ rw (keep, before) (walk_between a b e.1 q es j.1 up.1 on further ab)
    ]
  ]
