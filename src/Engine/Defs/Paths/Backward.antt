-- ===== src/Engine/Defs/Paths/Backward.antt =====
-- The same list of steps, walked from its end to its start.
use borg_core.Prelude.{ℕ, Bool, List, [], ◌∷◌, ◌++◌, inl, inr, refl, sym, subst, ◌∙◌}
use borg_core.Engine.Defs.Paths.Walk.{Edge, Joins, On, Ascends}

abbrev pub backward : List Edge → List Edge
backward [] = []
backward (e ∷ es) = backward es ++ ((e.1, e.0) ∷ [])

Joins-append : (a b c : ℕ) (es fs : List Edge) → Joins a es b → Joins b fs c → Joins a (es ++ fs) c
Joins-append a b c [] fs j k = subst (λ y. Joins y fs c) (sym j) k
Joins-append a b c (e ∷ es) fs j k = (j.0, Joins-append e.1 b c es fs j.1 k)

pub Joins-backward : (a b : ℕ) (es : List Edge) → Joins a es b → Joins b (backward es) a
Joins-backward a b [] j = sym j
Joins-backward a b (e ∷ es) j =
    Joins-append b e.1 a (backward es) ((e.1, e.0) ∷ []) (Joins-backward e.1 b es j.1) (refl, j.0)

Ascends-append :
    (le : ℕ → ℕ → Bool) (es fs : List Edge) → Ascends le es → Ascends le fs → Ascends le (es ++ fs)
Ascends-append le [] fs h k = k
Ascends-append le (e ∷ es) fs h k = (h.0, Ascends-append le es fs h.1 k)

pub Ascends-backward :
    (le : ℕ → ℕ → Bool) (es : List Edge) → Ascends le es → Ascends (λ a b. le b a) (backward es)
Ascends-backward le [] h = tt
Ascends-backward le (e ∷ es) h =
    Ascends-append (λ a b. le b a) (backward es) ((e.1, e.0) ∷ []) (Ascends-backward le es h.1)
      (h.0, tt)

On-append_left : (x p : ℕ) (es fs : List Edge) → On x p es → On x p (es ++ fs)
On-append_left x p [] [] on = on
On-append_left x p [] (f ∷ fs) on = inl on
On-append_left x p (e ∷ es) fs (inl here) = inl here
On-append_left x p (e ∷ es) fs (inr on) = inr (On-append_left x e.1 es fs on)

On-append_right : (x p q : ℕ) (es fs : List Edge) → Joins p es q → On x q fs → On x p (es ++ fs)
On-append_right x p q [] fs j on = subst (λ y. On x y fs) (sym j) on
On-append_right x p q (e ∷ es) fs j on = inr (On-append_right x e.1 q es fs j.1 on)

pub On-backward : (x p q : ℕ) (es : List Edge) → Joins p es q → On x p es → On x q (backward es)
On-backward x p q [] j on = on ∙ j
On-backward x p q (e ∷ es) j (inl here) =
    On-append_right x q e.1 (backward es) ((e.1, e.0) ∷ []) (Joins-backward e.1 q es j.1)
      (inr (here ∙ sym j.0))
On-backward x p q (e ∷ es) j (inr on) =
    On-append_left x q (backward es) ((e.1, e.0) ∷ []) (On-backward x e.1 q es j.1 on)
