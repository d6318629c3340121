-- ===== src/Prelude/Unique.antt =====
-- Maps without repeated keys: `get` and membership agree, and writes keep it so.
use mathlib.Core.Path.{◌≡◌, refl, sym}
use mathlib.Core.Logic.{if_pos, if_neg, inl, inr}
use mathlib.Core.Option.{none, some}
use mathlib.Core.List.{[], ◌∷◌}
use native.Mathlib.Omega.{arith}
use borg_core.Prelude.Equality.{Eq, ◌≟◌}
use borg_core.Prelude.Members.{In}
use borg_core.Prelude.Map.{Map, get, insert, remove, get-insert, get-remove}

module _ {K V : Type 0} ⦃e : Eq K⦄ where
  abbrev pub IsUnique : Map K V → Type 0
  IsUnique [] = Unit
  IsUnique ((k, v) ∷ m) = (get m k ≡ none) × IsUnique m

  pub In_of_get : (m : Map K V) (k : K) (v : V) → get m k ≡ some v → In (k, v) m
  unfolding get
  In_of_get [] k v h = cc
  In_of_get ((j, w) ∷ m) k v h = elim (j ≟ k) [
    | yes p ↦ inl (ground arith)
    | no p ↦ inr (In_of_get m k v (ground arith))
  ]

  pub get_of_In : (m : Map K V) (k : K) (v : V) → IsUnique m → In (k, v) m → get m k ≡ some v
  unfolding get
  get_of_In [] k v u h = absurd h
  get_of_In ((j, w) ∷ m) k v u (inl q) = ground arith
  get_of_In ((j, w) ∷ m) k v u (inr h) = ground (arith, get_of_In m k v u.1 h)

  pub insert-IsUnique : (m : Map K V) (k : K) (v : V) → IsUnique m → IsUnique (insert m k v)
  unfolding get insert
  insert-IsUnique [] k v u = (refl, tt)
  insert-IsUnique ((j, w) ∷ m) k v u = elim (j ≟ k) [
    | yes p ↦ rw (if_pos _ p) u
    | no p ↦
        rw (if_neg _ p)
          (rw get-insert (rw (if_neg _ (λ q. p (sym q))) u.0), insert-IsUnique m k v u.1)
  ]

  pub remove-IsUnique : (m : Map K V) (k : K) → IsUnique m → IsUnique (remove m k)
  unfolding get remove
  remove-IsUnique [] k u = tt
  remove-IsUnique ((j, w) ∷ m) k u = elim (j ≟ k) [
    | yes p ↦ rw (if_pos _ p) (remove-IsUnique m k u.1)
    | no p ↦
        rw (if_neg _ p)
          (rw get-remove (rw (if_neg _ (λ q. p (sym q))) u.0), remove-IsUnique m k u.1)
  ]
