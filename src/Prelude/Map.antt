-- ===== src/Prelude/Map.antt =====
-- `HashMap` and `BTreeMap` as association lists: a write replaces in place, or adds at the end.
-- The order of a `HashMap`'s entries is that of their first insertion; no theorem rests on it.
use mathlib.Core.Path.{◌≡◌, refl}
use mathlib.Core.Logic.{ite, ◌≢◌}
use mathlib.Core.Option.{Option, none, some}
use mathlib.Core.List.{List, [], ◌∷◌}
use native.Mathlib.Omega.{arith}
use borg_core.Prelude.Equality.{Eq, ◌≟◌}

abbrev pub Map : Type 0 → Type 0 → Type 0
Map K V = List (K × V)

module _ {K V : Type 0} ⦃e : Eq K⦄ where
  unfoldable pub get : Map K V → K → Option V
  get [] k = none
  get ((j, v) ∷ m) k = ite (j ≟ k) (some v) (get m k)

  unfoldable pub insert : Map K V → K → V → Map K V
  insert [] k v = (k, v) ∷ []
  insert ((j, w) ∷ m) k v = ite (j ≟ k) ((j, v) ∷ m) ((j, w) ∷ insert m k v)

  unfoldable pub remove : Map K V → K → Map K V
  remove [] k = []
  remove ((j, w) ∷ m) k = let rest = remove m k in ite (j ≟ k) rest ((j, w) ∷ rest)

  pub get-insert :
      (m : Map K V) (k j : K) (v : V) → get (insert m k v) j ≡ ite (k ≟ j) (some v) (get m j)
  unfolding get insert
  get-insert [] k j v = refl
  get-insert ((i, w) ∷ m) k j v = ground (arith, get-insert m k j v)

  pub get-remove : (m : Map K V) (k j : K) → get (remove m k) j ≡ ite (k ≟ j) none (get m j)
  unfolding get remove
  get-remove [] k j = ground arith
  get-remove ((i, w) ∷ m) k j = ground (arith, get-remove m k j)

  pub get-insert_self : (m : Map K V) (k : K) (v : V) → get (insert m k v) k ≡ some v
  get-insert_self m k v = ground (arith, get-insert m k k v)

  pub get-insert_ne : (m : Map K V) (k j : K) (v : V) → k ≢ j → get (insert m k v) j ≡ get m j
  get-insert_ne m k j v h = ground (arith, h, get-insert m k j v)
