-- ===== src/Prelude/Equality.antt =====
-- Decidable equality as an instance: what `==`, `HashMap` and `BTreeSet` keys have in the source.
use Prim.Native.Nat.{ℕ}
use Prim.Native.String.{String}
use mathlib.Core.Path.{◌≡◌}
use mathlib.Core.Bool.{Bool, true, false}
use native.Mathlib.Decide.{ℕ_discrete}
use text.Mathlib.Text.{◌==◌ as str_eq}
use text.Mathlib.TextEquality.{eq_iff}

pub record Eq {ℓ} (A : Type ℓ) : Type ℓ where
  pub dec : Discrete A

infix 50 ◌≟◌
abbrev pub ◌≟◌ {ℓ} : {A : Type ℓ} ⦃e : Eq A⦄ (a b : A) → Dec (a ≡ b)
◌≟◌ ⦃e⦄ a b = e.dec a b

-- The Boolean of a decision.
abbrev pub same {ℓ} : {A : Type ℓ} ⦃e : Eq A⦄ (a b : A) → Bool
same ⦃e⦄ a b = elim (e.dec a b) [ yes _ ↦ true | no _ ↦ false ]

dec_of_test : (s t : String) (b : Bool) → str_eq s t ≡ b → Dec (s ≡ t)
dec_of_test s t true h = yes ((eq_iff s t).0 h)
dec_of_test s t false h = no (λ e. cc (h, (eq_iff s t).1 e))

unfoldable pub string_discrete : Discrete String
unfolding dec_of_test
string_discrete s t = dec_of_test s t (str_eq s t) (λ i. str_eq s t)

instance abbrev pub nat_eq : Eq ℕ
nat_eq = record { dec = ℕ_discrete }

instance abbrev pub string_eq : Eq String
string_eq = record { dec = string_discrete }
