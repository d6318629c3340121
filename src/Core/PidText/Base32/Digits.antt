-- ===== src/Core/PidText/Base32/Digits.antt =====
-- The alphabet, by evaluation.
use borg_core.Prelude.{
  ℕ, zero, suc, ◌<◌, ◌≡◌, Bool, true, false, Option, none, some, refl, arith, ◌&&◌, ◌==◌,
}
use borg_core.Prelude.{ℕ_discrete}
use borg_core.Core.PidText.Base32.{digit_at, digit_of, digit}

reads : ℕ → Option ℕ → Bool
reads v none = false
reads v (some w) = v == w

read_back : ℕ → Bool
unfolding digit digit_of digit_at reads
read_back zero = true
read_back (suc n) = reads n (digit (digit_at n)) && read_back n

some_of_reads : (v : ℕ) (o : Option ℕ) → reads v o ≡ true → o ≡ some v
unfolding reads
some_of_reads v none h = cc
some_of_reads v (some w) h = ground (arith, h)

digit_of_read_back : (n v : ℕ) → read_back n ≡ true → v < n → digit (digit_at v) ≡ some v
unfolding read_back
digit_of_read_back zero v h lt = absurd (omega (arith, lt))
digit_of_read_back (suc n) v h lt = elim (ℕ_discrete n v) [
  | yes p ↦ some_of_reads v (digit (digit_at v)) (ground (arith, p, h))
  | no p ↦ digit_of_read_back n v (ground (arith, h)) (omega (arith, lt, p))
]

-- Each digit reads back as its value.
pub digit-digit_at : (v : ℕ) → v < 32 → digit (digit_at v) ≡ some v
unfolding read_back
digit-digit_at v h = digit_of_read_back 32 v refl h
