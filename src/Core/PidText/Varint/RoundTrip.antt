-- ===== src/Core/PidText/Varint/RoundTrip.antt =====
-- What `take_varint` reads back.
use borg_core.Prelude.{
  ℕ, zero, suc, ◌+◌, ◌*◌, ◌/◌, ◌%◌, ◌^◌, ◌≤◌, ◌<◌, ◌≡◌, some, List, ◌∷◌, ◌++◌, if◌then◌else◌, ltb,
}
use borg_core.Prelude.{refl, ap, ◌∙◌, arith, ◌==◌, length, All, Bool-cases, inl, inr}
use borg_core.Core.PidText.Varint.{put_groups, put_varint, shifted, take_groups, take_varint}
use native.Mathlib.Nat.{add-zero}

pub pow_split : (s d : ℕ) → 2 ^ (s + d) ≡ 2 ^ s * 2 ^ d
pow_split s zero = rw (add-zero s) (omega arith)
pow_split s (suc d) =
    let e : s + suc d ≡ suc (s + d) = omega arith in rw e (grind (arith, pow_split s d))

pub pow_pos : (s : ℕ) → 0 < 2 ^ s
pow_pos zero = omega arith
pow_pos (suc s) = omega (arith, pow_pos s)

spread : (r q p : ℕ) → r * p + q * (p * 128) ≡ (r + q * 128) * p
spread r q p = grind arith

-- A number by its lowest group, at a unit `p`, and the groups above, at 128 times that.
lowest_apart : (p w : ℕ) → w % 128 * p + w / 128 * (p * 128) ≡ w * p
lowest_apart p w =
    let split : w % 128 + w / 128 * 128 ≡ w = omega arith in
    spread (w % 128) (w / 128) p ∙ ap (λ (n : ℕ). n * p) split

multiple : (a p : ℕ) → 0 < p → a * p / p ≡ a
multiple a p pos = grind arith

shifted_fits : (a s : ℕ) → s < 64 → a * 2 ^ s < 2 ^ 64 → shifted a s ≡ some (a * 2 ^ s)
unfolding shifted
shifted_fits a s h fits =
    let e : a * 2 ^ s % 2 ^ 64 ≡ a * 2 ^ s = omega (arith, fits) in
    rw e (ground (arith, multiple a (2 ^ s) (pow_pos s), h))

-- One turn of the loop, on a byte with a group `g` that fits.
one_turn :
    (shift value byte g : ℕ) (more : List ℕ)
    → byte % 128 ≡ g
    → shift < 64
    → g * 2 ^ shift < 2 ^ 64
    → take_groups (byte ∷ more) value shift ≡ (
        if ltb byte 128
        then some (value + g * 2 ^ shift, more)
        else take_groups more (value + g * 2 ^ shift) (shift + 7))
unfolding take_groups
one_turn shift value byte g more e h fits =
    let group : shifted (byte % 128) shift ≡ some (g * 2 ^ shift) =
      rw e (shifted_fits g shift h fits) in
    rw (take_groups, group) refl

-- The groups of `w`, of which there are `k + 1` at most, from bit `shift` on.
take_groups-put_groups :
    (k shift value w : ℕ) (more : List ℕ)
    → shift + 7 * k ≡ 63
    → w < 128 ^ suc k
    → w * 2 ^ shift < 2 ^ 64
    → take_groups (put_groups k w ++ more) value shift ≡ some (value + w * 2 ^ shift, more)
unfolding put_groups
take_groups-put_groups zero shift value w more at small fits =
    one_turn shift value (w % 128) w more (omega (arith, small)) (omega (arith, at)) fits
    ∙ ground (arith, small)
take_groups-put_groups (suc k) shift value w more at small fits = elim (Bool-cases (w / 128 == 0)) [
  | inl none_above ↦
      let low : w % 128 % 128 ≡ w = ground (arith, none_above) in
      rw none_above
        (one_turn shift value (w % 128) w more low (omega (arith, at)) fits ∙ ground arith)
  | inr above ↦
      let apart : w % 128 * 2 ^ shift + w / 128 * 2 ^ (shift + 7) ≡ w * 2 ^ shift =
        rw (pow_split shift 7) (lowest_apart (2 ^ shift) w) in
      let rest =
        take_groups-put_groups k (shift + 7) (value + w % 128 * 2 ^ shift) (w / 128) more
          (omega (arith, at)) (omega (arith, small)) (omega (arith, fits, apart)) in
      rw above (
        one_turn shift value (w % 128 + 128) (w % 128) (put_groups k (w / 128) ++ more)
          (omega arith) (omega (arith, at)) (omega (arith, fits, apart))
        ∙ ground (arith, rest, apart))
]

-- `take_varint` reads back the `u64` that `put_varint` wrote, and leaves what follows it.
pub take_varint-put_varint :
    (value : ℕ) (more : List ℕ)
    → value < 2 ^ 64
    → take_varint (put_varint value ++ more) ≡ some (value, more)
unfolding take_varint
take_varint-put_varint value more h =
    let whole : 0 + value * 2 ^ 0 ≡ value = omega arith in
    rw (take_groups-put_groups 9 0 0 value more refl (omega (arith, h)) (omega (arith, h)))
      (ap (λ (n : ℕ). some (n, more)) whole)

-- What `put_varint` writes is bytes.
pub put_groups-bytes : (k w : ℕ) → All (λ (b : ℕ). b < 256) (put_groups k w)
unfolding put_groups
put_groups-bytes zero w = omega arith
put_groups-bytes (suc k) w = ground (arith, put_groups-bytes k (w / 128))

-- A number below `128 ^ (j + 1)` has `j + 1` groups at most.
pub length-put_groups : (k j w : ℕ) → w < 128 ^ suc j → length (put_groups k w) ≤ suc j
unfolding put_groups
length-put_groups zero j w h = omega arith
length-put_groups (suc k) zero w h = ground (arith, h)
length-put_groups (suc k) (suc j) w h =
    ground (arith, length-put_groups k j (w / 128) (omega (arith, h)))
