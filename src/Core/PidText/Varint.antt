-- ===== src/Core/PidText/Varint.antt =====
-- pid.rs: numbers in groups of seven bits, lowest first, with the top bit set on all but the last.
pub mod RoundTrip
use borg_core.Prelude.{
  ℕ, zero, suc, ◌+◌, ◌*◌, ◌/◌, ◌%◌, ◌^◌, Option, none, some, List, [], ◌∷◌, ◌++◌, ◌==◌,
}
use borg_core.Prelude.{Bool, ◌&&◌, if◌then◌else◌, ltb, leb}

-- The loop of `put_varint`, on fuel: a `u64` has ten groups at most. `& 0x7f` and `>>= 7` are the
-- remainder and the quotient by 128, and `| 0x80` on a group adds 128.
unfoldable pub put_groups : ℕ → ℕ → List ℕ
put_groups zero value = (value % 128) ∷ []
put_groups (suc fuel) value =
    let rest = put_groups fuel (value / 128) in
    if value / 128 == 0 then (value % 128) ∷ [] else (value % 128 + 128) ∷ rest

abbrev pub put_varint : ℕ → List ℕ
put_varint value = put_groups 9 value

-- `part.checked_shl(shift)`, and the filter on lost bits.
unfoldable pub shifted : ℕ → ℕ → Option ℕ
shifted part shift =
    let v = part * 2 ^ shift % 2 ^ 64 in
    if ltb shift 64 && v / 2 ^ shift == part then some v else none

-- The loop of `take_varint`. The groups have no bit in common, so `|=` is a sum.
unfoldable pub take_groups : List ℕ → ℕ → ℕ → Option (ℕ × List ℕ)
take_groups [] value shift = none
take_groups (byte ∷ rest) value shift = elim (shifted (byte % 128) shift) [
  | none ↦ none
  | some v ↦
      let more = take_groups rest (value + v) (shift + 7) in
      if ltb byte 128 then some (value + v, rest) else more
]

unfoldable pub take_varint : List ℕ → Option (ℕ × List ℕ)
take_varint bytes = take_groups bytes 0 0
