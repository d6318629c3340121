-- ===== src/Core/PidText/Base32.antt =====
-- pid.rs: Crockford's base32. A text is a list of code points.
pub mod Digits
pub mod RoundTrip
use borg_core.Prelude.{
  ℕ, zero, suc, ◌+◌, ◌-◌, ◌*◌, ◌/◌, ◌%◌, ◌^◌, Option, none, some, List, [], ◌∷◌, ◌++◌, ◌==◌,
}
use borg_core.Prelude.{Bool, true, false, ◌&&◌, ◌||◌, not, if◌then◌else◌, ltb, leb, length, push}

abbrev pub hash_len : ℕ
hash_len = 32

abbrev pub max_allocated : ℕ
max_allocated = 25

-- Why a text is no pid. The source's messages are formatted from these.
pub data PidFault : Type 0 where
  no_hyphen not_a_kind too_long nonzero_padding bad_length malformed : PidFault
  not_a_digit : ℕ → PidFault

pub data Parsed (T : Type 0) : Type 0 where
  parsed : T → Parsed T
  refused : PidFault → Parsed T

abbrev pub u32_mod : ℕ
u32_mod = 2 ^ 32

-- `0123456789abcdefghjkmnpqrstvwxyz`, at a value below 32.
unfoldable pub digit_at : ℕ → ℕ
digit_at v =
    if ltb v 10
    then v + 48
    else if ltb v 18
    then v - 10 + 97
    else if ltb v 20
    then v - 18 + 106
    else if ltb v 22
    then v - 20 + 109
    else if ltb v 27
    then v - 22 + 112
    else v - 27 + 118

-- The inner loop: the digits of the five bits on top of the `bits` that are pending. `bits` is at
-- most 12 here, so two turns are all.
unfoldable pub spill : ℕ → ℕ → ℕ → List ℕ × ℕ
spill zero acc bits = ([], bits)
spill (suc fuel) acc bits =
    let (digits, left) = spill fuel acc (bits - 5) in
    if leb 5 bits then (digit_at (acc / 2 ^ (bits - 5) % 32) ∷ digits, left) else ([], bits)

abbrev pub shift_in : ℕ → ℕ → ℕ → ℕ
shift_in acc width part = acc * width % u32_mod + part

-- The loop of `encode_base32`, and what the last byte left over.
unfoldable pub encode_from : ℕ → ℕ → List ℕ → List ℕ
encode_from acc bits [] =
    if bits == 0 then [] else digit_at (acc * 2 ^ (5 - bits) % u32_mod % 32) ∷ []
encode_from acc bits (byte ∷ bytes) =
    let acc' = shift_in acc 256 byte in
    let (digits, left) = spill 3 acc' (bits + 8) in digits ++ encode_from acc' left bytes

abbrev pub encode_base32 : List ℕ → List ℕ
encode_base32 bytes = encode_from 0 0 bytes

abbrev pub to_ascii_lowercase : ℕ → ℕ
to_ascii_lowercase c = if leb 65 c && leb c 90 then c + 32 else c

-- The arms of `digit`, on a character in lower case.
unfoldable pub digit_of : ℕ → Option ℕ
digit_of c =
    if c == 48 || c == 111
    then some 0
    else if c == 49 || c == 105 || c == 108
    then some 1
    else if leb 50 c && leb c 57
    then some (c - 48)
    else if leb 97 c && leb c 104
    then some (c - 97 + 10)
    else if c == 106
    then some 18
    else if c == 107
    then some 19
    else if c == 109
    then some 20
    else if c == 110
    then some 21
    else if c == 112
    then some 22
    else if c == 113
    then some 23
    else if c == 114
    then some 24
    else if c == 115
    then some 25
    else if c == 116
    then some 26
    else if leb 118 c && leb c 122
    then some (c - 118 + 27)
    else none

unfoldable pub digit : ℕ → Option ℕ
digit c = digit_of (to_ascii_lowercase c)

-- The end of `decode_base32`: the padding, and the length.
unfoldable pub finish : ℕ → ℕ → List ℕ → Parsed (List ℕ)
finish acc bits out =
    if not (acc % 2 ^ bits == 0)
    then refused nonzero_padding
    else if ltb max_allocated (length out) && not (length out == hash_len)
    then refused bad_length
    else parsed out

-- The loop of `decode_base32`; `out` is what has been written to the buffer.
unfoldable pub decode_from : ℕ → ℕ → List ℕ → List ℕ → Parsed (List ℕ)
decode_from acc bits out [] = finish acc bits out
decode_from acc bits out (c ∷ text) = elim (digit c) [
  | none ↦ refused (not_a_digit c)
  | some value ↦
      let acc' = shift_in acc 32 value in
      let whole = leb 8 (bits + 5) in
      elim (whole && length out == hash_len) [
        | true ↦ refused too_long
        | false ↦
            decode_from acc' (if whole then bits - 3 else bits + 5)
              (if whole then push out (acc' / 2 ^ (bits - 3) % 256) else out) text
      ]
]

abbrev pub decode_base32 : List ℕ → Parsed (List ℕ)
decode_base32 text = decode_from 0 0 [] text
