-- ===== src/Core/PidText/Ranges.antt =====
-- That whatever text is read as a pid, the numbers of the pid fit their types.
use borg_core.Prelude.{
  some_inj, ℕ, ◌+◌, ◌-◌, ◌*◌, ◌/◌, ◌%◌, ◌^◌, ◌≤◌, ◌<◌, ◌≡◌, ◌⊎◌, inl, inr, none, some, Option-cases,
  Bool, true, false, Bool-cases, List, [], ◌∷◌, push, All, All-push, length, ltb, leb, ◌==◌, ◌&&◌,
  if◌then◌else◌, ==_iff, ltb→lt, subst, refl, ap, ◌∙◌, arith,
}
use native.Mathlib.Decide.{dec_lt}
use borg_core.Core.Pid.{Pid, PidKind, allocated, content}
use borg_core.Core.PidText.{
  allocated_of, allocated_fields, kind_letter, of_bytes, from_str, split_once, hyphen,
}
use borg_core.Core.PidText.Varint.{shifted, take_groups, take_varint}
use borg_core.Core.PidText.Varint.RoundTrip.{pow_split, pow_pos}
use borg_core.Core.PidText.Base32.{
  PidFault, Parsed, parsed, refused, not_a_digit, hash_len, finish, digit, shift_in, decode_from,
  decode_base32,
}
use borg_core.Core.PidText.Spelling.{InRange}

next_multiple : (p a b : ℕ) → 0 < a → p * a < a * b → p * a + a ≤ a * b
next_multiple p a b pos h = elim (dec_lt p b) [ yes lt ↦ grind arith | no ge ↦ grind arith ]

-- A shift that loses no bit: a multiple of `2 ^ shift` below `2 ^ 64`, so at `2 ^ 64 - 2 ^ shift` at most.
pub shifted_room :
    (part shift v : ℕ)
    → shifted part shift ≡ some v
    → (v ≡ part * 2 ^ shift) × (v + 2 ^ shift ≤ 2 ^ 64)
unfolding shifted
shifted_room part shift v h =
    let w = part * 2 ^ shift % 2 ^ 64 in
    let within : shift < 64 = ground (arith, h) in
    let kept : w / 2 ^ shift ≡ part = ground (arith, h) in
    let is : w ≡ v = ground (arith, h) in
    let low : part * 2 ^ shift ≤ w = grind (arith, kept, pow_pos shift) in
    let whole : 2 ^ 64 ≡ 2 ^ shift * 2 ^ (64 - shift) =
      ap (λ (n : ℕ). 2 ^ n) {x = 64} (omega (arith, within)) ∙ pow_split shift (64 - shift) in
    let top =
      next_multiple part (2 ^ shift) (2 ^ (64 - shift)) (pow_pos shift)
        (omega (arith, low, whole)) in
    (omega (arith, is, low), omega (arith, is, low, whole, top))

group_below : (g a : ℕ) → g < 128 → g * a + a ≤ 128 * a
group_below g a h = grind arith

take_groups_bound :
    (bytes : List ℕ) (value shift v : ℕ) (rest : List ℕ)
    → value < 2 ^ shift
    → take_groups bytes value shift ≡ some (v, rest)
    → v < 2 ^ 64
unfolding take_groups
take_groups_bound [] value shift v rest small h = cc
take_groups_bound (byte ∷ bytes) value shift v rest small h =
    elim (Option-cases (shifted (byte % 128) shift)) [
      | inl gone ↦
          let none_read : take_groups (byte ∷ bytes) value shift ≡ none =
            rw (take_groups, gone) refl in
          cc (h, none_read)
      | inr (part, e) ↦
          let room = shifted_room (byte % 128) shift part e in
          let read : (if ltb byte 128
                then some (value + part, bytes)
                else take_groups bytes (value + part) (shift + 7))
              ≡ some (v, rest) =
            rw (take_groups, e) at h in
          elim (Bool-cases (ltb byte 128)) [
            | inl last ↦ ground (arith, last, read, small, room.1)
            | inr more ↦
                take_groups_bound bytes (value + part) (shift + 7) v rest
                  (omega (
                    arith,
                    small,
                    room.0,
                    pow_split shift 7,
                    group_below (byte % 128) (2 ^ shift) (omega arith),
                  ))
                  (rw more at read)
          ]
    ]

pub parsed_inj : {T : Type 0} {a b : T} → parsed a ≡ parsed b → a ≡ b
parsed_inj h = cc

finish_lem : (acc bits : ℕ) (out bytes : List ℕ) → finish acc bits out ≡ parsed bytes → bytes ≡ out
unfolding finish
finish_lem acc bits out bytes h = ground (arith, h)

All-cond :
    (t : Bool) (xs ys : List ℕ)
    → All (λ (b : ℕ). b < 256) xs
    → All (λ (b : ℕ). b < 256) ys
    → All (λ (b : ℕ). b < 256) (if t then xs else ys)
All-cond true xs ys h k = h
All-cond false xs ys h k = k

decode_from_bytes :
    (text : List ℕ) (acc bits : ℕ) (out bytes : List ℕ)
    → All (λ (b : ℕ). b < 256) out
    → decode_from acc bits out text ≡ parsed bytes
    → All (λ (b : ℕ). b < 256) bytes
unfolding decode_from
decode_from_bytes [] acc bits out bytes small h = rw (finish_lem acc bits out bytes h) small
decode_from_bytes (c ∷ text) acc bits out bytes small h = elim (Option-cases (digit c)) [
  | inl gone ↦
      let wrong : decode_from acc bits out (c ∷ text) ≡ refused (not_a_digit c) =
        rw (decode_from, gone) refl in
      cc (h, wrong)
  | inr (value, e) ↦
      let h' = rw (decode_from, e) at h in
      elim (Bool-cases (leb 8 (bits + 5) && length out == hash_len)) [
        | inl full ↦ cc (rw full at h')
        | inr fits ↦
            let whole = leb 8 (bits + 5) in
            let out' = push out (shift_in acc 32 value / 2 ^ (bits - 3) % 256) in
            decode_from_bytes text (shift_in acc 32 value) (if whole then bits - 3 else bits + 5)
              (if whole then out' else out) bytes
              (All-cond whole out' out (All-push (λ (b : ℕ). b < 256) out _ small (omega arith))
                small)
              (rw fits at h')
      ]
]

allocated_fields-InRange :
    (k : PidKind) (branch allocator counter : ℕ) (rest : List ℕ) (p : Pid)
    → branch < 2 ^ 64
    → counter < 2 ^ 64
    → allocated_fields k branch allocator counter rest ≡ some p
    → InRange p
allocated_fields-InRange k branch allocator counter [] p b c h =
    elim (Bool-cases (ltb allocator (2 ^ 32))) [
      | inl fits ↦
          let is : some (allocated k branch allocator counter) ≡ some p = rw fits at h in
          subst (λ q. InRange q) (some_inj is) (b, ltb→lt allocator (2 ^ 32) fits, c)
      | inr over ↦ cc (rw over at h)
    ]
allocated_fields-InRange k branch allocator counter (extra ∷ rest) p b c h = cc

allocated_of-InRange :
    (k : PidKind) (bytes : List ℕ) (p : Pid) → allocated_of k bytes ≡ some p → InRange p
unfolding allocated_of take_varint
allocated_of-InRange k bytes p h = elim (Option-cases (take_varint bytes)) [
  | inl gone ↦ cc (rw (allocated_of, gone) at h)
  | inr ((branch, bytes'), e) ↦
      let h' = rw (allocated_of, e) at h in
      elim (Option-cases (take_varint bytes')) [
        | inl gone ↦ cc (rw gone at h')
        | inr ((allocator, bytes''), e') ↦
            let h'' = rw e' at h' in
            elim (Option-cases (take_varint bytes'')) [
              | inl gone ↦ cc (rw gone at h'')
              | inr ((counter, rest), e'') ↦
                  allocated_fields-InRange k branch allocator counter rest p
                    (take_groups_bound bytes 0 0 branch bytes' (omega arith) e)
                    (take_groups_bound bytes'' 0 0 counter rest (omega arith) e'') (rw e'' at h'')
            ]
      ]
]

of_bytes-InRange :
    (k : PidKind) (bytes : List ℕ) (p : Pid)
    → All (λ (b : ℕ). b < 256) bytes
    → of_bytes k bytes ≡ parsed p
    → InRange p
unfolding of_bytes
of_bytes-InRange k bytes p small h = elim (Bool-cases (length bytes == hash_len)) [
  | inl full ↦
      let is : parsed (content k bytes) ≡ parsed p = rw full at h in
      subst (λ q. InRange q) (parsed_inj is) ((==_iff (length bytes) hash_len).0 full, small)
  | inr short ↦
      let h' = rw short at h in
      elim (Option-cases (allocated_of k bytes)) [
        | inl gone ↦ cc (rw gone at h')
        | inr (q, e) ↦
            let is : parsed q ≡ parsed p = rw e at h' in
            subst (λ q. InRange q) (parsed_inj is) (allocated_of-InRange k bytes q e)
      ]
]

pub Parsed-cases :
    {T : Type 0} (r : Parsed T)
    → ((t : T) × (r ≡ parsed t)) ⊎ ((why : PidFault) × (r ≡ refused why))
Parsed-cases (parsed t) = inl (t, refl)
Parsed-cases (refused why) = inr (why, refl)

read_kind :
    (k : PidKind) (spelt : List ℕ) (p : Pid)
    → elim (decode_base32 spelt) as (λ _. Parsed Pid) [
      | refused why ↦ refused why
      | parsed bytes ↦ of_bytes k bytes
    ]
      ≡ parsed p
    → InRange p
read_kind k spelt p h = elim (Parsed-cases (decode_base32 spelt)) [
  | inl (bytes, e) ↦
      of_bytes-InRange k bytes p (decode_from_bytes spelt 0 0 [] bytes tt e) (rw e at h)
  | inr (why, e) ↦ cc (rw e at h)
]

-- Whatever text is read as a pid, its numbers are in the ranges of their types.
pub from_str-InRange : (text : List ℕ) (p : Pid) → from_str text ≡ parsed p → InRange p
unfolding from_str
from_str-InRange text p h = elim (Option-cases (split_once hyphen text)) [
  | inl gone ↦ cc (rw (from_str, gone) at h)
  | inr ((letters, spelt), e) ↦
      let h' = rw (from_str, e) at h in
      elim (Option-cases (kind_letter letters)) [
        | inl gone ↦ cc (rw gone at h')
        | inr (k, e') ↦ read_kind k spelt p (rw e' at h')
      ]
]
