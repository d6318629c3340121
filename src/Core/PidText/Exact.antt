-- ===== src/Core/PidText/Exact.antt =====
-- That a pid that is read from a text has the very numbers that the text's bytes spell.
use borg_core.Prelude.{
  some_inj, ℕ, ◌+◌, ◌*◌, ◌%◌, ◌^◌, ◌≤◌, ◌<◌, ◌≡◌, inl, inr, none, some, Option-cases, Bool-cases,
  List, [], ◌∷◌, ◌++◌, length, ltb, ◌==◌, if◌then◌else◌, ==_iff, ltb→lt, refl, ap, sym, subst, ◌∙◌,
  arith,
}
use mathlib.Core.List.{append-nil}
use borg_core.Core.Pid.{Pid, PidKind, kind, allocated, content}
use borg_core.Core.PidText.{
  allocated_of, allocated_fields, kind_letter, from_letter, of_bytes, from_str, split_once, hyphen,
}
use borg_core.Core.PidText.Varint.{shifted, take_groups, take_varint}
use borg_core.Core.PidText.Varint.RoundTrip.{pow_split}
use borg_core.Core.PidText.Base32.{Parsed, parsed, refused, hash_len, decode_base32}
use borg_core.Core.PidText.Spelling.{InRange}
use borg_core.Core.PidText.Ranges.{shifted_room, parsed_inj, Parsed-cases, from_str-InRange}

-- A number in groups of seven bits, lowest first, all but the last with the top bit set. It is a
-- natural number of any size: nothing here has a width.
pub data IsVarint : List ℕ → ℕ → Type 0 where
  last : {byte : ℕ} → byte < 128 → IsVarint (byte ∷ []) byte
  more :
      {byte above : ℕ} {rest : List ℕ}
      → 128 ≤ byte
      → IsVarint rest above
      → IsVarint (byte ∷ rest) (byte % 128 + 128 * above)

plus_part : (value g p n : ℕ) → value + g * p + p * 2 ^ 7 * n ≡ value + p * (g + 128 * n)
plus_part value g p n = grind arith

one_group : (value p g : ℕ) → g < 128 → value + g % 128 * p ≡ value + p * g
one_group value p g small = let same : g % 128 ≡ g = omega (arith, small) in grind (arith, same)

take_groups-IsVarint :
    (bytes : List ℕ) (value shift v : ℕ) (rest : List ℕ)
    → take_groups bytes value shift ≡ some (v, rest)
    → (groups : List ℕ) × (n : ℕ) × (bytes ≡ groups ++ rest)
      × IsVarint groups n
      × (v ≡ value + 2 ^ shift * n)
unfolding take_groups
take_groups-IsVarint [] value shift v rest h = cc (h)
take_groups-IsVarint (byte ∷ bytes) value shift v rest h =
    elim (Option-cases (shifted (byte % 128) shift)) [
      | inl gone ↦
          let none_read : take_groups (byte ∷ bytes) value shift ≡ none =
            rw (take_groups, gone) refl in
          cc (h, none_read)
      | inr (part, e) ↦
          let room = shifted_room (byte % 128) shift part e in
          let read : (if ltb byte 128
                then some (value + part, bytes)
                else take_groups bytes (value + part) (shift + 7))
              ≡ some (v, rest) =
            rw (take_groups, e) at h in
          elim (Bool-cases (ltb byte 128)) [
            | inl final ↦
                let both = some_inj (rw final at read) in
                (
                  byte ∷ [],
                  byte,
                  ap (λ (r : ℕ × List ℕ). byte ∷ r.1) both,
                  last (ltb→lt byte 128 final),
                  sym (ap (λ (r : ℕ × List ℕ). r.0) both)
                      ∙ rw (room.0) (one_group value (2 ^ shift) byte (ltb→lt byte 128 final)),
                )
            | inr goes_on ↦
                let (groups, n, is, varint, sum) =
                  take_groups-IsVarint bytes (value + part) (shift + 7) v rest
                    (rw goes_on at read) in
                (
                  byte ∷ groups,
                  byte % 128 + 128 * n,
                  ap (λ bs. byte ∷ bs) is,
                  more (ground (arith, goes_on)) varint,
                  sum
                      ∙ (rw (room.0, pow_split shift 7)
                          (plus_part value (byte % 128) (2 ^ shift) n)),
                )
          ]
    ]

-- What the bytes of a text spell: three numbers and nothing after them, or a hash.
abbrev pub IsSpelt : List ℕ → Pid → Type 0
IsSpelt bytes (allocated k branch allocator counter) =
    (b : List ℕ) × (a : List ℕ) × (c : List ℕ) × (bytes ≡ b ++ (a ++ c))
    × IsVarint b branch
    × IsVarint a allocator
    × IsVarint c counter
IsSpelt bytes (content k hash) = (hash ≡ bytes) × (length bytes ≡ hash_len)

take_varint-IsVarint :
    (bytes : List ℕ) (v : ℕ) (rest : List ℕ)
    → take_varint bytes ≡ some (v, rest)
    → (groups : List ℕ) × (bytes ≡ groups ++ rest) × IsVarint groups v
unfolding take_varint
take_varint-IsVarint bytes v rest h =
    let (groups, n, is, varint, sum) = take_groups-IsVarint bytes 0 0 v rest h in
    (groups, is, subst (IsVarint groups) (omega (arith, sum)) varint)

split_once_lem :
    (at : ℕ) (text before after : List ℕ)
    → split_once at text ≡ some (before, after)
    → text ≡ before ++ (at ∷ after)
unfolding split_once
split_once_lem at [] before after h = cc (h)
split_once_lem at (c ∷ text) before after h = elim (Bool-cases (c == at)) [
  | inl here ↦
      ap (λ x. x ∷ text) ((==_iff c at).0 here)
      ∙ ap (λ (r : List ℕ × List ℕ). r.0 ++ (at ∷ r.1)) (some_inj (rw (split_once, here) at h))
  | inr past ↦ elim (Option-cases (split_once at text)) [
    | inl gone ↦ cc (rw gone at (rw (split_once, past) at h))
    | inr ((b, a), e) ↦
        ap (λ t. c ∷ t) (split_once_lem at text b a e)
        ∙ ap (λ (r : List ℕ × List ℕ). r.0 ++ (at ∷ r.1))
            (some_inj (rw e at (rw (split_once, past) at h)))
  ]
]

kind_letter_lem :
    (letters : List ℕ) (k : PidKind)
    → kind_letter letters ≡ some k
    → (c : ℕ) × (letters ≡ c ∷ []) × (from_letter c ≡ some k)
kind_letter_lem [] k h = cc (h)
kind_letter_lem (c ∷ []) k h = (c, refl, h)
kind_letter_lem (c ∷ d ∷ rest) k h = cc (h)

fields-IsSpelt :
    (k : PidKind) (bytes b a c rest : List ℕ) (branch allocator counter : ℕ) (p : Pid)
    → bytes ≡ b ++ (a ++ (c ++ rest))
    → IsVarint b branch
    → IsVarint a allocator
    → IsVarint c counter
    → allocated_fields k branch allocator counter rest ≡ some p
    → (kind p ≡ k) × IsSpelt bytes p
fields-IsSpelt k bytes b a c [] branch allocator counter p is vb va vc h =
    elim (Bool-cases (ltb allocator (2 ^ 32))) [
      | inl fits ↦
          let same : allocated k branch allocator counter ≡ p = some_inj (rw fits at h) in
          subst (λ q. (kind q ≡ k) × IsSpelt bytes q) same
            (refl, (b, a, c, is ∙ ap (λ t. b ++ (a ++ t)) (append-nil c), vb, va, vc))
      | inr over ↦ cc (rw over at h)
    ]
fields-IsSpelt k bytes b a c (extra ∷ rest) branch allocator counter p is vb va vc h = cc (h)

allocated_of-IsSpelt :
    (k : PidKind) (bytes : List ℕ) (p : Pid)
    → allocated_of k bytes ≡ some p
    → (kind p ≡ k) × IsSpelt bytes p
unfolding allocated_of
allocated_of-IsSpelt k bytes p h = elim (Option-cases (take_varint bytes)) [
  | inl gone ↦ cc (rw (allocated_of, gone) at h)
  | inr ((branch, bytes'), e) ↦
      let h' = rw (allocated_of, e) at h in
      let (b, is, vb) = take_varint-IsVarint bytes branch bytes' e in
      elim (Option-cases (take_varint bytes')) [
        | inl gone ↦ cc (rw gone at h')
        | inr ((allocator, bytes''), e') ↦
            let h'' = rw e' at h' in
            let (a, is', va) = take_varint-IsVarint bytes' allocator bytes'' e' in
            elim (Option-cases (take_varint bytes'')) [
              | inl gone ↦ cc (rw gone at h'')
              | inr ((counter, rest), e'') ↦
                  let (c, is'', vc) = take_varint-IsVarint bytes'' counter rest e'' in
                  fields-IsSpelt k bytes b a c rest branch allocator counter p
                    (is ∙ ap (λ t. b ++ t) (is' ∙ ap (λ t. a ++ t) is'')) vb va vc (rw e'' at h'')
            ]
      ]
]

of_bytes-IsSpelt :
    (k : PidKind) (bytes : List ℕ) (p : Pid)
    → of_bytes k bytes ≡ parsed p
    → (kind p ≡ k) × IsSpelt bytes p
unfolding of_bytes
of_bytes-IsSpelt k bytes p h = elim (Bool-cases (length bytes == hash_len)) [
  | inl full ↦
      let is : parsed (content k bytes) ≡ parsed p = rw full at h in
      subst (λ q. (kind q ≡ k) × IsSpelt bytes q) (parsed_inj is)
        (refl, (refl, (==_iff (length bytes) hash_len).0 full))
  | inr short ↦
      let h' = rw short at h in
      elim (Option-cases (allocated_of k bytes)) [
        | inl gone ↦ cc (rw gone at h')
        | inr (q, e) ↦
            let is : parsed q ≡ parsed p = rw e at h' in
            subst (λ q. (kind q ≡ k) × IsSpelt bytes q) (parsed_inj is)
              (allocated_of-IsSpelt k bytes q e)
      ]
]

-- A letter for the kind, a hyphen, and the base32 of bytes that spell the pid's own numbers.
abbrev pub Spells : List ℕ → Pid → Type 0
Spells text p =
    (c : ℕ) × (spelt : List ℕ) × (bytes : List ℕ) × (text ≡ c ∷ hyphen ∷ spelt)
    × (from_letter c ≡ some (kind p))
    × (decode_base32 spelt ≡ parsed bytes)
    × IsSpelt bytes p

read_bytes :
    (k : PidKind) (spelt : List ℕ) (p : Pid)
    → elim (decode_base32 spelt) as (λ _. Parsed Pid) [
      | refused why ↦ refused why
      | parsed bytes ↦ of_bytes k bytes
    ]
      ≡ parsed p
    → (bytes : List ℕ) × (decode_base32 spelt ≡ parsed bytes) × (kind p ≡ k) × IsSpelt bytes p
read_bytes k spelt p h = elim (Parsed-cases (decode_base32 spelt)) [
  | inl (bytes, e) ↦
      let (same, spells) = of_bytes-IsSpelt k bytes p (rw e at h) in (bytes, e, same, spells)
  | inr (why, e) ↦ cc (rw e at h)
]

-- A text that is read as a pid is a letter of the pid's kind, a hyphen, and base32 digits; the bytes
-- that these decode to are the pid's 32 bytes of hash, or its branch, allocator and counter one after
-- the other with nothing behind them, each in groups of seven bits as a number of any size. So no
-- number is cut or wrapped on the way, and each fits its type: 64, 32 and 64 bits.
pub from_str-Spells :
    (text : List ℕ) (p : Pid) → from_str text ≡ parsed p → InRange p × Spells text p
unfolding from_str
from_str-Spells text p h = (
  from_str-InRange text p h,
  elim (Option-cases (split_once hyphen text)) [
    | inl gone ↦ cc (rw (from_str, gone) at h)
    | inr ((letters, spelt), e) ↦
        let h' = rw (from_str, e) at h in
        elim (Option-cases (kind_letter letters)) [
          | inl gone ↦ cc (rw gone at h')
          | inr (k, e') ↦
              let (bytes, decodes, same, spells) = read_bytes k spelt p (rw e' at h') in
              let (c, one, letter) = kind_letter_lem letters k e' in
              (
                c,
                spelt,
                bytes,
                split_once_lem hyphen text letters spelt e ∙ ap (λ l. l ++ (hyphen ∷ spelt)) one,
                letter ∙ ap (λ x. some x) (sym same),
                decodes,
                spells,
              )
        ]
  ],
)
