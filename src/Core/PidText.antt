-- ===== src/Core/PidText.antt =====
-- pid.rs: the text form of a pid, `<kind letter>-<base32 of the payload>`.
pub mod Varint
pub mod Base32
pub mod Spelling
pub mod Ranges
pub mod Exact
use borg_core.Prelude.{
  ℕ, Option, none, some, List, [], ◌∷◌, ◌++◌, ◌==◌, ◌^◌, if◌then◌else◌, length, ltb,
}
use borg_core.Core.Pid.{
  Pid, PidKind, kind, object, list, any, any_object, any_array, any_number, string, binary, big_int,
  allocated, content,
}
use borg_core.Core.PidText.Varint.{put_varint, take_varint}
use borg_core.Core.PidText.Base32.{
  PidFault, no_hyphen, not_a_kind, malformed, Parsed, parsed, refused, hash_len, to_ascii_lowercase,
  encode_base32, decode_base32,
}

unfoldable pub letter : PidKind → ℕ
letter object = 111
letter list = 108
letter any = 97
letter any_object = 106
letter any_array = 121
letter any_number = 109
letter string = 115
letter binary = 98
letter big_int = 110

-- The arms of `from_letter`, on a letter in lower case.
unfoldable pub kind_of : ℕ → Option PidKind
kind_of c =
    if c == 111
    then some object
    else if c == 108
    then some list
    else if c == 97
    then some any
    else if c == 106
    then some any_object
    else if c == 121
    then some any_array
    else if c == 109
    then some any_number
    else if c == 115
    then some string
    else if c == 98
    then some binary
    else if c == 110
    then some big_int
    else none

abbrev pub from_letter : ℕ → Option PidKind
from_letter c = kind_of (to_ascii_lowercase c)

-- The bytes that the text carries.
unfoldable pub payload : Pid → List ℕ
payload (allocated k branch allocator counter) =
    put_varint branch ++ (put_varint allocator ++ put_varint counter)
payload (content k hash) = hash

abbrev pub hyphen : ℕ
hyphen = 45

-- `Display`: a text is its code points.
unfoldable pub to_text : Pid → List ℕ
to_text p = letter (kind p) ∷ hyphen ∷ encode_base32 (payload p)

-- `str::split_once` at a character.
unfoldable pub split_once : ℕ → List ℕ → Option (List ℕ × List ℕ)
split_once at [] = none
split_once at (c ∷ text) =
    let rest = split_once at text in
    if c == at
    then some ([], text)
    else elim rest [ none ↦ none | some (before, after) ↦ some (c ∷ before, after) ]

-- The last two steps of `allocated`.
abbrev pub allocated_fields : PidKind → ℕ → ℕ → ℕ → List ℕ → Option Pid
allocated_fields k branch allocator counter [] =
    if ltb allocator (2 ^ 32) then some (allocated k branch allocator counter) else none
allocated_fields k branch allocator counter (extra ∷ rest) = none

-- `allocated`: three varints, and nothing after them.
unfoldable pub allocated_of : PidKind → List ℕ → Option Pid
allocated_of k bytes = elim (take_varint bytes) [
  | none ↦ none
  | some (branch, bytes') ↦ elim (take_varint bytes') [
    | none ↦ none
    | some (allocator, bytes'') ↦ elim (take_varint bytes'') [
      | none ↦ none
      | some (counter, rest) ↦ allocated_fields k branch allocator counter rest
    ]
  ]
]

-- One character, and a kind's letter.
abbrev pub kind_letter : List ℕ → Option PidKind
kind_letter [] = none
kind_letter (c ∷ []) = from_letter c
kind_letter (c ∷ d ∷ rest) = none

unfoldable pub of_bytes : PidKind → List ℕ → Parsed Pid
of_bytes k bytes =
    if length bytes == hash_len
    then parsed (content k bytes)
    else elim (allocated_of k bytes) [ none ↦ refused malformed | some p ↦ parsed p ]

unfoldable pub from_str : List ℕ → Parsed Pid
from_str text = elim (split_once hyphen text) [
  | none ↦ refused no_hyphen
  | some (letters, spelt) ↦ elim (kind_letter letters) [
    | none ↦ refused not_a_kind
    | some k ↦ elim (decode_base32 spelt) [
      | refused why ↦ refused why
      | parsed bytes ↦ of_bytes k bytes
    ]
  ]
]
