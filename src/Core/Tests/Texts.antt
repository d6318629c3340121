-- ===== src/Core/Tests/Texts.antt =====
-- Pids and their texts, and spellings of one pid that differ.
use borg_core.Prelude.{ℕ, ◌≡◌, List, [], ◌∷◌, refl, arith}
use borg_core.Core.Pid.{Pid, allocated, PidKind.object}
use borg_core.Core.PidText.{
  letter, payload, to_text, split_once, kind_of, of_bytes, allocated_of, from_str,
}
use borg_core.Core.PidText.Varint.{put_groups, shifted, take_groups, take_varint}
use borg_core.Core.PidText.Base32.{
  parsed, refused, nonzero_padding, no_hyphen, malformed, encode_base32, encode_from, spill,
  digit_at, decode_from, digit, digit_of, finish,
}
use borg_core.Core.PidText.Spelling.{from_str-to_text, InRange}
use borg_core.Core.PidText.Exact.{Spells, from_str-Spells}

-- `allocated(PidKind::Object, 7, 3, 100)`.
abbrev lamp : Pid
lamp = allocated object 7 3 100

from_str-to_text_example : from_str (to_text lamp) ≡ parsed lamp
from_str-to_text_example = from_str-to_text lamp (omega arith, omega arith, omega arith)

abbrev lamp_text : List ℕ
lamp_text = 111 ∷ 45 ∷ 48 ∷ 119 ∷ 49 ∷ 112 ∷ 56 ∷ []

lamp_spelt : to_text lamp ≡ lamp_text
unfolding to_text letter payload put_groups encode_from spill digit_at
lamp_spelt = refl

-- `O-0W1P8`.
abbrev lamp_shouted : List ℕ
lamp_shouted = 79 ∷ 45 ∷ 48 ∷ 87 ∷ 49 ∷ 80 ∷ 56 ∷ []

lamp_heard : from_str lamp_shouted ≡ parsed lamp
unfolding from_str split_once kind_of decode_from digit digit_of finish of_bytes allocated_of
    take_varint take_groups shifted
lamp_heard = refl

Spells-example : InRange lamp × Spells lamp_shouted lamp
Spells-example = from_str-Spells lamp_shouted lamp lamp_heard

-- A varint with a group that adds nothing: the pid has another text than its own.
longer_spelling : from_str (111 ∷ 45 ∷ encode_base32 (135 ∷ 0 ∷ 3 ∷ 100 ∷ [])) ≡ parsed lamp
unfolding from_str split_once kind_of decode_from digit digit_of finish of_bytes allocated_of
    take_varint take_groups shifted encode_from spill digit_at
longer_spelling = refl

padding_refused : from_str (111 ∷ 45 ∷ 48 ∷ 119 ∷ 49 ∷ 112 ∷ 57 ∷ []) ≡ refused nonzero_padding
unfolding from_str split_once kind_of decode_from digit digit_of finish of_bytes allocated_of
    take_varint take_groups shifted
padding_refused = refl

nothing_to_split : from_str (111 ∷ []) ≡ refused no_hyphen
unfolding from_str split_once kind_of decode_from digit digit_of finish of_bytes allocated_of
    take_varint take_groups shifted
nothing_to_split = refl

nothing_spelt : from_str (111 ∷ 45 ∷ []) ≡ refused malformed
unfolding from_str split_once kind_of decode_from digit digit_of finish of_bytes allocated_of
    take_varint take_groups shifted
nothing_spelt = refl
