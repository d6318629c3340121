-- ===== src/Core/PidText/Spelling.antt =====
-- That a pid survives its text form.
use borg_core.Prelude.{
  ℕ, ◌^◌, ◌≤◌, ◌<◌, ◌≡◌, ◌⊎◌, inl, inr, some, [], ◌++◌, All, All-append, length, length-append,
  ◌==◌, false, refl, arith,
}
use borg_core.Core.Pid.{
  Pid, PidKind, kind, object, list, any, any_object, any_array, any_number, string, binary, big_int,
  allocated, content,
}
use borg_core.Core.PidText.{
  letter, kind_of, from_letter, payload, to_text, split_once, allocated_of, of_bytes, from_str,
  hyphen,
}
use borg_core.Core.PidText.Varint.{put_varint, take_varint}
use borg_core.Core.PidText.Varint.RoundTrip.{
  take_varint-put_varint, put_groups-bytes, length-put_groups,
}
use borg_core.Core.PidText.Base32.{parsed, hash_len, max_allocated}
use borg_core.Core.PidText.Base32.RoundTrip.{decode_base32-encode_base32}
use mathlib.Core.List.{append-nil}

-- The ranges of the source's types: `u64`, `u32`, `u64`, and `[u8; 32]`.
abbrev pub InRange : Pid → Type 0
InRange (allocated k branch allocator counter) =
    (branch < 2 ^ 64) × (allocator < 2 ^ 32) × (counter < 2 ^ 64)
InRange (content k hash) = (length hash ≡ hash_len) × All (λ (b : ℕ). b < 256) hash

from_letter-letter : (k : PidKind) → from_letter (letter k) ≡ some k
unfolding letter kind_of
from_letter-letter object = refl
from_letter-letter list = refl
from_letter-letter any = refl
from_letter-letter any_object = refl
from_letter-letter any_array = refl
from_letter-letter any_number = refl
from_letter-letter string = refl
from_letter-letter binary = refl
from_letter-letter big_int = refl

letter-not_hyphen : (k : PidKind) → (letter k == hyphen) ≡ false
unfolding letter
letter-not_hyphen object = refl
letter-not_hyphen list = refl
letter-not_hyphen any = refl
letter-not_hyphen any_object = refl
letter-not_hyphen any_array = refl
letter-not_hyphen any_number = refl
letter-not_hyphen string = refl
letter-not_hyphen binary = refl
letter-not_hyphen big_int = refl

allocated_of-payload :
    (k : PidKind) (branch allocator counter : ℕ)
    → InRange (allocated k branch allocator counter)
    → allocated_of k (payload (allocated k branch allocator counter))
      ≡ some (allocated k branch allocator counter)
unfolding allocated_of payload
allocated_of-payload k branch allocator counter h =
    let rest = put_varint allocator ++ put_varint counter in
    let first = take_varint-put_varint branch rest h.0 in
    let second = take_varint-put_varint allocator (put_varint counter) (omega (arith, h.1)) in
    let third : take_varint (put_varint counter) ≡ some (counter, []) =
      rw (← append-nil (put_varint counter)) (take_varint-put_varint counter [] h.2) in
    rw (allocated_of, first) (rw second (rw third (ground (arith, h.1))))

-- The payload of an allocated pid has 25 bytes at most, so it fits the buffer of 32 bytes and is
-- never as long as a hash.
pub length-payload_bound :
    (k : PidKind) (branch allocator counter : ℕ)
    → InRange (allocated k branch allocator counter)
    → length (payload (allocated k branch allocator counter)) ≤ max_allocated
unfolding payload
length-payload_bound k branch allocator counter h = omega (
  arith,
  length-append (put_varint branch) (put_varint allocator ++ put_varint counter),
  length-append (put_varint allocator) (put_varint counter),
  length-put_groups 9 9 branch (omega (arith, h.0)),
  length-put_groups 9 4 allocator (omega (arith, h.1)),
  length-put_groups 9 9 counter (omega (arith, h.2)),
)

payload-bytes : (p : Pid) → InRange p → All (λ (b : ℕ). b < 256) (payload p)
unfolding payload
payload-bytes (allocated k branch allocator counter) h =
    All-append (λ (b : ℕ). b < 256) (put_varint branch) (put_varint allocator ++ put_varint counter)
      (put_groups-bytes 9 branch)
      (All-append (λ (b : ℕ). b < 256) (put_varint allocator) (put_varint counter)
        (put_groups-bytes 9 allocator) (put_groups-bytes 9 counter))
payload-bytes (content k hash) h = h.1

payload-len :
    (p : Pid) → InRange p → (length (payload p) ≤ max_allocated) ⊎ (length (payload p) ≡ hash_len)
unfolding payload
payload-len (allocated k branch allocator counter) h =
    inl (length-payload_bound k branch allocator counter h)
payload-len (content k hash) h = inr h.0

of_bytes-payload : (p : Pid) → InRange p → of_bytes (kind p) (payload p) ≡ parsed p
unfolding of_bytes payload
of_bytes-payload (allocated k branch allocator counter) h =
    let short : (length (payload (allocated k branch allocator counter)) == hash_len) ≡ false =
      ground (arith, length-payload_bound k branch allocator counter h) in
    rw short (rw (allocated_of-payload k branch allocator counter h) refl)
of_bytes-payload (content k hash) h = ground (arith, h.0)

-- Every pid in the ranges of its types reads back from its text as itself.
pub from_str-to_text : (p : Pid) → InRange p → from_str (to_text p) ≡ parsed p
unfolding from_str to_text split_once
from_str-to_text p h =
    let read = decode_base32-encode_base32 (payload p) (payload-bytes p h) (payload-len p h) in
    rw (from_str, letter-not_hyphen (kind p))
      (rw (from_letter-letter (kind p)) (rw read (of_bytes-payload p h)))
