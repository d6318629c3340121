-- ===== src/Core/PidText/Base32/RoundTrip.antt =====
-- What `decode_base32` reads back.
use borg_core.Prelude.{
  ℕ, zero, suc, ◌+◌, ◌-◌, ◌*◌, ◌/◌, ◌%◌, ◌^◌, ◌≤◌, ◌<◌, ◌≡◌, List, [], ◌∷◌, ◌++◌,
}
use mathlib.Core.List.{append-nil, append_assoc}
use borg_core.Prelude.{
  refl, sym, ap, ◌∙◌, arith, ◌==◌, leb, length, length-append, All, push, ◌⊎◌, inl, inr, true,
  false,
}
use borg_core.Core.PidText.Base32.{
  digit_at, shift_in, spill, encode_from, encode_base32, decode_from, decode_base32, finish, parsed,
  hash_len, max_allocated,
}
use borg_core.Core.PidText.Base32.Digits.{digit-digit_at}

hold :
    (acc bits v : ℕ) (out text : List ℕ)
    → v < 32
    → bits < 3
    → decode_from acc bits out (digit_at v ∷ text)
      ≡ decode_from (shift_in acc 32 v) (bits + 5) out text
unfolding decode_from
hold acc bits v out text small few =
    let part : leb 8 (bits + 5) ≡ false = ground (arith, few) in
    rw (decode_from, digit-digit_at v small) (rw part (rw part refl))

emit :
    (acc bits v b : ℕ) (out text : List ℕ)
    → v < 32
    → 3 ≤ bits
    → length out < 32
    → shift_in acc 32 v / 2 ^ (bits - 3) % 256 ≡ b
    → decode_from acc bits out (digit_at v ∷ text)
      ≡ decode_from (shift_in acc 32 v) (bits - 3) (push out b) text
unfolding decode_from
emit acc bits v b out text small many room e =
    let whole : leb 8 (bits + 5) ≡ true = ground (arith, many) in
    let fits : (length out == hash_len) ≡ false = ground (arith, room) in
    rw (decode_from, digit-digit_at v small) (rw whole (rw fits (rw whole (rw e refl))))

-- The byte that the encoder has not written out, with `k` of its bits pending.
held : ℕ → ℕ → List ℕ
held zero b = []
held (suc k) b = b ∷ []

-- The encoder holds the low `k` bits of a byte `b`, the decoder the others.
Fits : ℕ → ℕ → ℕ → ℕ → Type 0
Fits k b acc acc' = (acc % 2 ^ k ≡ b % 2 ^ k) × (acc' % 2 ^ (8 - k) ≡ b / 2 ^ k) × (b < 256)

-- The decoder's bits when the encoder has `k`.
theirs : ℕ → ℕ
theirs zero = 0
theirs (suc k) = 7 - k

LastDigit : ℕ → Type 0
LastDigit k =
    (b acc acc' : ℕ) (out : List ℕ)
    → Fits k b acc acc'
    → length out < 32
    → decode_from acc' (theirs k) out (encode_from acc k []) ≡ finish 0 0 (push out b)

finish_exact :
    (acc acc' bits : ℕ) (out : List ℕ)
    → acc % 2 ^ bits ≡ acc' % 2 ^ bits
    → finish acc bits out ≡ finish acc' bits out
unfolding finish
finish_exact acc acc' bits out e = rw e refl

last_of :
    (k b acc acc' v : ℕ) (out : List ℕ)
    → v < 32
    → 0 < k
    → k < 5
    → length out < 32
    → shift_in acc' 32 v / 2 ^ (5 - k) % 256 ≡ b
    → shift_in acc' 32 v % 2 ^ (5 - k) ≡ 0
    → decode_from acc' (8 - k) out (digit_at v ∷ []) ≡ finish 0 (5 - k) (push out b)
unfolding decode_from
last_of k b acc acc' v out small p q room e z =
    let bits : 8 - k - 3 ≡ 5 - k = omega (arith, p, q) in
    emit acc' (8 - k) v b out [] small (omega (arith, q)) room (rw bits e)
    ∙ rw bits (finish_exact (shift_in acc' 32 v) 0 (5 - k) (push out b) (omega (arith, z)))

last_1 : LastDigit 1
unfolding encode_from theirs Fits LastDigit finish
last_1 b acc acc' out h room =
    last_of 1 b acc acc' (acc * 16 % 4294967296 % 32) out (omega arith) (omega arith) (omega arith)
      room (omega (arith, h.0, h.1, h.2)) (omega (arith, h.0))

last_2 : LastDigit 2
unfolding encode_from theirs Fits LastDigit finish
last_2 b acc acc' out h room =
    last_of 2 b acc acc' (acc * 8 % 4294967296 % 32) out (omega arith) (omega arith) (omega arith)
      room (omega (arith, h.0, h.1, h.2)) (omega (arith, h.0))

last_3 : LastDigit 3
unfolding encode_from theirs Fits LastDigit finish
last_3 b acc acc' out h room =
    last_of 3 b acc acc' (acc * 4 % 4294967296 % 32) out (omega arith) (omega arith) (omega arith)
      room (omega (arith, h.0, h.1, h.2)) (omega (arith, h.0))

last_4 : LastDigit 4
unfolding encode_from theirs Fits LastDigit finish
last_4 b acc acc' out h room =
    last_of 4 b acc acc' (acc * 2 % 4294967296 % 32) out (omega arith) (omega arith) (omega arith)
      room (omega (arith, h.0, h.1, h.2)) (omega (arith, h.0))

-- One more byte: the digits that the encoder writes for it bring the decoder along.
Step : ℕ → ℕ → Type 0
Step k next =
    (b acc acc' c : ℕ) (out bytes : List ℕ)
    → Fits k b acc acc'
    → c < 256
    → length (out ++ held k b) < 32
    → (acc2 : ℕ) × (out2 : List ℕ) × Fits next c (shift_in acc 256 c) acc2
      × (out2 ++ held next c ≡ push (out ++ held k b) c)
      × (decode_from acc' (theirs k) out (encode_from acc k (c ∷ bytes))
          ≡ decode_from acc2 (theirs next) out2 (encode_from (shift_in acc 256 c) next bytes))

step_0 : Step 0 3
unfolding encode_from spill theirs Fits Step held
step_0 b acc acc' c out bytes h small room =
    let d = shift_in acc 256 c / 2 ^ 3 % 32 in
    (
      shift_in acc' 32 d,
      out,
      (omega arith, omega (arith, small), small),
      ap (λ (o : List ℕ). push o c) (sym (append-nil out)),
      hold acc' 0 d out (encode_from (shift_in acc 256 c) 3 bytes) (omega arith) (omega arith),
    )

step_1 : Step 1 4
unfolding encode_from spill theirs Fits Step held
step_1 b acc acc' c out bytes h small room =
    let d = shift_in acc 256 c / 2 ^ 4 % 32 in
    (
      shift_in acc' 32 d,
      push out b,
      (omega (arith, small), omega (arith, small, h.0, h.1, h.2), small),
      refl,
      emit acc' 7 d b out (encode_from (shift_in acc 256 c) 4 bytes) (omega arith) (omega arith)
          (omega (arith, room, length-append out (b ∷ []))) (omega (arith, small, h.0, h.1, h.2)),
    )

step_3 : Step 3 1
unfolding encode_from spill theirs Fits Step held
step_3 b acc acc' c out bytes h small room =
    let d = shift_in acc 256 c / 2 ^ 6 % 32 in
    let d' = shift_in acc 256 c / 2 ^ 1 % 32 in
    let rest = encode_from (shift_in acc 256 c) 1 bytes in
    let first = shift_in acc' 32 d in
    (
      shift_in first 32 d',
      push out b,
      (omega (arith, small), omega (arith, small, h.0, h.1, h.2), small),
      refl,
      emit acc' 5 d b out (digit_at d' ∷ rest) (omega arith) (omega arith)
            (omega (arith, room, length-append out (b ∷ []))) (omega (arith, small, h.0, h.1, h.2))
          ∙ hold first 2 d' (push out b) rest (omega arith) (omega arith),
    )

step_4 : Step 4 2
unfolding encode_from spill theirs Fits Step held
step_4 b acc acc' c out bytes h small room =
    let d = shift_in acc 256 c / 2 ^ 7 % 32 in
    let d' = shift_in acc 256 c / 2 ^ 2 % 32 in
    let rest = encode_from (shift_in acc 256 c) 2 bytes in
    let first = shift_in acc' 32 d in
    (
      shift_in first 32 d',
      push out b,
      (omega (arith, small), omega (arith, small, h.0, h.1, h.2), small),
      refl,
      emit acc' 4 d b out (digit_at d' ∷ rest) (omega arith) (omega arith)
            (omega (arith, room, length-append out (b ∷ []))) (omega (arith, small, h.0, h.1, h.2))
          ∙ hold first 1 d' (push out b) rest (omega arith) (omega arith),
    )

step_2 : Step 2 0
unfolding encode_from spill theirs Fits Step held
step_2 b acc acc' c out bytes h small room =
    let d = shift_in acc 256 c / 2 ^ 5 % 32 in
    let d' = shift_in acc 256 c / 2 ^ 0 % 32 in
    let rest = encode_from (shift_in acc 256 c) 0 bytes in
    let first = shift_in acc' 32 d in
    (
      shift_in first 32 d',
      push (push out b) c,
      (omega arith, omega (arith, small), small),
      append-nil (push (push out b) c),
      emit acc' 6 d b out (digit_at d' ∷ rest) (omega arith) (omega arith)
            (omega (arith, room, length-append out (b ∷ []))) (omega (arith, small, h.0, h.1, h.2))
          ∙ emit first 3 d' c (push out b) rest (omega arith) (omega arith) room
              (omega (arith, small, h.0, h.1, h.2)),
    )

-- With `k` pending bits, what the rest of the bytes reads back as.
Reads : ℕ → List ℕ → Type 0
Reads k bytes =
    (b acc acc' : ℕ) (out : List ℕ)
    → Fits k b acc acc'
    → length (out ++ held k b) + length bytes ≤ 32
    → decode_from acc' (theirs k) out (encode_from acc k bytes)
      ≡ finish 0 0 ((out ++ held k b) ++ bytes)

step_reads :
    (k next c : ℕ) (bytes : List ℕ) → Step k next → Reads next bytes → c < 256 → Reads k (c ∷ bytes)
unfolding Step Reads
step_reads k next c bytes step rest small b acc acc' out h room =
    let (acc2, out2, fits, kept, e) = step b acc acc' c out bytes h small (omega (arith, room)) in
    let more = length-append (out ++ held k b) (c ∷ []) in
    e
    ∙ rest c (shift_in acc 256 c) acc2 out2 fits (rw kept (omega (arith, room, more)))
    ∙ rw kept (ap (finish 0 0) (append_assoc (out ++ held k b) (c ∷ []) bytes))

last_reads : (k : ℕ) → LastDigit (suc k) → Reads (suc k) []
unfolding LastDigit Reads held
last_reads k last b acc acc' out h room =
    last b acc acc' out h (omega (arith, room, length-append out (b ∷ [])))
    ∙ ap (finish 0 0) (sym (append-nil (push out b)))

nothing_left :
    (acc acc' : ℕ) (out : List ℕ)
    → decode_from acc' 0 out (encode_from acc 0 []) ≡ finish 0 0 ((out ++ []) ++ [])
unfolding decode_from encode_from
nothing_left acc acc' out =
    finish_exact acc' 0 0 out (omega arith)
    ∙ ap (finish 0 0) (sym (append-nil out) ∙ ap (λ (o : List ℕ). o ++ []) (sym (append-nil out)))

reads : (k : ℕ) (bytes : List ℕ) → k < 5 → All (λ (b : ℕ). b < 256) bytes → Reads k bytes
unfolding Reads held theirs
reads zero [] few small = λ b acc acc' out h room. nothing_left acc acc' out
reads (suc zero) [] few small = last_reads 0 last_1
reads (suc (suc zero)) [] few small = last_reads 1 last_2
reads (suc (suc (suc zero))) [] few small = last_reads 2 last_3
reads (suc (suc (suc (suc zero)))) [] few small = last_reads 3 last_4
reads zero (c ∷ bytes) few small =
    step_reads 0 3 c bytes step_0 (reads 3 bytes (omega arith) small.1) small.0
reads (suc zero) (c ∷ bytes) few small =
    step_reads 1 4 c bytes step_1 (reads 4 bytes (omega arith) small.1) small.0
reads (suc (suc zero)) (c ∷ bytes) few small =
    step_reads 2 0 c bytes step_2 (reads 0 bytes (omega arith) small.1) small.0
reads (suc (suc (suc zero))) (c ∷ bytes) few small =
    step_reads 3 1 c bytes step_3 (reads 1 bytes (omega arith) small.1) small.0
reads (suc (suc (suc (suc zero)))) (c ∷ bytes) few small =
    step_reads 4 2 c bytes step_4 (reads 2 bytes (omega arith) small.1) small.0
reads (suc (suc (suc (suc (suc k))))) bytes few small = absurd (omega (arith, few))

-- The bytes of an allocated pid or of a hash read back from their text.
pub decode_base32-encode_base32 :
    (bytes : List ℕ)
    → All (λ (b : ℕ). b < 256) bytes
    → (length bytes ≤ max_allocated) ⊎ (length bytes ≡ hash_len)
    → decode_base32 (encode_base32 bytes) ≡ parsed bytes
unfolding finish Reads Fits held theirs
decode_base32-encode_base32 bytes small len =
    reads 0 bytes (omega arith) small 0 0 0 [] (refl, refl, omega arith)
      (elim len [ inl p ↦ omega (arith, p) | inr p ↦ omega (arith, p) ])
    ∙ elim len [ inl p ↦ ground (arith, p) | inr p ↦ ground (arith, p) ]
