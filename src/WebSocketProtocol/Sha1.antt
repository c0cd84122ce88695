-- ===== src/WebSocketProtocol/Sha1.antt =====
-- The class `Sha1` of src/WebSocketProtocol.cpp. A `uint32_t` is a number below 2 ^ 32.
pub mod Update
pub mod Rfc3174
pub mod Finish
pub mod Padding
mod Tests
use fast_net.Prelude.{ℕ, zero, suc, ◌+◌, ◌-◌, ◌*◌, ◌%◌, ◌^◌, bit_and, bit_or, bit_xor, min}
use fast_net.Prelude.{Option, none, some, List, [], ◌∷◌, ◌++◌}
use fast_net.Prelude.{ltb, leb, ◌==◌, if◌then◌else◌, length, get_or, set, take, drop, replicate}
use fast_net.Prelude.Bits.{shl, shr}
use fast_net.Prelude.Memory.{write_bytes}

-- `state_[0]` to `state_[4]`, and the working variables a to e.
pub record Words : Type 0 where
  pub a : ℕ
  pub b : ℕ
  pub c : ℕ
  pub d : ℕ
  pub e : ℕ

pub record Sha1 : Type 0 where
  pub state : Words
  pub block : List ℕ
  pub block_length : ℕ
  pub total_bits : ℕ

abbrev pub wrap32 : ℕ → ℕ
wrap32 x = x % 2 ^ 32

unfoldable pub reset : Sha1
reset = record {
  state = record { a = 0x67452301; b = 0xEFCDAB89; c = 0x98BADCFE; d = 0x10325476; e = 0xC3D2E1F0 };
  block = replicate 64 0;
  block_length = 0;
  total_bits = 0;
}

unfoldable pub left_rotate : ℕ → ℕ → ℕ
left_rotate value bits = bit_or (wrap32 (shl value bits)) (shr value (32 - bits))

-- `schedule[i]` for the first 16 words, big endian.
unfoldable pub block_words : ℕ → List ℕ → List ℕ
block_words (suc n) (b0 ∷ b1 ∷ b2 ∷ b3 ∷ block) =
    bit_or (bit_or (bit_or (shl b0 24) (shl b1 16)) (shl b2 8)) b3 ∷ block_words n block
block_words _ _ = []

-- The words from `i` on, `n` of them.
unfoldable pub extend_schedule : (n i : ℕ) → List ℕ → List ℕ
unfolding left_rotate
extend_schedule zero i schedule = schedule
extend_schedule (suc n) i schedule =
    let word = λ (k : ℕ). get_or schedule (i - k) 0 in
    extend_schedule n (i + 1) (
      schedule
      ++ (left_rotate (bit_xor (bit_xor (bit_xor (word 3) (word 8)) (word 14)) (word 16)) 1 ∷ []))

-- `f` and `k` of round `i`; `~b` is the exclusive or with ones.
unfoldable pub round_function : ℕ → Words → ℕ × ℕ
round_function i w =
    if ltb i 20
    then (bit_or (bit_and w.b w.c) (bit_and (bit_xor w.b 0xFFFFFFFF) w.d), 0x5A827999)
    else if ltb i 40
    then (bit_xor (bit_xor w.b w.c) w.d, 0x6ED9EBA1)
    else if ltb i 60
    then (bit_or (bit_or (bit_and w.b w.c) (bit_and w.b w.d)) (bit_and w.c w.d), 0x8F1BBCDC)
    else (bit_xor (bit_xor w.b w.c) w.d, 0xCA62C1D6)

-- The rounds from `i` on, one for each word of the schedule.
unfoldable pub rounds : ℕ → List ℕ → Words → Words
unfolding left_rotate round_function
rounds i [] w = w
rounds i (word ∷ schedule) w =
    let (f, k) = round_function i w in
    let temp = wrap32 (left_rotate w.a 5 + f + w.e + k + word) in
    rounds (i + 1) schedule (record { a = temp; b = w.a; c = left_rotate w.b 30; d = w.c; e = w.d })

unfoldable pub process_block : List ℕ → Words → Words
unfolding block_words extend_schedule rounds
process_block block s =
    let w = rounds 0 (extend_schedule 64 16 (block_words 16 block)) s in
    record {
      a = wrap32 (s.a + w.a);
      b = wrap32 (s.b + w.b);
      c = wrap32 (s.c + w.c);
      d = wrap32 (s.d + w.d);
      e = wrap32 (s.e + w.e);
    }

-- `if (blockLength_ == block_.size()) { processBlock(…); blockLength_ = 0; }`
unfoldable pub flush : Sha1 → Sha1
flush s =
    if s.block_length == 64
    then record s { state = process_block s.block s.state; block_length = 0 }
    else s

-- The loop of `update` on fuel; `none` means that it ran out.
unfoldable pub update_loop : ℕ → Sha1 → List ℕ → Option Sha1
update_loop fuel s [] = some s
update_loop zero s (x ∷ input) = none
update_loop (suc fuel) s (x ∷ input) =
    let copy_length = min (length (x ∷ input)) (64 - s.block_length) in
    let copied = record s {
      block = write_bytes s.block s.block_length (take copy_length (x ∷ input));
      block_length = s.block_length + copy_length;
    } in
    update_loop fuel (flush copied) (drop copy_length (x ∷ input))

-- Each round takes a byte at least, so `length input` rounds are enough.
unfoldable pub update : Sha1 → List ℕ → Option Sha1
update s input =
    update_loop (length input)
      (record s { total_bits = (s.total_bits + length input * 8 % 2 ^ 64) % 2 ^ 64 }) input

-- `block_[blockLength_++] = byte`
unfoldable pub put_byte : Sha1 → ℕ → Sha1
put_byte s byte = record s {
  block = set s.block s.block_length byte;
  block_length = s.block_length + 1;
}

-- `n` rounds of `block_[blockLength_++] = 0`.
unfoldable pub put_zeros : ℕ → Sha1 → Sha1
put_zeros zero s = s
put_zeros (suc n) s = put_zeros n (put_byte s 0)

-- `n` rounds of `(value >> (i * 8)) & 0xFF` for i from n - 1 down to 0.
unfoldable pub big_endian : ℕ → ℕ → List ℕ
big_endian zero value = []
big_endian (suc i) value = bit_and (shr value (i * 8)) 0xFF ∷ big_endian i value

unfoldable pub put_bytes : Sha1 → List ℕ → Sha1
put_bytes s [] = s
put_bytes s (b ∷ bs) = put_bytes (put_byte s b) bs

-- `processBlock(block_.data()); blockLength_ = 0;`
unfoldable pub finish_block : Sha1 → Sha1
finish_block s = record s { state = process_block s.block s.state; block_length = 0 }

-- The second half of `finalize`: zeros up to the length field, and the field.
unfoldable pub finish_last : Sha1 → Sha1
finish_last s =
    let filled = put_zeros (56 - s.block_length) s in
    finish_block (put_bytes filled (big_endian 8 filled.total_bits))

-- `finalize` up to its digest; each padding loop runs for as long as the block is too short.
unfoldable pub finish : Sha1 → Words
finish s =
    let marked = put_byte s 0x80 in
    (if ltb 56 marked.block_length
      then finish_last (finish_block (put_zeros (64 - marked.block_length) marked))
      else finish_last marked).state

unfoldable pub digest : Words → List ℕ
unfolding big_endian
digest w =
    big_endian 4 w.a
    ++ (big_endian 4 w.b ++ (big_endian 4 w.c ++ (big_endian 4 w.d ++ big_endian 4 w.e)))

unfoldable pub finalize : Sha1 → List ℕ
finalize s = digest (finish s)

unfoldable pub sha1_digest : List ℕ → Option (List ℕ)
sha1_digest input = elim (update reset input) [ none ↦ none | some s ↦ some (finalize s) ]
