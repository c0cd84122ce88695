-- ===== src/WebSocketProtocol/Sha1/Finish.antt =====
-- `finalize` of src/WebSocketProtocol.cpp up to the digest, beside the padding of RFC 3174.
use fast_net.Prelude.{ℕ, zero, suc, ◌+◌, ◌-◌, ◌%◌, ◌<◌, ◌≡◌, refl, sym, ap, ◌∙◌, arith}
use fast_net.Prelude.{List, ◌∷◌, ◌++◌, append_assoc, Bool-cases, inl, inr, ltb, ltb→lt, true, false}
use fast_net.Prelude.{length, length-append, length-replicate, replicate-add}
use fast_net.Prelude.{replicate}
use fast_net.WebSocketProtocol.Sha1.{Sha1, flush, put_byte, put_bytes, put_zeros}
use fast_net.WebSocketProtocol.Sha1.{big_endian, finish_block, finish_last, finish}
use fast_net.WebSocketProtocol.Sha1.Update.{absorb_all, absorb_all-append, absorb_all-flush}
use fast_net.WebSocketProtocol.Sha1.Update.{
  put_bytes-append, put_bytes-copied, put_zeros-put_bytes, length-copied,
}

abbrev pub zeros : ℕ → List ℕ
zeros n = replicate n 0

-- The bytes that end a message with `used` bytes in its last block and `bits` bits in all.
unfoldable pub padding_for : (used bits : ℕ) → List ℕ
padding_for used bits = 0x80 ∷ (zeros ((119 - used) % 64) ++ big_endian 8 bits)

pub length-big_endian : (n v : ℕ) → length (big_endian n v) ≡ n
unfolding big_endian
length-big_endian zero v = refl
length-big_endian (suc n) v = ap suc (length-big_endian n v)

-- Filling a block to its end and processing it, either way.
pub closing :
    (s : Sha1) (b : ℕ) (bs : List ℕ)
    → s.block_length + length (b ∷ bs) ≡ 64
    → finish_block (put_bytes s (b ∷ bs)) ≡ absorb_all s (b ∷ bs)
closing s b bs h =
    whole (put_bytes s (b ∷ bs)) (length-copied s (b ∷ bs) ∙ h)
    ∙ sym (absorb_all-flush s b bs (omega arith))
  where
    whole : (t : Sha1) → t.block_length ≡ 64 → finish_block t ≡ flush t
    whole t e = unfold finish_block flush in ground arith

put_zeros-bits : (n : ℕ) (s : Sha1) → (put_zeros n s).total_bits ≡ s.total_bits
unfolding put_zeros put_byte
put_zeros-bits zero s = refl
put_zeros-bits (suc n) s = put_zeros-bits n (put_byte s 0)

finish_last_lem :
    (s : Sha1)
    → finish_last s
      ≡ finish_block (put_bytes s (zeros (56 - s.block_length) ++ big_endian 8 s.total_bits))
unfolding finish_last
finish_last_lem s =
    let k = 56 - s.block_length in
    ap (λ n. finish_block (put_bytes (put_zeros k s) (big_endian 8 n))) (put_zeros-bits k s)
    ∙ ap finish_block (
        ap (λ t. put_bytes t (big_endian 8 s.total_bits)) (put_zeros-put_bytes k s)
        ∙ sym (put_bytes-append s (zeros k) (big_endian 8 s.total_bits)))

-- `finalize` from a state, cut at the one test that it makes.
finish_short :
    (s : Sha1)
    → s.block_length < 56
    → finish s ≡ (absorb_all s (padding_for s.block_length s.total_bits)).state
unfolding finish padding_for
finish_short s h = rw (test, finish) (ap (λ t. t.state) run)
  where
    test : ltb 56 (put_byte s 0x80).block_length ≡ false
    test = unfold put_byte in ground arith

    same : 56 - (s.block_length + 1) ≡ (119 - s.block_length) % 64
    same = omega arith

    rest : List ℕ
    rest = zeros ((119 - s.block_length) % 64) ++ big_endian 8 s.total_bits

    size : length rest ≡ (119 - s.block_length) % 64 + 8
    size = omega (
      arith,
      length-append (zeros ((119 - s.block_length) % 64)) (big_endian 8 s.total_bits),
      length-replicate {A = ℕ} ((119 - s.block_length) % 64) 0,
      length-big_endian 8 s.total_bits,
    )

    marked :
        finish_last (put_byte s 0x80)
        ≡ finish_block
            (put_bytes s (0x80 ∷ (zeros (56 - (s.block_length + 1)) ++ big_endian 8 s.total_bits)))
    marked = unfold put_bytes put_byte in finish_last_lem _

    run : finish_last (put_byte s 0x80) ≡ absorb_all s (padding_for s.block_length s.total_bits)
    run =
        marked
        ∙ ap (λ k. finish_block (put_bytes s (0x80 ∷ (zeros k ++ big_endian 8 s.total_bits)))) same
        ∙ closing s 0x80 rest (omega (arith, size))

finish_long :
    (s : Sha1)
    → 55 < s.block_length
    → s.block_length < 64
    → finish s ≡ (absorb_all s (padding_for s.block_length s.total_bits)).state
unfolding finish padding_for
finish_long s h h' = rw (test, finish) (ap (λ t. t.state) run)
  where
    test : ltb 56 (put_byte s 0x80).block_length ≡ true
    test = unfold put_byte in ground arith

    n : ℕ
    n = 64 - (s.block_length + 1)

    mark : List ℕ
    mark = 0x80 ∷ zeros n

    first : Sha1
    first = finish_block (put_bytes s mark)

    first_lem : first ≡ absorb_all s mark
    first_lem = closing s 0x80 (zeros n) (omega (arith, length-replicate {A = ℕ} n 0))

    begun : finish_block (put_zeros (64 - (put_byte s 0x80).block_length) (put_byte s 0x80)) ≡ first
    begun = unfold put_byte put_bytes in ap finish_block (put_zeros-put_bytes n _)

    bits : first.total_bits ≡ s.total_bits
    bits = unfold finish_block in ap (λ (t : Sha1). t.total_bits) (put_bytes-copied s mark)

    empty : first.block_length ≡ 0
    empty = unfold finish_block in refl

    last : List ℕ
    last = zeros 56 ++ big_endian 8 s.total_bits

    joined : mark ++ last ≡ padding_for s.block_length s.total_bits
    joined =
        ap (λ l. 0x80 ∷ l)
          (sym (append_assoc (zeros n) (zeros 56) (big_endian 8 s.total_bits))
            ∙ ap (λ l. l ++ big_endian 8 s.total_bits)
                (sym (replicate-add n 56 ((119 - s.block_length) % 64) 0 (omega arith))))

    closed : finish_last first ≡ absorb_all first last
    closed =
        finish_last_lem first
        ∙ ap
            (λ n.
              finish_block (put_bytes first (zeros (56 - first.block_length) ++ big_endian 8 n)))
            bits
        ∙ ap (λ k. finish_block (put_bytes first (zeros (56 - k) ++ big_endian 8 s.total_bits)))
            empty
        ∙ closing first 0 (zeros 55 ++ big_endian 8 s.total_bits)
            (omega (arith, empty, length-big_endian 8 s.total_bits))

    run :
        finish_last
          (finish_block (put_zeros (64 - (put_byte s 0x80).block_length) (put_byte s 0x80)))
        ≡ absorb_all s (padding_for s.block_length s.total_bits)
    run =
        ap finish_last begun
        ∙ closed
        ∙ ap (λ t. absorb_all t last) first_lem
        ∙ sym (absorb_all-append s mark last)
        ∙ ap (absorb_all s) joined

pub finish_lem :
    (s : Sha1)
    → s.block_length < 64
    → finish s ≡ (absorb_all s (padding_for s.block_length s.total_bits)).state
finish_lem s h = elim (Bool-cases (ltb s.block_length 56)) [
  | inl short ↦ finish_short s (ltb→lt _ _ short)
  | inr long ↦ finish_long s (ground arith) h
]
