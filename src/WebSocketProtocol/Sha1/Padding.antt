-- ===== src/WebSocketProtocol/Sha1/Padding.antt =====
-- `sha1Digest` of src/WebSocketProtocol.cpp, compared with RFC 3174, which pads the message and
-- hashes it block by block.
use fast_net.Prelude.{
  ℕ, zero, suc, ◌+◌, ◌-◌, ◌*◌, ◌/◌, ◌%◌, ◌^◌, ◌<◌, ◌≡◌, refl, sym, ap, ◌∙◌, arith,
}
use fast_net.Prelude.{some, List, [], ◌∷◌, ◌++◌}
use fast_net.Prelude.{length, length-append, length-take, length-drop, length-replicate}
use fast_net.Prelude.{take, drop, take-append-drop}
use fast_net.Prelude.Memory.{write_all}
use fast_net.WebSocketProtocol.Sha1.{Sha1, Words, reset, flush, update, put_byte, process_block}
use fast_net.WebSocketProtocol.Sha1.{
  big_endian, finish_block, finish, digest, finalize, sha1_digest,
}
use fast_net.WebSocketProtocol.Sha1.Rfc3174.{
  hash_blocks, padded, hash_octets, sha1, initial, big_endian-octets, digest-hash_octets,
  reset-initial, process_block-hash_block,
}
use fast_net.WebSocketProtocol.Sha1.Update.{
  absorb, absorb_all, absorb_all-append, absorb_all-open, update-absorb,
}
use fast_net.WebSocketProtocol.Sha1.Update.{put_bytes-copied, with_bits, absorb_all-bits}
use fast_net.WebSocketProtocol.Sha1.Finish.{
  zeros, padding_for, length-big_endian, closing, finish_lem,
}

unfoldable filled : List ℕ → List ℕ
unfolding padding_for
filled message = message ++ padding_for (length message % 64) (length message * 8 % 2 ^ 64)

-- The hash of `n` blocks.
unfoldable process_blocks : ℕ → List ℕ → Words → Words
process_blocks zero message w = w
process_blocks (suc n) message w =
    process_blocks n (drop 64 message) (process_block (take 64 message) w)

-- Sixty-four bytes from a fresh block on are one call of `processBlock`.
absorb_block :
    (s : Sha1) (chunk : List ℕ)
    → s.block_length ≡ 0
    → length s.block ≡ 64
    → length chunk ≡ 64
    → absorb_all s chunk
      ≡ record s { state = process_block chunk s.state; block = chunk; block_length = 0 }
absorb_block s [] e hb hc = absurd (omega arith)
absorb_block s (b ∷ bs) e hb hc =
    sym (closing s b bs (omega arith))
    ∙ ap finish_block (put_bytes-copied s (b ∷ bs))
    ∙ unfold finish_block in rw (e, write_all s.block (b ∷ bs) (omega arith)) refl

absorb_blocks :
    (n : ℕ) (s : Sha1) (message : List ℕ)
    → s.block_length ≡ 0
    → length s.block ≡ 64
    → length message ≡ n * 64
    → (absorb_all s message).state ≡ process_blocks n message s.state
unfolding process_blocks
absorb_blocks zero s [] e hb hm = unfold absorb_all in refl
absorb_blocks zero s (x ∷ message) e hb hm = absurd (omega arith)
absorb_blocks (suc n) s message e hb hm =
    let front = take 64 message in
    let back = drop 64 message in
    let whole : length front ≡ 64 = omega (arith, length-take 64 message) in
    ap (λ l. (absorb_all s l).state) (sym (take-append-drop 64 message))
    ∙ ap (λ t. t.state) (absorb_all-append s front back)
    ∙ ap (λ t. (absorb_all t back).state) (absorb_block s front e hb whole)
    ∙ absorb_blocks n _ back refl whole (omega (arith, length-drop 64 message))

absorb-block_length :
    (s : Sha1) (b : ℕ) → s.block_length < 64 → (absorb s b).block_length ≡ (s.block_length + 1) % 64
unfolding absorb flush put_byte
absorb-block_length s b h = ground arith

absorb_all-block_length :
    (s : Sha1) (bs : List ℕ)
    → s.block_length < 64
    → (absorb_all s bs).block_length ≡ (s.block_length + length bs) % 64
unfolding absorb_all
absorb_all-block_length s [] h = omega arith
absorb_all-block_length s (b ∷ bs) h = omega (
  arith,
  absorb-block_length s b h,
  absorb_all-block_length (absorb s b) bs (omega (arith, absorb-block_length s b h)),
)

length-filled : (message : List ℕ) → length (filled message) % 64 ≡ 0
unfolding filled
length-filled message = omega (
  arith,
  length-append message (padding_for n bits),
  length-append (zeros ((119 - n) % 64)) (big_endian 8 bits),
  length-replicate {A = ℕ} ((119 - n) % 64) 0,
  length-big_endian 8 bits,
)
  where
    n : ℕ
    n = length message % 64

    bits : ℕ
    bits = length message * 8 % 2 ^ 64

sha1_digest-process_blocks :
    (message : List ℕ)
    → sha1_digest message
      ≡ some (digest (process_blocks (length (filled message) / 64) (filled message) reset.state))
unfolding sha1_digest filled
sha1_digest-process_blocks message = run
  where
    bits : ℕ
    bits = length message * 8 % 2 ^ 64

    started : Sha1
    started = with_bits reset bits

    u : Sha1
    u = absorb_all started message

    updated : update reset message ≡ some u
    updated =
        update-absorb reset message (unfold reset in omega arith)
        ∙ ap (λ n. some (absorb_all (with_bits reset n) message)) (unfold reset in omega arith)

    used : u.block_length ≡ length message % 64
    used =
        absorb_all-block_length started message (unfold reset in omega arith)
        ∙ unfold reset in omega arith

    counted : u.total_bits ≡ bits
    counted = ap (λ t. t.total_bits) (absorb_all-bits reset message bits)

    padding : List ℕ
    padding = padding_for (length message % 64) bits

    finished : finish u ≡ process_blocks (length (filled message) / 64) (filled message) reset.state
    finished =
        finish_lem u (absorb_all-open started message (unfold reset in omega arith))
        ∙ ap (λ k. (absorb_all u (padding_for k u.total_bits)).state) used
        ∙ ap (λ k. (absorb_all u (padding_for (length message % 64) k)).state) counted
        ∙ ap (λ t. t.state) (sym (absorb_all-append started message padding))
        ∙ absorb_blocks (length (filled message) / 64) started (filled message)
            (unfold reset in refl) (unfold reset in refl) (omega (arith, length-filled message))

    run :
        sha1_digest message
        ≡ some (digest (process_blocks (length (filled message) / 64) (filled message) reset.state))
    run = rw (updated, sha1_digest) (unfold finalize in ap (λ w. some (digest w)) finished)

filled-padded : (message : List ℕ) → filled message ≡ padded message
unfolding filled padding_for padded
filled-padded message =
    ap (λ l. message ++ (0x80 ∷ (zeros ((119 - length message % 64) % 64) ++ l)))
      (big_endian-octets 8 (length message * 8 % 2 ^ 64))

process_blocks-hash_blocks :
    (n : ℕ) (message : List ℕ) (h : Words)
    → length message ≡ n * 64
    → process_blocks n message h ≡ hash_blocks n message h
unfolding process_blocks hash_blocks
process_blocks-hash_blocks zero message h e = refl
process_blocks-hash_blocks (suc n) message h e =
    ap (process_blocks n (drop 64 message))
      (process_block-hash_block (take 64 message) h (omega (arith, length-take 64 message)))
    ∙ process_blocks-hash_blocks n (drop 64 message) _ (omega (arith, length-drop 64 message))

-- On every message `sha1Digest` succeeds, and gives the SHA-1 hash of RFC 3174, with the length
-- in bits modulo 2 ^ 64.
pub sha1_digest_lem : (message : List ℕ) → sha1_digest message ≡ some (sha1 message)
unfolding sha1
sha1_digest_lem message =
    let n = length (filled message) / 64 in
    sha1_digest-process_blocks message
    ∙ ap some (
        digest-hash_octets (process_blocks n (filled message) reset.state)
        ∙ ap (λ w. hash_octets (process_blocks n (filled message) w)) reset-initial
        ∙ ap hash_octets
            (process_blocks-hash_blocks n (filled message) _ (omega (arith, length-filled message)))
        ∙ ap (λ m. hash_octets (hash_blocks (length m / 64) m initial)) (filled-padded message))
