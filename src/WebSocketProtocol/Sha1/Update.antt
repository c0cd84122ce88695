-- ===== src/WebSocketProtocol/Sha1/Update.antt =====
-- `update` copies up to a block at a time; here it is compared with taking the bytes one by one.
use fast_net.Prelude.{
  ℕ, zero, suc, ◌+◌, ◌-◌, ◌*◌, ◌%◌, ◌^◌, ◌≤◌, ◌<◌, ◌≡◌, min, refl, sym, ap, ◌∙◌, arith,
}
use fast_net.Prelude.{some, List, [], ◌∷◌, ◌++◌, replicate}
use fast_net.Prelude.{length, length-append, length-take, length-drop, take, drop, take-append-drop}
use fast_net.Prelude.Memory.{write_bytes}
use fast_net.WebSocketProtocol.Sha1.{
  Sha1, flush, update_loop, update, put_byte, put_bytes, put_zeros,
}

-- The reference: one byte at a time.
unfoldable pub absorb : Sha1 → ℕ → Sha1
absorb s b = flush (put_byte s b)

unfoldable pub absorb_all : Sha1 → List ℕ → Sha1
absorb_all s [] = s
absorb_all s (b ∷ bs) = absorb_all (absorb s b) bs

pub absorb_all-append :
    (s : Sha1) (xs ys : List ℕ) → absorb_all s (xs ++ ys) ≡ absorb_all (absorb_all s xs) ys
unfolding absorb_all
absorb_all-append s [] ys = refl
absorb_all-append s (x ∷ xs) ys = absorb_all-append (absorb s x) xs ys

pub put_bytes-append :
    (s : Sha1) (xs ys : List ℕ) → put_bytes s (xs ++ ys) ≡ put_bytes (put_bytes s xs) ys
unfolding put_bytes
put_bytes-append s [] ys = refl
put_bytes-append s (x ∷ xs) ys = put_bytes-append (put_byte s x) xs ys

pub put_zeros-put_bytes : (n : ℕ) (s : Sha1) → put_zeros n s ≡ put_bytes s (replicate n 0)
unfolding put_zeros put_bytes
put_zeros-put_bytes zero s = refl
put_zeros-put_bytes (suc n) s = put_zeros-put_bytes n (put_byte s 0)

abbrev pub copied : Sha1 → List ℕ → Sha1
copied s bs = record s {
  block = write_bytes s.block s.block_length bs;
  block_length = s.block_length + length bs;
}

pub put_bytes-copied : (s : Sha1) (bs : List ℕ) → put_bytes s bs ≡ copied s bs
unfolding put_bytes put_byte write_bytes
put_bytes-copied s [] = λ i. record s {
  block = s.block;
  block_length = (let e : s.block_length ≡ s.block_length + 0 = omega arith in e i);
}
put_bytes-copied s (b ∷ bs) = put_bytes-copied (put_byte s b) bs ∙ (λ i. record s {
  block = write_bytes s.block s.block_length (b ∷ bs);
  block_length =
      (let e : s.block_length + 1 + length bs ≡ s.block_length + length (b ∷ bs) = omega arith in
        e i);
})

flush_open : (s : Sha1) → s.block_length < 64 → flush s ≡ s
unfolding flush
flush_open s h = ground arith

-- Up to the end of the block the bytes are only stored.
pub absorb_all-flush :
    (s : Sha1) (b : ℕ) (bs : List ℕ)
    → s.block_length + length (b ∷ bs) ≤ 64
    → absorb_all s (b ∷ bs) ≡ flush (put_bytes s (b ∷ bs))
unfolding absorb_all absorb put_bytes
absorb_all-flush s b [] h = refl
absorb_all-flush s b (c ∷ bs) h =
    rw (flush_open (put_byte s b) (unfold put_byte in omega arith))
      (absorb_all-flush (put_byte s b) c bs (unfold put_byte in omega arith))

flush-open : (s : Sha1) → s.block_length ≤ 64 → (flush s).block_length < 64
unfolding flush
flush-open s h = ground arith

pub length-copied :
    (s : Sha1) (bs : List ℕ) → (put_bytes s bs).block_length ≡ s.block_length + length bs
length-copied s bs = ap (λ (t : Sha1). t.block_length) (put_bytes-copied s bs)

pub absorb_all-open :
    (s : Sha1) (bs : List ℕ) → s.block_length < 64 → (absorb_all s bs).block_length < 64
unfolding absorb_all absorb
absorb_all-open s [] h = h
absorb_all-open s (b ∷ bs) h =
    absorb_all-open (absorb s b) bs (flush-open (put_byte s b) (unfold put_byte in omega arith))

-- One round of the loop is the bytes that it copies, one by one.
copy_round :
    (s : Sha1) (x : ℕ) (input : List ℕ) (n : ℕ)
    → s.block_length < 64
    → n ≡ min (length (x ∷ input)) (64 - s.block_length)
    → flush (record s {
      block = write_bytes s.block s.block_length (take n (x ∷ input));
      block_length = s.block_length + n;
    })
      ≡ absorb_all s (take n (x ∷ input))
copy_round s x input zero h e = absurd (omega arith)
copy_round s x input (suc m) h e =
    ap
      (λ k. flush (record s {
        block = write_bytes s.block s.block_length (x ∷ take m input);
        block_length = s.block_length + k;
      }))
      (sym size)
    ∙ ap flush (sym (put_bytes-copied s (x ∷ take m input)))
    ∙ sym (absorb_all-flush s x (take m input) (omega (arith, size)))
  where
    size : length (x ∷ take m input) ≡ suc m
    size = omega (arith, length-take m input)

update_loop-absorb :
    (fuel : ℕ) (s : Sha1) (input : List ℕ)
    → s.block_length < 64
    → length input ≤ fuel
    → update_loop fuel s input ≡ some (absorb_all s input)
unfolding update_loop
update_loop-absorb zero s [] h hf = unfold absorb_all in refl
update_loop-absorb (suc fuel) s [] h hf = unfold absorb_all in refl
update_loop-absorb zero s (x ∷ input) h hf = absurd (omega arith)
update_loop-absorb (suc fuel) s (x ∷ input) h hf =
    let n = min (length (x ∷ input)) (64 - s.block_length) in
    let front = take n (x ∷ input) in
    let back = drop n (x ∷ input) in
    ap (λ t. update_loop fuel t back) (copy_round s x input n h refl)
    ∙ (update_loop-absorb fuel (absorb_all s front) back (absorb_all-open s front h)
          (omega (arith, length-drop n (x ∷ input)))
        ∙ ap some (
            sym (absorb_all-append s front back)
            ∙ ap (absorb_all s) (take-append-drop n (x ∷ input))))

-- On an unfinished block, `update` never runs out of fuel, counts the bits modulo 2 ^ 64, and
-- leaves the state that taking the bytes one by one leaves.
pub update-absorb :
    (s : Sha1) (input : List ℕ)
    → s.block_length < 64
    → update s input
      ≡ some (
          absorb_all
            (record s { total_bits = (s.total_bits + length input * 8 % 2 ^ 64) % 2 ^ 64 })
            input)
unfolding update
update-absorb s input h = update_loop-absorb (length input) _ input h (omega arith)

abbrev pub with_bits : Sha1 → ℕ → Sha1
with_bits s n = record s { total_bits = n }

absorb-bits : (s : Sha1) (b n : ℕ) → absorb (with_bits s n) b ≡ with_bits (absorb s b) n
unfolding absorb flush put_byte
absorb-bits s b n = ground arith

pub absorb_all-bits :
    (s : Sha1) (bs : List ℕ) (n : ℕ) → absorb_all (with_bits s n) bs ≡ with_bits (absorb_all s bs) n
unfolding absorb_all
absorb_all-bits s [] n = refl
absorb_all-bits s (b ∷ bs) n = rw (absorb-bits s b n) (absorb_all-bits (absorb s b) bs n)

-- Feeding a text in two pieces is feeding it whole.
pub update-append :
    (s t : Sha1) (xs ys : List ℕ)
    → s.block_length < 64
    → update s xs ≡ some t
    → update t ys ≡ update s (xs ++ ys)
update-append s t xs ys h e =
    rw (← found) (update-absorb u ys u_open ∙ ap some same) ∙ sym (update-absorb s (xs ++ ys) h)
  where
    bits : ℕ → ℕ → ℕ
    bits n l = (n + l * 8 % 2 ^ 64) % 2 ^ 64

    u : Sha1
    u = absorb_all (with_bits s (bits s.total_bits (length xs))) xs

    found : u ≡ t
    found = cc (update-absorb s xs h)

    u_open : u.block_length < 64
    u_open = absorb_all-open _ xs h

    sums : bits (bits s.total_bits (length xs)) (length ys) ≡ bits s.total_bits (length (xs ++ ys))
    sums = omega (arith, length-append xs ys)

    same :
        absorb_all (with_bits u (bits u.total_bits (length ys))) ys
        ≡ absorb_all (with_bits s (bits s.total_bits (length (xs ++ ys)))) (xs ++ ys)
    same = rw (absorb_all-bits s xs (bits s.total_bits (length xs))) (
        ap (λ n. absorb_all (with_bits (absorb_all s xs) n) ys) sums
        ∙ rw (← absorb_all-bits s xs (bits s.total_bits (length (xs ++ ys))))
            (sym (absorb_all-append _ xs ys)))
