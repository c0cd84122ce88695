-- ===== src/WebSocketProtocol/Sha1/Rfc3174.antt =====
-- SHA-1 as RFC 3174 describes it, with the constants and functions of that text, and that the class
-- of src/WebSocketProtocol.cpp computes the same on a block.
use fast_net.Prelude.{
  ℕ, zero, suc, ◌+◌, ◌-◌, ◌*◌, ◌/◌, ◌%◌, ◌^◌, bit_and, bit_or, bit_xor, ◌≡◌, refl, sym, ap, ◌∙◌,
}
use fast_net.Prelude.{List, [], ◌∷◌, ◌++◌, length, length-append, get_or, take, drop, replicate}
use fast_net.Prelude.{leb, if◌then◌else◌, arith}
use fast_net.Prelude.Bits.{and_mask}
use fast_net.WebSocketProtocol.Sha1.{
  Words, left_rotate, block_words, extend_schedule, round_function, rounds, process_block, reset,
  big_endian, digest,
}

-- `S^n(X)`
unfoldable rotate : ℕ → ℕ → ℕ
rotate n x = bit_or (x * 2 ^ n % 2 ^ 32) (x / 2 ^ (32 - n))

-- `f(t;B,C,D)` and `K(t)`; NOT is the exclusive or with ones.
unfoldable logical : ℕ → ℕ → ℕ → ℕ → ℕ
logical t b c d =
    if leb t 19
    then bit_or (bit_and b c) (bit_and (bit_xor b (2 ^ 32 - 1)) d)
    else if leb t 39
    then bit_xor (bit_xor b c) d
    else if leb t 59
    then bit_or (bit_or (bit_and b c) (bit_and b d)) (bit_and c d)
    else bit_xor (bit_xor b c) d

unfoldable constant : ℕ → ℕ
constant t =
    if leb t 19
    then 0x5A827999
    else if leb t 39
    then 0x6ED9EBA1
    else if leb t 59
    then 0x8F1BBCDC
    else 0xCA62C1D6

-- The words of a block, the leftmost byte first.
unfoldable words_of : List ℕ → List ℕ
words_of (b0 ∷ b1 ∷ b2 ∷ b3 ∷ block) =
    bit_or (bit_or (bit_or (b0 * 2 ^ 24) (b1 * 2 ^ 16)) (b2 * 2 ^ 8)) b3 ∷ words_of block
words_of _ = []

-- `n` more words `W(t)`, each from those before it.
unfoldable more_words : ℕ → List ℕ → List ℕ
more_words zero w = w
more_words (suc n) w =
    let before = λ (k : ℕ). get_or w (length w - k) 0 in
    let mixed = bit_xor (bit_xor (bit_xor (before 3) (before 8)) (before 14)) (before 16) in
    more_words n (w ++ rotate 1 mixed ∷ [])

-- Step (d) from `t` on, for the words that are left.
unfoldable steps : ℕ → List ℕ → Words → Words
steps t [] h = h
steps t (w ∷ ws) h = steps (t + 1) ws (record {
  a = (rotate 5 h.a + logical t h.b h.c h.d + h.e + w + constant t) % 2 ^ 32;
  b = h.a;
  c = rotate 30 h.b;
  d = h.c;
  e = h.d;
})

-- Steps (a) to (e) for a block.
pub hash_block : List ℕ → Words → Words
hash_block block h =
    let r = steps 0 (more_words 64 (words_of block)) h in
    record {
      a = (h.a + r.a) % 2 ^ 32;
      b = (h.b + r.b) % 2 ^ 32;
      c = (h.c + r.c) % 2 ^ 32;
      d = (h.d + r.d) % 2 ^ 32;
      e = (h.e + r.e) % 2 ^ 32;
    }

unfoldable pub hash_blocks : ℕ → List ℕ → Words → Words
hash_blocks zero message h = h
hash_blocks (suc n) message h = hash_blocks n (drop 64 message) (hash_block (take 64 message) h)

abbrev pub initial : Words
initial = record { a = 0x67452301; b = 0xEFCDAB89; c = 0x98BADCFE; d = 0x10325476; e = 0xC3D2E1F0 }

-- A number in `n` bytes, the leftmost first.
unfoldable pub octets : ℕ → ℕ → List ℕ
octets zero value = []
octets (suc n) value = value / 2 ^ (n * 8) % 256 ∷ octets n value

-- The padding: a bit, zeros up to the length, and the length in bits.
unfoldable pub padded : List ℕ → List ℕ
unfolding octets
padded message =
    message
    ++ (0x80
        ∷ (replicate ((119 - length message % 64) % 64) 0
            ++ octets 8 (length message * 8 % 2 ^ 64)))

unfoldable pub hash_octets : Words → List ℕ
unfolding octets
hash_octets h = octets 4 h.a ++ (octets 4 h.b ++ (octets 4 h.c ++ (octets 4 h.d ++ octets 4 h.e)))

unfoldable pub sha1 : List ℕ → List ℕ
unfolding hash_blocks padded hash_octets
sha1 message = hash_octets (hash_blocks (length (padded message) / 64) (padded message) initial)

pub big_endian-octets : (n value : ℕ) → big_endian n value ≡ octets n value
unfolding big_endian octets
big_endian-octets zero value = refl
big_endian-octets (suc n) value =
    let rest = big_endian-octets n value in
    let first = and_mask 8 (value / 2 ^ (n * 8)) in cc (first, rest)

low_byte : (x : ℕ) → bit_and x 255 ≡ x % 256
low_byte x = and_mask 8 x

pub digest-hash_octets : (h : Words) → digest h ≡ hash_octets h
unfolding digest hash_octets big_endian octets
digest-hash_octets h = simp (low_byte)

pub reset-initial : reset.state ≡ initial
unfolding reset
reset-initial = refl

block_words-words_of :
    (n : ℕ) (block : List ℕ) → length block ≡ n * 4 → block_words n block ≡ words_of block
unfolding block_words words_of
block_words-words_of zero [] h = refl
block_words-words_of zero (b ∷ block) h = absurd (omega arith)
block_words-words_of (suc n) [] h = absurd (omega arith)
block_words-words_of (suc n) (b0 ∷ []) h = absurd (omega arith)
block_words-words_of (suc n) (b0 ∷ b1 ∷ []) h = absurd (omega arith)
block_words-words_of (suc n) (b0 ∷ b1 ∷ b2 ∷ []) h = absurd (omega arith)
block_words-words_of (suc n) (b0 ∷ b1 ∷ b2 ∷ b3 ∷ block) h =
    ap (λ l. bit_or (bit_or (bit_or (b0 * 2 ^ 24) (b1 * 2 ^ 16)) (b2 * 2 ^ 8)) b3 ∷ l)
      (block_words-words_of n block (omega arith))

extend_schedule-more_words :
    (n i : ℕ) (w : List ℕ) → length w ≡ i → extend_schedule n i w ≡ more_words n w
unfolding extend_schedule more_words left_rotate rotate
extend_schedule-more_words zero i w e = refl
extend_schedule-more_words (suc n) i w e =
    rw (sym e)
      (extend_schedule-more_words n (length w + 1) (w ++ _ ∷ []) (length-append w (_ ∷ [])))

round_function-logical :
    (t : ℕ) (h : Words)
    → ((round_function t h).0 ≡ logical t h.b h.c h.d) × ((round_function t h).1 ≡ constant t)
unfolding round_function logical constant
round_function-logical t h = ground arith

rounds-steps : (t : ℕ) (ws : List ℕ) (h : Words) → rounds t ws h ≡ steps t ws h
unfolding rounds steps left_rotate rotate
rounds-steps t [] h = refl
rounds-steps t (w ∷ ws) h =
    let (f, k) = round_function-logical t h in
    let same : (rotate 5 h.a + (round_function t h).0 + h.e + (round_function t h).1 + w) % 2 ^ 32
        ≡ (rotate 5 h.a + logical t h.b h.c h.d + h.e + w + constant t) % 2 ^ 32 =
      omega (arith, f, k) in
    ap (λ x. rounds (t + 1) ws (record { a = x; b = h.a; c = rotate 30 h.b; d = h.c; e = h.d }))
      same
    ∙ rounds-steps (t + 1) ws _

length-words_of : (n : ℕ) (block : List ℕ) → length block ≡ n * 4 → length (words_of block) ≡ n
unfolding words_of
length-words_of zero [] h = refl
length-words_of zero (b ∷ block) h = absurd (omega arith)
length-words_of (suc n) [] h = absurd (omega arith)
length-words_of (suc n) (b0 ∷ []) h = absurd (omega arith)
length-words_of (suc n) (b0 ∷ b1 ∷ []) h = absurd (omega arith)
length-words_of (suc n) (b0 ∷ b1 ∷ b2 ∷ []) h = absurd (omega arith)
length-words_of (suc n) (b0 ∷ b1 ∷ b2 ∷ b3 ∷ block) h =
    ap suc (length-words_of n block (omega arith))

pub process_block-hash_block :
    (block : List ℕ) (h : Words) → length block ≡ 64 → process_block block h ≡ hash_block block h
unfolding process_block hash_block
process_block-hash_block block h e =
    let words : extend_schedule 64 16 (block_words 16 block) ≡ more_words 64 (words_of block) =
      ap (extend_schedule 64 16) (block_words-words_of 16 block e)
      ∙ extend_schedule-more_words 64 16 (words_of block) (length-words_of 16 block e) in
    let same = ap (λ l. rounds 0 l h) words ∙ rounds-steps 0 _ h in ap added same
  where
    added : Words → Words
    added w = record {
      a = (h.a + w.a) % 2 ^ 32;
      b = (h.b + w.b) % 2 ^ 32;
      c = (h.c + w.c) % 2 ^ 32;
      d = (h.d + w.d) % 2 ^ 32;
      e = (h.e + w.e) % 2 ^ 32;
    }
