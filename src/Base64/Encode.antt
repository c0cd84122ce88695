-- ===== src/Base64/Encode.antt =====
-- What one round of the encoder writes, in plain arithmetic, and the shape of the whole output.
use fast_net.Prelude.{ℕ, ◌+◌, ◌*◌, ◌/◌, ◌%◌, ◌^◌, ◌<◌, ◌≡◌, refl, bit_and, bit_or, arith}
use fast_net.Prelude.{
  Bool, true, false, ◌⊎◌, inl, inr, List, [], ◌∷◌, IsByte, All, All-append, ltb, lt→ltb,
  if◌then◌else◌, length, length-append,
}
use fast_net.Prelude.Bits.{shl, shr, or_shl, and_mask}
use fast_net.Base64.{symbol, encode_group, encode_bytes, base64_encode}

-- The 24 bits of three octets.
triple :
    (a b c : ℕ)
    → IsByte b
    → IsByte c
    → bit_or (bit_or (shl a 16) (shl b 8)) c ≡ (a * 256 + b) * 256 + c
triple a b c hb hc = rw join (or_shl 8 (a * 256 + b) c (omega arith))
  where
    join : bit_or (a * 2 ^ 16) (b * 2 ^ 8) ≡ (a * 256 + b) * 2 ^ 8
    join = omega (arith, or_shl 16 a (b * 2 ^ 8) (omega arith))

pub encode_group_lem :
    (a b c r : ℕ)
    → IsByte a
    → IsByte b
    → IsByte c
    → encode_group a b c r
      ≡ symbol (a / 4)
        ∷ symbol (a % 4 * 16 + b / 16)
        ∷ (if ltb 1 r then symbol (b % 16 * 4 + c / 64) else b'=')
        ∷ (if ltb 2 r then symbol (c % 64) else b'=')
        ∷ []
unfolding encode_group
encode_group_lem a b c r ha hb hc = rw (triple a b c hb hc, e0, e1, e2, e3) refl
  where
    t : ℕ
    t = (a * 256 + b) * 256 + c

    e0 : bit_and (shr t 18) 0x3f ≡ a / 4
    e0 = omega (arith, and_mask 6 (shr t 18))

    e1 : bit_and (shr t 12) 0x3f ≡ a % 4 * 16 + b / 16
    e1 = omega (arith, and_mask 6 (shr t 12))

    e2 : bit_and (shr t 6) 0x3f ≡ b % 16 * 4 + c / 64
    e2 = omega (arith, and_mask 6 (shr t 6))

    e3 : bit_and t 0x3f ≡ c % 64
    e3 = omega (arith, and_mask 6 t)

-- A group with all of its octets has no padding.
pub encode_group_whole :
    (a b c r : ℕ)
    → IsByte a
    → IsByte b
    → IsByte c
    → 2 < r
    → encode_group a b c r
      ≡ symbol (a / 4)
        ∷ symbol (a % 4 * 16 + b / 16)
        ∷ symbol (b % 16 * 4 + c / 64)
        ∷ symbol (c % 64)
        ∷ []
encode_group_whole a b c r ha hb hc hr =
    rw (encode_group_lem a b c r ha hb hc, lt→ltb 1 r (omega arith), lt→ltb 2 r hr) refl

-- The characters of encoded text: symbols of the alphabet and padding.
abbrev pub IsEncoded : ℕ → Type 0
IsEncoded ch = ((i : ℕ) × (ch ≡ symbol i) × (i < 64)) ⊎ (ch ≡ b'=')

group-IsEncoded :
    (a b c r : ℕ)
    → IsByte a
    → IsByte b
    → IsByte c
    → All IsEncoded (encode_group a b c r) × (length (encode_group a b c r) ≡ 4)
group-IsEncoded a b c r ha hb hc = rw (encode_group_lem a b c r ha hb hc) (
  (
    inl (a / 4, refl, omega arith),
    (
      inl (a % 4 * 16 + b / 16, refl, omega arith),
      (
        pad (ltb 1 r) (b % 16 * 4 + c / 64) (omega arith),
        (pad (ltb 2 r) (c % 64) (omega arith), tt),
      ),
    ),
  ),
  refl,
)
  where
    pad : (t : Bool) (i : ℕ) → i < 64 → IsEncoded (if t then symbol i else b'=')
    pad true i h = inl (i, refl, h)
    pad false i h = inr refl

pub encode_bytes-IsEncoded :
    (d : List ℕ)
    → All IsByte d
    → All IsEncoded (encode_bytes d) × (length (encode_bytes d) ≡ (length d + 2) / 3 * 4)
unfolding encode_bytes
encode_bytes-IsEncoded [] h = (tt, refl)
encode_bytes-IsEncoded (a ∷ []) h = group-IsEncoded a 0 0 1 h.0 (omega arith) (omega arith)
encode_bytes-IsEncoded (a ∷ b ∷ []) h = group-IsEncoded a b 0 2 h.0 h.1.0 (omega arith)
encode_bytes-IsEncoded (a ∷ b ∷ c ∷ rest) (ha, (hb, (hc, h))) =
    let (good, four) = group-IsEncoded a b c (3 + length rest) ha hb hc in
    let (goods, more) = encode_bytes-IsEncoded rest h in
    let g = encode_group a b c (3 + length rest) in
    (
      All-append IsEncoded g (encode_bytes rest) good goods,
      omega (arith, length-append g (encode_bytes rest)),
    )

-- The encoder writes four characters for every three bytes begun, each of them a symbol of the
-- alphabet or padding.
pub base64_encode_shape :
    (d : List ℕ)
    → All IsByte d
    → All IsEncoded (base64_encode d) × (length (base64_encode d) ≡ (length d + 2) / 3 * 4)
unfolding base64_encode
base64_encode_shape [] h = (tt, refl)
base64_encode_shape (a ∷ d) h = encode_bytes-IsEncoded (a ∷ d) h
