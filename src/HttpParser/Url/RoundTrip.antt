-- ===== src/HttpParser/Url/RoundTrip.antt =====
-- `urlEncode` and `urlDecode` of src/HttpParser.cpp.
use fast_net.Prelude.{
  ℕ, ◌≡◌, refl, ap, ◌∙◌, Bool, true, false, not, ◌&&◌, ◌||◌, arith, All, IsByte, holds_below,
  test_of_holds_below,
}
use fast_net.Prelude.{
  List, [], ◌∷◌, ◌==◌, some, none, Bool-cases, inl, inr, Option-cases, bit_or, bit_and, get_or,
  ==_iff,
}
use fast_net.Prelude.Bits.{shl, shr}
use fast_net.HttpParser.Numbers.{hex_digit_value}
use fast_net.HttpParser.Url.{
  url_decode, url_encode, encode_byte, is_unreserved, plain, hex_digits_upper,
}

plain_cons :
    (c : ℕ) (rest : List ℕ)
    → (c == b'%') ≡ false
    → url_decode (c ∷ rest) ≡ plain c ∷ url_decode rest
unfolding url_decode
plain_cons c [] h = refl
plain_cons c (d ∷ []) h = refl
plain_cons c (d ∷ e ∷ rest) h = rw h refl

escape_cons :
    (h l high low : ℕ) (rest : List ℕ)
    → hex_digit_value h ≡ some high
    → hex_digit_value l ≡ some low
    → url_decode (b'%' ∷ h ∷ l ∷ rest) ≡ bit_or (shl high 4) low ∷ url_decode rest
unfolding url_decode
escape_cons h l high low rest eh el = rw (eh, el) refl

-- Two characters that are the digits of `c`.
abbrev spells : (h l c : ℕ) → Bool
spells h l c = elim (hex_digit_value h) [
  | none ↦ false
  | some high ↦ elim (hex_digit_value l) [ none ↦ false | some low ↦ bit_or (shl high 4) low == c ]
]

decode_spelled :
    (h l c : ℕ) (rest : List ℕ)
    → spells h l c ≡ true
    → url_decode (b'%' ∷ h ∷ l ∷ rest) ≡ c ∷ url_decode rest
decode_spelled h l c rest t = elim (Option-cases (hex_digit_value h)) [
  | inl e ↦ absurd (cc (rw (spells, e) at t))
  | inr (high, e) ↦ elim (Option-cases (hex_digit_value l)) [
    | inl f ↦ absurd (cc (rw (spells, e, f) at t))
    | inr (low, f) ↦
        let same : (bit_or (shl high 4) low == c) ≡ true = rw (spells, e, f) at t in
        escape_cons h l high low rest e f ∙ ap (λ k. k ∷ url_decode rest) ((==_iff _ _).0 same)
  ]
]

abbrev high_digit : ℕ → ℕ
high_digit c = get_or hex_digits_upper (bit_and (shr c 4) 0x0F) 0

abbrev low_digit : ℕ → ℕ
low_digit c = get_or hex_digits_upper (bit_and c 0x0F) 0

-- Every byte that is escaped comes back from its two digits.
escape_table : holds_below (λ c. spells (high_digit c) (low_digit c) c) 256 ≡ true
unfolding holds_below hex_digit_value
escape_table = refl

plain_table :
    holds_below (λ c. not (is_unreserved c) || (not (c == b'%') && plain c == c)) 256 ≡ true
unfolding holds_below is_unreserved
plain_table = refl

-- Decoding the percent encoding of a sequence of bytes gives the sequence back.
pub url_decode-url_encode : (raw : List ℕ) → All IsByte raw → url_decode (url_encode raw) ≡ raw
unfolding url_encode encode_byte
url_decode-url_encode [] h = unfold url_decode in refl
url_decode-url_encode (c ∷ raw) (byte, h) =
    let t = test_of_holds_below _ c 256 byte plain_table in
    elim (Bool-cases (is_unreserved c)) [
      | inl free ↦ rw free (
          plain_cons c (url_encode raw) (ground arith)
          ∙ ap (λ k. k ∷ url_decode (url_encode raw)) (ground (arith, t))
          ∙ ap (λ l. c ∷ l) (url_decode-url_encode raw h))
      | inr bound ↦ rw bound (
          decode_spelled (high_digit c) (low_digit c) c (url_encode raw)
            (test_of_holds_below _ c 256 byte escape_table)
          ∙ ap (λ l. c ∷ l) (url_decode-url_encode raw h))
    ]
