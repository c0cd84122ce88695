-- ===== src/Base64/RoundTrip.antt =====
-- Decoding what was encoded.
use fast_net.Prelude.{ℕ, ◌+◌, ◌*◌, ◌/◌, ◌%◌, ◌<◌, ◌≡◌, refl, ◌∙◌, arith}
use fast_net.Prelude.{true, inl, inr, some, List, [], ◌∷◌, ◌++◌, append-nil, append_assoc}
use fast_net.Prelude.{IsByte, All, length, ltb}
use fast_net.Base64.{first_octet, second_octet, third_octet, encode_group, encode_bytes}
use fast_net.Base64.{
  base64_encode, is_ignored_whitespace, normalize_base64, decode_quartets, decode_normalized,
}
use fast_net.Base64.{try_base64_decode, try_base64_decode_to_string, base64_decode}
use fast_net.Base64.Alphabet.{symbol_lem}
use fast_net.Base64.Encode.{
  encode_group_lem, encode_group_whole, IsEncoded, encode_bytes-IsEncoded, base64_encode_shape,
}
use fast_net.Base64.Decode.{first_octet_lem, second_octet_lem, third_octet_lem}
use fast_net.Base64.Decode.{decode_one, decode_two, decode_three}

-- White space and unknown characters are all that normalising looks for.
normalize-encoded : (s : List ℕ) → All IsEncoded s → normalize_base64 s ≡ some s
unfolding normalize_base64 is_ignored_whitespace
normalize-encoded [] h = refl
normalize-encoded (ch ∷ rest) (inl (i, e, hi), h) =
    ground (arith, symbol_lem i hi, normalize-encoded rest h)
normalize-encoded (ch ∷ rest) (inr e, h) = ground (arith, normalize-encoded rest h)

module _ (a b c : ℕ) (ha : IsByte a) (hb : IsByte b) (hc : IsByte c) where
  first : first_octet (a / 4) (a % 4 * 16 + b / 16) ≡ a
  first = first_octet_lem _ _ (omega arith) (omega arith) ∙ omega arith

  second : second_octet (a % 4 * 16 + b / 16) (b % 16 * 4 + c / 64) ≡ b
  second = second_octet_lem _ _ (omega arith) (omega arith) ∙ omega arith

  third : third_octet (b % 16 * 4 + c / 64) (c % 64) ≡ c
  third = third_octet_lem _ _ (omega arith) (omega arith) ∙ omega arith

  -- A whole group is decoded to its octets, and the loop goes on behind it.
  decode_whole :
      (r : ℕ) (rest out : List ℕ)
      → 2 < r
      → decode_quartets (encode_group a b c r ++ rest) out
        ≡ decode_quartets rest (out ++ (a ∷ b ∷ c ∷ []))
  unfolding decode_quartets
  decode_whole r rest out hr =
      rw
        (
          encode_group_whole a b c r ha hb hc hr,
          decode_three (ltb (length rest) 4) (a / 4) (a % 4 * 16 + b / 16) (b % 16 * 4 + c / 64)
              (c % 64) (omega arith) (omega arith) (omega arith) (omega arith),
          first,
          second,
          third,
        )
        refl

decode-encode_bytes :
    (d out : List ℕ) → All IsByte d → decode_quartets (encode_bytes d) out ≡ (true, out ++ d)
unfolding encode_bytes decode_quartets
decode-encode_bytes [] out h = rw append-nil refl
decode-encode_bytes (a ∷ []) out h =
    rw
      (
        encode_group_lem a 0 0 1 h.0 (omega arith) (omega arith),
        decode_one (a / 4) (a % 4 * 16 + 0) (omega arith) (omega arith),
        first a 0 0 h.0 (omega arith) (omega arith),
      )
      refl
decode-encode_bytes (a ∷ b ∷ []) out h =
    rw
      (
        encode_group_lem a b 0 2 h.0 h.1.0 (omega arith),
        decode_two (a / 4) (a % 4 * 16 + b / 16) (b % 16 * 4 + 0) (omega arith) (omega arith)
            (omega arith),
        first a b 0 h.0 h.1.0 (omega arith),
        second a b 0 h.0 h.1.0 (omega arith),
      )
      refl
decode-encode_bytes (a ∷ b ∷ c ∷ rest) out (ha, (hb, (hc, h))) =
    rw
      (
        decode_whole a b c ha hb hc (3 + length rest) (encode_bytes rest) out (omega arith),
        decode-encode_bytes rest (out ++ (a ∷ b ∷ c ∷ [])) h,
        append_assoc,
      )
      refl

decode_normalized_whole :
    (s : List ℕ) → length s % 4 ≡ 0 → decode_normalized s ≡ decode_quartets s []
unfolding decode_normalized decode_quartets
decode_normalized_whole [] h = refl
decode_normalized_whole (ch ∷ s) h = rw h refl

decode_normalized-encode :
    (d : List ℕ) → All IsByte d → decode_normalized (base64_encode d) ≡ (true, d)
unfolding base64_encode
decode_normalized-encode [] h = decode_normalized_whole [] refl ∙ unfold decode_quartets in refl
decode_normalized-encode (a ∷ d) h =
    let (_, len) = encode_bytes-IsEncoded (a ∷ d) h in
    decode_normalized_whole (encode_bytes (a ∷ d)) (omega arith) ∙ decode-encode_bytes (a ∷ d) [] h

try_base64_decode-encode :
    (d : List ℕ) → All IsByte d → try_base64_decode (base64_encode d) ≡ (true, d)
unfolding try_base64_decode
try_base64_decode-encode d h =
    rw (normalize-encoded _ (base64_encode_shape d h).0, try_base64_decode)
      (decode_normalized-encode d h)

-- All three decoders succeed on an encoded byte sequence and give the sequence back.
pub decode-encode :
    (d : List ℕ)
    → All IsByte d
    → (try_base64_decode (base64_encode d) ≡ (true, d))
      × (try_base64_decode_to_string (base64_encode d) ≡ (true, d))
      × (base64_decode (base64_encode d) ≡ d)
unfolding try_base64_decode_to_string base64_decode
decode-encode d h = let e = try_base64_decode-encode d h in (e, rw e refl, rw e refl)
