-- ===== src/Base64/Tests.antt =====
-- Runs of the Base64 functions, and the theorems at concrete inputs.
use fast_net.Prelude.{ℕ, ◌%◌, ◌≡◌, refl, true, false, List, [], ◌∷◌, ◌++◌, arith}
use fast_net.Prelude.{codes, IsByte, All, length}
use fast_net.Base64.{
  base64_encode, reserved, is_ignored_whitespace, encode_bytes, encode_group, table_at,
  decode_quartets, decode_quartet,
}
use fast_net.Base64.{try_base64_decode, try_base64_decode_to_string, base64_decode}
use fast_net.Base64.RoundTrip.{decode-encode}
use fast_net.Base64.Sound.{is_base64_character, without_blanks, try_base64_decode_sound}

abbrev plain : List ℕ
plain = codes "hello fastnet"

abbrev wrapped : List ℕ
wrapped = codes "aGVsbG8g" ++ (13 ∷ 10 ∷ codes "ZmFzdG5ldA==")

encode_plain : base64_encode plain ≡ codes "aGVsbG8gZmFzdG5ldA=="
unfolding base64_encode encode_bytes encode_group
encode_plain = refl

decode_wrapped : try_base64_decode wrapped ≡ (true, plain)
unfolding try_base64_decode is_ignored_whitespace table_at decode_quartets decode_quartet
decode_wrapped = refl

decode_unknown : try_base64_decode_to_string (codes "not base64!") ≡ (false, [])
unfolding try_base64_decode_to_string try_base64_decode is_ignored_whitespace table_at
    decode_quartets decode_quartet
decode_unknown = refl

-- Padding inside the text is refused with the octets before it left in the output.
decode_inner_padding : try_base64_decode (codes "aGVsbA==bA==") ≡ (false, codes "hel")
unfolding try_base64_decode is_ignored_whitespace table_at decode_quartets decode_quartet
decode_inner_padding = refl

decode-encode_example :
    (try_base64_decode (base64_encode plain) ≡ (true, plain))
    × (try_base64_decode_to_string (base64_encode plain) ≡ (true, plain))
    × (base64_decode (base64_encode plain) ≡ plain)
decode-encode_example = decode-encode plain (omega arith)

try_base64_decode_sound_example :
    All (λ c. is_base64_character c ≡ true) (without_blanks wrapped)
    × All IsByte plain
    × (length (without_blanks wrapped) % 4 ≡ 0)
    × (length plain ≡ reserved (without_blanks wrapped))
try_base64_decode_sound_example = try_base64_decode_sound wrapped plain decode_wrapped
