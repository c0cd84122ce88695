-- ===== src/Base64.antt =====
-- src/base64.cpp: the Base64 encoder and the two-pass decoder.
-- A buffer or a text is the list of its bytes; an entry -1 of the decode table is `none`.
pub mod Alphabet
pub mod Encode
pub mod Decode
pub mod RoundTrip
pub mod Sound
mod Tests
use fast_net.Prelude.{
  ℕ, ◌+◌, ◌-◌, ◌*◌, ◌/◌, ◌%◌, bit_and, bit_or, Bool, true, false, not, ◌&&◌, ◌||◌,
}
use fast_net.Prelude.{Option, none, some, List, [], ◌∷◌, ◌++◌, codes, is_empty, is_none}
use fast_net.Prelude.{ltb, leb, ◌==◌, if◌then◌else◌, length, get_or, set, replicate}
use fast_net.Prelude.Bits.{shl, shr}
use mathlib.Core.Option

-- `kBase64Alphabet`
abbrev pub alphabet : List ℕ
alphabet = codes "ABCDEFGHIJKLMNOPQRSTUVWXYZabcdefghijklmnopqrstuvwxyz0123456789+/"

abbrev pub symbol : ℕ → ℕ
symbol index = get_or alphabet index 0

-- The loop that writes `index` at the place of the character `kBase64Alphabet[index]`.
unfoldable pub fill_table : ℕ → List ℕ → List (Option ℕ) → List (Option ℕ)
fill_table index [] values = values
fill_table index (c ∷ cs) values = fill_table (index + 1) cs (set values c (some index))

unfoldable pub base64_decode_table : List (Option ℕ)
unfolding fill_table
base64_decode_table = fill_table 0 alphabet (replicate 256 none)

unfoldable pub table_at : ℕ → Option ℕ
unfolding base64_decode_table
table_at byte = get_or base64_decode_table byte none

-- `std::isspace` in the C locale.
unfoldable pub is_ignored_whitespace : ℕ → Bool
is_ignored_whitespace ch = (leb 9 ch && leb ch 13) || (ch == 32)

-- One round of the encoder's loop: the octets that are not there are 0.
unfoldable pub encode_group : (octet_a octet_b octet_c remaining : ℕ) → List ℕ
encode_group a b c remaining =
    let triple = bit_or (bit_or (shl a 16) (shl b 8)) c in
    symbol (bit_and (shr triple 18) 0x3f)
    ∷ symbol (bit_and (shr triple 12) 0x3f)
    ∷ (if ltb 1 remaining then symbol (bit_and (shr triple 6) 0x3f) else b'=')
    ∷ (if ltb 2 remaining then symbol (bit_and triple 0x3f) else b'=')
    ∷ []

unfoldable pub encode_bytes : List ℕ → List ℕ
encode_bytes [] = []
encode_bytes (a ∷ []) = encode_group a 0 0 1
encode_bytes (a ∷ b ∷ []) = encode_group a b 0 2
encode_bytes (a ∷ b ∷ c ∷ rest) = encode_group a b c (3 + length rest) ++ encode_bytes rest

unfoldable pub base64_encode : List ℕ → List ℕ
base64_encode bytes = if is_empty bytes then [] else encode_bytes bytes

-- `none` is the early `return false`.
unfoldable pub normalize_base64 : List ℕ → Option (List ℕ)
normalize_base64 [] = some []
normalize_base64 (ch ∷ rest) =
    let more = normalize_base64 rest in
    if is_ignored_whitespace ch
    then more
    else if not (ch == b'=') && is_none (table_at ch)
    then none
    else Option.map (λ l. ch ∷ l) more

-- `static_cast<uint8_t>` of the three combinations of neighbouring six-bit values.
abbrev pub first_octet : ℕ → ℕ → ℕ
first_octet v0 v1 = bit_or (shl v0 2) (shr v1 4) % 256

abbrev pub second_octet : ℕ → ℕ → ℕ
second_octet v1 v2 = bit_or (shl (bit_and v1 0x0f) 4) (shr v2 2) % 256

abbrev pub third_octet : ℕ → ℕ → ℕ
third_octet v2 v3 = bit_or (shl (bit_and v2 0x03) 6) v3 % 256

-- The loop's body in three parts, each with what it pushed: `false` is the early `return false`.
unfoldable pub decode_fourth : Bool → (v0 v1 v2 c3 : ℕ) → Bool × List ℕ
decode_fourth is_last_quartet v0 v1 v2 c3 =
    let pushed = first_octet v0 v1 ∷ second_octet v1 v2 ∷ [] in
    if c3 == b'=' then (is_last_quartet, pushed) else elim (table_at c3) [
      | none ↦ (false, pushed)
      | some v3 ↦ (true, pushed ++ (third_octet v2 v3 ∷ []))
    ]

unfoldable pub decode_third : Bool → (v0 v1 c2 c3 : ℕ) → Bool × List ℕ
unfolding decode_fourth
decode_third is_last_quartet v0 v1 c2 c3 =
    if c2 == b'='
    then if not is_last_quartet || not (c3 == b'=')
      then (false, [])
      else (true, first_octet v0 v1 ∷ [])
    else elim (table_at c2) [
      | none ↦ (false, [])
      | some v2 ↦ decode_fourth is_last_quartet v0 v1 v2 c3
    ]

unfoldable pub decode_quartet : Bool → (c0 c1 c2 c3 : ℕ) → Bool × List ℕ
unfolding decode_third
decode_quartet is_last_quartet c0 c1 c2 c3 =
    if c0 == b'=' || c1 == b'='
    then (false, [])
    else if not is_last_quartet && (c2 == b'=' || c3 == b'=')
    then (false, [])
    else elim (table_at c0) [
      | none ↦ (false, [])
      | some v0 ↦ elim (table_at c1) [
        | none ↦ (false, [])
        | some v1 ↦ decode_third is_last_quartet v0 v1 c2 c3
      ]
    ]

-- The padding characters at the end, for which `output.reserve` leaves no room.
unfoldable pub padding : List ℕ → ℕ
padding normalized =
    if get_or normalized (length normalized - 1) 0 == b'='
    then if leb 2 (length normalized) && get_or normalized (length normalized - 2) 0 == b'='
      then 2
      else 1
    else 0

unfoldable pub reserved : List ℕ → ℕ
unfolding padding
reserved normalized = length normalized / 4 * 3 - padding normalized

-- The loop over `normalized`, with what `output` holds.
unfoldable pub decode_quartets : List ℕ → List ℕ → Bool × List ℕ
decode_quartets (c0 ∷ c1 ∷ c2 ∷ c3 ∷ rest) output =
    let (good, pushed) = decode_quartet (ltb (length rest) 4) c0 c1 c2 c3 in
    let more = decode_quartets rest (output ++ pushed) in
    if good then more else (false, output ++ pushed)
decode_quartets _ output = (true, output)

unfoldable pub decode_normalized : List ℕ → Bool × List ℕ
decode_normalized normalized =
    if is_empty normalized
    then (true, [])
    else if not (length normalized % 4 == 0)
    then (false, [])
    else decode_quartets normalized []

-- The returned flag and what `output` holds then, also where the flag is `false`.
unfoldable pub try_base64_decode : List ℕ → Bool × List ℕ
unfolding normalize_base64 decode_normalized
try_base64_decode encoded = elim (normalize_base64 encoded) [
  | none ↦ (false, [])
  | some normalized ↦ decode_normalized normalized
]

unfoldable pub try_base64_decode_to_string : List ℕ → Bool × List ℕ
try_base64_decode_to_string encoded =
    let (good, buffer) = try_base64_decode encoded in if good then (true, buffer) else (false, [])

unfoldable pub base64_decode : List ℕ → List ℕ
base64_decode encoded =
    let (good, output) = try_base64_decode encoded in if good then output else []
