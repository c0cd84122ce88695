-- ===== src/HttpParser/Url.antt =====
-- Query strings and percent encoding of src/HttpParser.cpp.
pub mod RoundTrip
use fast_net.Prelude.{ℕ, zero, suc, ◌+◌, Bool, true, false, not, ◌&&◌, ◌||◌, bit_and, bit_or}
use fast_net.Prelude.{Option, none, some, List, [], ◌∷◌, ◌++◌, codes, is_empty}
use fast_net.Prelude.{◌==◌, if◌then◌else◌, length, get_or, take, drop}
use fast_net.Prelude.Bits.{shl, shr}
use fast_net.HttpParser.Text.{is_alnum, find_byte, pieces}
use fast_net.HttpParser.Numbers.{hex_digit_value}
use fast_net.HttpParser.Headers.{HeaderMap, assign_header}

-- A byte that is not part of an escape.
abbrev pub plain : ℕ → ℕ
plain c = if c == b'+' then b' ' else c

unfoldable pub url_decode : List ℕ → List ℕ
unfolding hex_digit_value
url_decode [] = []
url_decode (c ∷ []) = plain c ∷ []
url_decode (c ∷ d ∷ []) = plain c ∷ plain d ∷ []
url_decode (c ∷ h ∷ l ∷ rest) =
    let escaped = url_decode rest in
    let literal = plain c ∷ url_decode (h ∷ l ∷ rest) in
    if c == b'%'
    then elim (hex_digit_value h) [
      | none ↦ literal
      | some high ↦ elim (hex_digit_value l) [
        | none ↦ literal
        | some low ↦ bit_or (shl high 4) low ∷ escaped
      ]
    ]
    else literal

abbrev pub hex_digits_upper : List ℕ
hex_digits_upper = codes "0123456789ABCDEF"

unfoldable pub is_unreserved : ℕ → Bool
unfolding is_alnum
is_unreserved ch = is_alnum ch || (ch == b'-' || (ch == b'_' || (ch == b'.' || ch == b'~')))

unfoldable pub encode_byte : ℕ → List ℕ
unfolding is_unreserved
encode_byte ch =
    if is_unreserved ch
    then ch ∷ []
    else b'%'
      ∷ get_or hex_digits_upper (bit_and (shr ch 4) 0x0F) 0
      ∷ get_or hex_digits_upper (bit_and ch 0x0F) 0
      ∷ []

unfoldable pub url_encode : List ℕ → List ℕ
unfolding encode_byte
url_encode [] = []
url_encode (ch ∷ raw) = encode_byte ch ++ url_encode raw

-- The body of the loop of `parseQueryString`.
unfoldable pub parse_pair : HeaderMap → List ℕ → HeaderMap
unfolding assign_header
parse_pair params pair = if is_empty pair then params else elim (find_byte b'=' pair) [
  | none ↦ assign_header pair [] params
  | some equals ↦ assign_header (take equals pair) (drop (equals + 1) pair) params
]

unfoldable pub parse_pairs : HeaderMap → List (List ℕ) → HeaderMap
unfolding parse_pair
parse_pairs params [] = params
parse_pairs params (pair ∷ more) = parse_pairs (parse_pair params pair) more

abbrev pub without_question_mark : List ℕ → List ℕ
without_question_mark [] = []
without_question_mark (c ∷ query) = if c == b'?' then query else c ∷ query

unfoldable pub parse_query_string : List ℕ → HeaderMap
unfolding parse_pairs pieces
parse_query_string query = parse_pairs [] (pieces b'&' (without_question_mark query))
