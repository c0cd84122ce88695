-- ===== src/HttpParser/Headers.antt =====
-- The header maps of src/HttpParser.cpp: parsing their lines, looking them up, writing them.
pub mod Order
pub mod Accepted
pub mod Written
pub mod Joined
pub mod Sent
use fast_net.Prelude.{ℕ, zero, suc, ◌+◌, Bool, true, false, not, ◌&&◌, ◌||◌}
use fast_net.Prelude.{Option, none, some, List, [], ◌∷◌, ◌++◌, codes, is_empty, is_none}
use fast_net.Prelude.{less, ltb, ◌==◌, if◌then◌else◌, length, get_or, take, drop}
use fast_net.HttpParser.Text.{
  find_byte, trim, is_valid_header_name, case_insensitive_compare, contains_token, push_front,
}
use fast_net.HttpParser.Numbers.{parse_unsigned_decimal, append_unsigned_decimal}

abbrev pub crlf : List ℕ
crlf = 13 ∷ 10 ∷ []

abbrev pub max_header_line_size : ℕ
max_header_line_size = 8192

abbrev pub max_header_count : ℕ
max_header_count = 128

-- A std::map of texts, in the order of iteration.
abbrev pub HeaderMap : Type 0
HeaderMap = List (List ℕ × List ℕ)

-- `headers[name] = value`
unfoldable pub assign_header : List ℕ → List ℕ → HeaderMap → HeaderMap
unfolding less
assign_header name value [] = (name, value) ∷ []
assign_header name value ((key, old) ∷ headers) =
    let later = (key, old) ∷ assign_header name value headers in
    if less key name
    then later
    else if less name key
    then (name, value) ∷ (key, old) ∷ headers
    else (key, value) ∷ headers

abbrev pub content_length : List ℕ
content_length = codes "Content-Length"

abbrev pub transfer_encoding : List ℕ
transfer_encoding = codes "Transfer-Encoding"

-- The first entry whose name is `name` but for case.
unfoldable pub get_header : HeaderMap → List ℕ → Option (List ℕ)
get_header [] name = none
get_header ((key, value) ∷ headers) name =
    if case_insensitive_compare key name then some value else get_header headers name

unfoldable pub content_length_from_headers : HeaderMap → Option ℕ
content_length_from_headers [] = none
content_length_from_headers ((name, value) ∷ headers) =
    if case_insensitive_compare name content_length
    then parse_unsigned_decimal (trim value)
    else content_length_from_headers headers

unfoldable pub is_chunked_encoding : HeaderMap → Bool
is_chunked_encoding [] = false
is_chunked_encoding ((name, value) ∷ headers) =
    (case_insensitive_compare name transfer_encoding && contains_token value (codes "chunked"))
    || is_chunked_encoding headers

-- `none` is the early `return false`.
unfoldable pub assign_message_body : List ℕ → HeaderMap → Option (List ℕ)
unfolding is_chunked_encoding content_length_from_headers
assign_message_body remaining headers =
    if is_chunked_encoding headers
    then some remaining
    else elim (content_length_from_headers headers) [
      | none ↦ some remaining
      | some size ↦ if ltb (length remaining) size then none else some (take size remaining)
    ]

-- The parts between the line ends, which the loops over `find("\r\n", offset)` take one by one.
unfoldable pub lines : List ℕ → List (List ℕ)
lines [] = [] ∷ []
lines (c ∷ []) = (c ∷ []) ∷ []
lines (c ∷ d ∷ text) =
    let next = lines text in
    let more = lines (d ∷ text) in if c == 13 && d == 10 then [] ∷ next else push_front c more

-- The variables of the loop in `parseHeaderLines`.
pub record HeaderState : Type 0 where
  pub headers : HeaderMap
  pub header_count : ℕ
  pub saw_content_length : Bool
  pub saw_transfer_encoding : Bool

-- The flags after a header, or `none` where the header is refused.
unfoldable pub saw_header : HeaderState → (name value : List ℕ) → Option HeaderState
saw_header s name value =
    if case_insensitive_compare name content_length
    then if s.saw_content_length || is_none (parse_unsigned_decimal value)
      then none
      else some (record s { saw_content_length = true })
    else if case_insensitive_compare name transfer_encoding
    then if s.saw_transfer_encoding then none else some (record s { saw_transfer_encoding = true })
    else some s

-- The body of the loop; `none` is an early `return false`, after which the map is dropped.
unfoldable pub parse_header_line : HeaderState → List ℕ → Option HeaderState
unfolding saw_header assign_header
parse_header_line s line =
    if is_empty line
      || (ltb max_header_line_size (length line)
          || (get_or line 0 0 == b' ' || get_or line 0 0 == b'\t'))
    then none
    else elim (find_byte b':' line) [
      | none ↦ none
      | some colon ↦
          let name = trim (take colon line) in
          let value = trim (drop (colon + 1) line) in
          if colon == 0
          then none
          else if not (is_valid_header_name name)
          then none
          else elim (saw_header s name value) [
            | none ↦ none
            | some t ↦
                if t.saw_content_length && t.saw_transfer_encoding
                then none
                else if ltb max_header_count (t.header_count + 1)
                then none
                else some (record t {
                  headers = assign_header name value t.headers;
                  header_count = t.header_count + 1;
                })
          ]
    ]

-- The text ends where the last line is empty: the offset is then its size.
unfoldable pub parse_lines : HeaderState → List (List ℕ) → Option HeaderState
unfolding parse_header_line
parse_lines s [] = some s
parse_lines s ([] ∷ []) = some s
parse_lines s (line ∷ more) = elim (parse_header_line s line) [
  | none ↦ none
  | some t ↦ parse_lines t more
]

abbrev pub no_headers : HeaderState
no_headers = record {
  headers = [];
  header_count = 0;
  saw_content_length = false;
  saw_transfer_encoding = false;
}

unfoldable pub parse_header_lines : List ℕ → Option HeaderMap
unfolding parse_lines lines
parse_header_lines header_lines = elim (parse_lines no_headers (lines header_lines)) [
  | none ↦ none
  | some s ↦ some s.headers
]

unfoldable pub append_header_line : (name value : List ℕ) → List ℕ
append_header_line name value = name ++ (codes ": " ++ (value ++ crlf))

-- The loop of `appendHeaders`: what it writes.
unfoldable pub append_header_lines : HeaderMap → List ℕ
unfolding append_header_line
append_header_lines [] = []
append_header_lines ((name, value) ∷ headers) =
    append_header_line name value ++ append_header_lines headers

-- The flags of that loop.
unfoldable pub has_header : List ℕ → HeaderMap → Bool
has_header wanted [] = false
has_header wanted ((name, value) ∷ headers) =
    case_insensitive_compare name wanted || has_header wanted headers

unfoldable pub append_headers : HeaderMap → (body : List ℕ) → List ℕ
unfolding append_header_lines has_header
append_headers headers body =
    append_header_lines headers
    ++ (if not (has_header transfer_encoding headers) && not (has_header content_length headers)
        then codes "Content-Length: " ++ (append_unsigned_decimal (length body) ++ crlf)
        else [])

unfoldable pub estimate_header_bytes : HeaderMap → ℕ
estimate_header_bytes [] = 0
estimate_header_bytes ((name, value) ∷ headers) =
    length name + 2 + length value + 2 + estimate_header_bytes headers
