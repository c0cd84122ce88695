-- ===== src/HttpParser/Headers/Sent.antt =====
-- The headers of a message that src/HttpParser.cpp sends with a Content-Length of its own.
use fast_net.Prelude.{ℕ, ◌+◌, ◌^◌, ◌<◌, ◌≡◌, refl, ap, ◌∙◌, true, false, not, arith}
use fast_net.Prelude.{some, List, [], ◌∷◌, ◌++◌, codes, append_assoc}
use fast_net.Prelude.{less, less_antisym, ◌==◌, Bool-cases, inl, inr, length, All}
use fast_net.HttpParser.Text.{
  trim, case_insensitive_compare, is_digit, is_space, is_valid_header_name,
}
use fast_net.HttpParser.Text.Laws.{all_imp, trim_clean}
use fast_net.HttpParser.Numbers.{parse_unsigned_decimal, append_unsigned_decimal, digit_fuel}
use fast_net.HttpParser.Numbers.Decimal.{
  all_digits-to_chars_onto, to_chars_onto_bound, parse-append_unsigned_decimal,
}
use fast_net.HttpParser.Headers.{
  HeaderMap, HeaderState, crlf, lines, no_headers, assign_header, content_length, transfer_encoding,
  has_header, append_headers, append_header_lines, content_length_from_headers, is_chunked_encoding,
  parse_header_lines, parse_lines, saw_header, max_header_count,
}
use fast_net.HttpParser.Headers.Order.{IsSorted}
use fast_net.HttpParser.Headers.Written.{
  IsSendable, is_other, header_line, assign_all, parse_lines-written, parse_lines-taken,
  parse_header_line-written, assign_all-IsSorted,
}
use fast_net.HttpParser.Headers.Joined.{joined, lines-joined, append_header_lines-joined}

own_names :
    (case_insensitive_compare content_length content_length ≡ true)
    × (case_insensitive_compare content_length transfer_encoding ≡ false)
unfolding case_insensitive_compare
own_names = (refl, refl)

not_chunked :
    (headers : HeaderMap)
    → All (λ e. is_other e ≡ true) headers
    → is_chunked_encoding headers ≡ false
unfolding is_chunked_encoding
not_chunked [] h = refl
not_chunked (e ∷ headers) (p, h) = ground (arith, not_chunked headers h)

pub sent_length :
    (value : List ℕ) (headers : HeaderMap)
    → All (λ e. is_other e ≡ true) headers
    → (content_length_from_headers (assign_header content_length value headers)
        ≡ parse_unsigned_decimal (trim value))
      × (is_chunked_encoding (assign_header content_length value headers) ≡ false)
unfolding content_length_from_headers is_chunked_encoding assign_header
sent_length value [] h = (rw (own_names.0) refl, rw (own_names.1) refl)
sent_length value ((key, old) ∷ headers) (p, h) =
    let counted : case_insensitive_compare key content_length ≡ false = ground arith in
    let coded : case_insensitive_compare key transfer_encoding ≡ false = ground arith in
    let (size, plain) = sent_length value headers h in
    elim (Bool-cases (less key content_length)) [
      | inl e ↦ (rw (e, counted) size, rw (e, coded) plain)
      | inr e ↦ elim (Bool-cases (less content_length key)) [
        | inl f ↦
            (rw (e, f, own_names.0) refl, rw (e, f, own_names.1, coded) (not_chunked headers h))
        | inr f ↦
            let same = less_antisym content_length key f e in
            absurd (cc (counted, own_names.0, same))
      ]
    ]

pub has_header-others :
    (headers : HeaderMap)
    → All (λ e. is_other e ≡ true) headers
    → (has_header transfer_encoding headers ≡ false) × (has_header content_length headers ≡ false)
unfolding has_header
has_header-others [] h = (refl, refl)
has_header-others (e ∷ headers) (p, h) = ground (arith, has_header-others headers h)

-- The header that the writer adds.
abbrev pub length_header : List ℕ → List ℕ × List ℕ
length_header body = (content_length, append_unsigned_decimal (length body))

pub append_headers-joined :
    (headers : HeaderMap) (body rest : List ℕ)
    → All (λ e. is_other e ≡ true) headers
    → append_headers headers body ++ (crlf ++ rest)
      ≡ joined headers (length_header body) ++ (crlf ++ (crlf ++ rest))
unfolding append_headers
append_headers-joined headers body rest h =
    let (coded, counted) = has_header-others headers h in
    let digits = append_unsigned_decimal (length body) in
    rw (append_headers, coded, counted)
      (append_assoc (append_header_lines headers) (codes "Content-Length: " ++ (digits ++ crlf))
          (crlf ++ rest)
        ∙ ap (λ l. append_header_lines headers ++ (codes "Content-Length: " ++ l))
            (append_assoc digits crlf (crlf ++ rest))
        ∙ unfold header_line in
          append_header_lines-joined headers (length_header body) (crlf ++ rest))

solid_digit : (c : ℕ) → is_digit c ≡ true → not (is_space c) ≡ true
unfolding is_digit is_space
solid_digit c h = ground arith

pub length_header-IsSendable : (body : List ℕ) → IsSendable (length_header body)
unfolding append_unsigned_decimal
length_header-IsSendable body =
    let digits = all_digits-to_chars_onto digit_fuel (length body) [] refl in
    record {
      name = unfold is_valid_header_name in refl;
      one_line =
          all_imp is_digit (λ c. not (13 == c)) (append_unsigned_decimal (length body))
            (λ c k. unfold is_digit in ground arith) digits;
      trimmed = trim_clean (append_unsigned_decimal (length body)) (
          all_imp is_digit (λ c. not (is_space c)) (append_unsigned_decimal (length body))
            solid_digit digits);
      short = omega (arith, to_chars_onto_bound digit_fuel 10 (length body) []);
    }

-- What the reader makes of the written headers.
pub parse_header_lines-joined :
    (headers : HeaderMap) (body : List ℕ)
    → IsSorted headers
    → All IsSendable headers
    → All (λ e. is_other e ≡ true) headers
    → length headers < max_header_count
    → length body < 2 ^ 64
    → parse_header_lines (joined headers (length_header body))
      ≡ some (assign_header content_length (append_unsigned_decimal (length body)) headers)
unfolding parse_header_lines
parse_header_lines-joined headers body sorted sendable others few small =
    let last = length_header body in
    let digits = append_unsigned_decimal (length body) in
    let (value, _) = parse-append_unsigned_decimal (length body) small in
    let first : HeaderState = record no_headers {
      headers = assign_all headers [];
      header_count = 0 + length headers;
    } in
    let seen : HeaderState = record first { saw_content_length = true } in
    let saw : saw_header first content_length digits ≡ some seen =
      unfold saw_header in rw (own_names.0, value) refl in
    let whole : parse_lines no_headers (lines (joined headers last))
        ≡ some (record seen {
          headers = assign_header content_length digits (assign_all headers []);
          header_count = 0 + length headers + 1;
        }) =
      ap (parse_lines no_headers)
        (lines-joined headers last sendable (length_header-IsSendable body))
      ∙ parse_lines-written no_headers headers (header_line last ∷ []) sendable others refl
          (omega arith)
      ∙ parse_lines-taken first _ last [] (length_header-IsSendable body) (
          parse_header_line-written first seen last (length_header-IsSendable body) saw refl
            (omega arith)) in
    rw (parse_header_lines, whole)
      (ap (λ h. some (assign_header content_length digits h)) (assign_all-IsSorted headers sorted))
