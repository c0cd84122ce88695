-- ===== src/HttpParser/Headers/Accepted.antt =====
-- What `parseHeaderLines` of src/HttpParser.cpp lets through.
use fast_net.Prelude.{ℕ, ◌+◌, ◌≤◌, ◌≡◌, refl, Bool, true, false, not, ◌&&◌, ◌||◌, arith, subst}
use fast_net.Prelude.{some, List, [], ◌∷◌, length, take, drop, get_or, All, is_empty, is_none}
use fast_net.Prelude.{ltb, ◌==◌, if◌then◌else◌, Option-cases, guard_passed, inl, inr}
use fast_net.HttpParser.Text.{trim, is_valid_header_name, case_insensitive_compare, find_byte}
use fast_net.HttpParser.Numbers.{parse_unsigned_decimal}
use fast_net.HttpParser.Headers.{
  HeaderMap, HeaderState, assign_header, content_length, transfer_encoding, saw_header,
  parse_header_line, parse_lines, lines, no_headers, parse_header_lines, max_header_line_size,
  max_header_count,
}
use fast_net.HttpParser.Headers.Order.{IsSorted, assign_header-IsSorted, All-assign_header}

-- How often a name stands in a map, in whatever case.
unfoldable pub occurrences : List ℕ → HeaderMap → ℕ
occurrences name [] = 0
occurrences name ((key, value) ∷ headers) =
    (if case_insensitive_compare key name then 1 else 0) + occurrences name headers

-- A content length that is a number.
unfoldable pub is_measured : List ℕ × List ℕ → Bool
is_measured (key, value) =
    not (case_insensitive_compare key content_length)
    || not (is_none (parse_unsigned_decimal value))

-- A map that no reader of the message can take for two different lengths of its body.
pub record IsAccepted (headers : HeaderMap) : Type 0 where
  pub names : All (λ e. is_valid_header_name e.0 ≡ true) headers
  pub sorted : IsSorted headers
  pub few : length headers ≤ max_header_count
  pub one_length : occurrences content_length headers + occurrences transfer_encoding headers ≤ 1
  pub measured : All (λ e. is_measured e ≡ true) headers

abbrev flag : Bool → ℕ
flag t = if t then 1 else 0

-- The invariant of the loop.
record Inv (s : HeaderState) : Type 0 where
  names : All (λ e. is_valid_header_name e.0 ≡ true) s.headers
  sorted : IsSorted s.headers
  few : length s.headers ≤ s.header_count
  limit : s.header_count ≤ max_header_count
  lengths : occurrences content_length s.headers ≤ flag s.saw_content_length
  encodings : occurrences transfer_encoding s.headers ≤ flag s.saw_transfer_encoding
  one : s.saw_content_length && s.saw_transfer_encoding ≡ false
  measured : All (λ e. is_measured e ≡ true) s.headers

length-assign_header :
    (name value : List ℕ) (headers : HeaderMap)
    → length (assign_header name value headers) ≤ length headers + 1
unfolding assign_header
length-assign_header name value [] = omega arith
length-assign_header name value ((key, old) ∷ headers) =
    ground (arith, length-assign_header name value headers)

occurrences-assign_header :
    (wanted name value : List ℕ) (headers : HeaderMap)
    → occurrences wanted (assign_header name value headers)
      ≤ flag (case_insensitive_compare name wanted) + occurrences wanted headers
unfolding assign_header occurrences
occurrences-assign_header wanted name value [] = omega arith
occurrences-assign_header wanted name value ((key, old) ∷ headers) =
    ground (arith, occurrences-assign_header wanted name value headers)

-- What a line that is taken has been checked for.
line_taken :
    (s t : HeaderState) (line : List ℕ)
    → parse_header_line s line ≡ some t
    → (name : List ℕ) × (value : List ℕ) × (u : HeaderState) × (is_valid_header_name name ≡ true)
      × (saw_header s name value ≡ some u)
      × (u.saw_content_length && u.saw_transfer_encoding ≡ false)
      × (u.header_count + 1 ≤ max_header_count)
      × (record u {
        headers = assign_header name value u.headers;
        header_count = u.header_count + 1;
      }
          ≡ t)
unfolding parse_header_line
line_taken s t line h =
    let (_, h1) =
      guard_passed
        (is_empty line
          || (ltb max_header_line_size (length line)
              || (get_or line 0 0 == b' ' || get_or line 0 0 == b'\t')))
        _ h in
    elim (Option-cases (find_byte b':' line)) [
      | inl e ↦ absurd (cc (rw e at h1))
      | inr (colon, e) ↦
          let name = trim (take colon line) in
          let value = trim (drop (colon + 1) line) in
          let (_, h2) = guard_passed (colon == 0) _ (rw e at h1) in
          let (valid, h3) = guard_passed (not (is_valid_header_name name)) _ h2 in
          elim (Option-cases (saw_header s name value)) [
            | inl f ↦ absurd (cc (rw f at h3))
            | inr (u, f) ↦
                let (one, h4) =
                  guard_passed (u.saw_content_length && u.saw_transfer_encoding) _ (rw f at h3) in
                let (few, h5) = guard_passed (ltb max_header_count (u.header_count + 1)) _ h4 in
                (name, value, u, ground arith, f, one, ground arith, cc (h5))
          ]
    ]

-- No name is both.
one_kind :
    (name : List ℕ)
    → case_insensitive_compare name content_length
        && case_insensitive_compare name transfer_encoding
      ≡ false
unfolding case_insensitive_compare
one_kind name = ground arith

-- The flags, and what is checked of the two headers.
saw_header_inv :
    (s u : HeaderState) (name value : List ℕ)
    → saw_header s name value ≡ some u
    → (u.headers ≡ s.headers)
      × (u.header_count ≡ s.header_count)
      × (flag (case_insensitive_compare name content_length) + flag s.saw_content_length
          ≡ flag u.saw_content_length)
      × (flag (case_insensitive_compare name transfer_encoding) + flag s.saw_transfer_encoding
          ≤ flag u.saw_transfer_encoding)
      × (is_measured (name, value) ≡ true)
unfolding saw_header is_measured
saw_header_inv s u name value h =
    let apart = one_kind name in
    (
      ground (arith, apart),
      ground (arith, apart),
      ground (arith, apart),
      ground (arith, apart),
      ground (arith, apart),
    )

-- A header put into the map.
assigned-Inv :
    (s u : HeaderState) (name value : List ℕ)
    → saw_header s name value ≡ some u
    → is_valid_header_name name ≡ true
    → u.saw_content_length && u.saw_transfer_encoding ≡ false
    → u.header_count + 1 ≤ max_header_count
    → Inv s
    → Inv (record u {
      headers = assign_header name value u.headers;
      header_count = u.header_count + 1;
    })
assigned-Inv s u name value e valid one few v =
    let (same, count, lengths, encodings, measured) = saw_header_inv s u name value e in
    let names = All-assign_header _ name value s.headers valid v.names in
    let sorted = assign_header-IsSorted name value s.headers v.sorted in
    let is_number = All-assign_header _ name value s.headers measured v.measured in
    record {
      names = rw same names;
      sorted = rw same sorted;
      few = rw same (omega (arith, length-assign_header name value s.headers, v.few, count));
      limit = few;
      lengths = rw same (
          omega (
            arith,
            occurrences-assign_header content_length name value s.headers,
            v.lengths,
            lengths,
          ));
      encodings = rw same (
          omega (
            arith,
            occurrences-assign_header transfer_encoding name value s.headers,
            v.encodings,
            encodings,
          ));
      one = one;
      measured = rw same is_number;
    }

parse_header_line-Inv :
    (s t : HeaderState) (line : List ℕ) → parse_header_line s line ≡ some t → Inv s → Inv t
parse_header_line-Inv s t line h v =
    let (name, value, u, valid, e, one, few, same) = line_taken s t line h in
    subst Inv same (assigned-Inv s u name value e valid one few v)

parse_lines-Inv :
    (s t : HeaderState) (ls : List (List ℕ)) → parse_lines s ls ≡ some t → Inv s → Inv t
unfolding parse_lines
parse_lines-Inv s t [] h v = subst Inv (cc (h)) v
parse_lines-Inv s t ([] ∷ []) h v = subst Inv (cc (h)) v
parse_lines-Inv s t ([] ∷ next ∷ more) h v = absurd (cc (h))
parse_lines-Inv s t ((c ∷ line) ∷ more) h v = elim (Option-cases (parse_header_line s (c ∷ line))) [
  | inl e ↦ absurd (cc (rw (parse_lines, e) at h))
  | inr (u, e) ↦
      parse_lines-Inv u t more (rw (parse_lines, e) at h) (parse_header_line-Inv s u (c ∷ line) e v)
]

accepted : (s : HeaderState) → Inv s → IsAccepted s.headers
accepted s v = record {
  names = v.names;
  sorted = v.sorted;
  few = omega (arith, v.few, v.limit);
  one_length = ground (arith, v.lengths, v.encodings, v.one);
  measured = v.measured;
}

no_headers-Inv : Inv no_headers
unfolding occurrences
no_headers-Inv = record {
  names = tt;
  sorted = tt;
  few = omega arith;
  limit = omega arith;
  lengths = omega arith;
  encodings = omega arith;
  one = refl;
  measured = tt;
}

-- When header lines are accepted, the map has its keys in order, 128 entries at most and valid
-- names only; at most one of its names is Content-Length or Transfer-Encoding in whatever case;
-- and a content length is a number.
pub parse_header_lines-IsAccepted :
    (text : List ℕ) (headers : HeaderMap)
    → parse_header_lines text ≡ some headers
    → IsAccepted headers
unfolding parse_header_lines
parse_header_lines-IsAccepted text headers h =
    elim (Option-cases (parse_lines no_headers (lines text))) [
      | inl e ↦ absurd (cc (rw (parse_header_lines, e) at h))
      | inr (s, e) ↦
          let same : s.headers ≡ headers = cc (rw (parse_header_lines, e) at h) in
          subst IsAccepted same
            (accepted s (parse_lines-Inv no_headers s (lines text) e no_headers-Inv))
    ]
