-- ===== src/HttpParser/Headers/Written.antt =====
-- Header lines as appendHeaders of src/HttpParser.cpp writes them, read by parseHeaderLines.
use fast_net.Prelude.{
  ℕ, ◌+◌, ◌≤◌, ◌<◌, ◌≡◌, refl, ap, sym, ◌∙◌, Bool, true, false, not, ◌&&◌, ◌||◌, arith,
}
use fast_net.Prelude.{Option, none, some, List, [], ◌∷◌, ◌++◌, codes, append_assoc, append-nil, map}
use fast_net.Prelude.{
  less, ltb, ◌==◌, if_false, length, take, drop, length-append, take-append, drop-append, All,
  All-append,
}
use fast_net.HttpParser.Text.{
  all, is_space, is_token_character, is_valid_header_name, trim, trim_begin, find_byte, starts_with,
  is_alnum, is_digit, case_insensitive_compare,
}
use fast_net.HttpParser.Text.Laws.{lacks, all_imp, all-append, find-append, trim_clean}
use fast_net.HttpParser.Headers.{
  HeaderMap, HeaderState, saw_header, parse_header_line, parse_lines, assign_header, content_length,
  transfer_encoding, max_header_line_size, max_header_count,
}
use fast_net.HttpParser.Headers.Order.{Before, IsSorted, After, assign_header-last}

-- A header that can be written as a line and read back.
pub record IsSendable (e : List ℕ × List ℕ) : Type 0 where
  pub name : is_valid_header_name e.0 ≡ true
  pub one_line : lacks 13 e.1 ≡ true
  pub trimmed : trim e.1 ≡ e.1
  pub short : length e.0 + length e.1 + 2 ≤ max_header_line_size

unfoldable pub header_line : List ℕ × List ℕ → List ℕ
header_line (name, value) = name ++ (codes ": " ++ value)

-- A character of a name is none of those that structure a message.
unfoldable pub is_plain : ℕ → Bool
is_plain c = not (is_space c) && (not (b':' == c) && (not (b' ' == c) && not (13 == c)))

token-is_plain : (c : ℕ) → is_token_character c ≡ true → is_plain c ≡ true
unfolding is_plain is_token_character is_alnum is_digit is_space
token-is_plain c h = ground arith

pub name-is_plain :
    (name : List ℕ)
    → is_valid_header_name name ≡ true
    → (all is_plain name ≡ true) × (0 < length name)
unfolding is_valid_header_name
name-is_plain [] h = absurd (cc (h))
name-is_plain (c ∷ name) h =
    (all_imp is_token_character is_plain (c ∷ name) token-is_plain h, omega arith)

pub lacks_cr_plain : (text : List ℕ) → all is_plain text ≡ true → lacks 13 text ≡ true
lacks_cr_plain text h =
    all_imp is_plain (λ c. not (13 == c)) text (λ c k. unfold is_plain in ground arith) h

pub lacks-header_line : (e : List ℕ × List ℕ) → IsSendable e → lacks 13 (header_line e) ≡ true
unfolding header_line
lacks-header_line (name, value) h =
    let (plain, full) = name-is_plain name h.name in
    all-append (λ c. not (13 == c)) name (codes ": " ++ value)
    ∙ ground (arith, lacks_cr_plain name plain, h.one_line)

-- The first character of a line.
pub header_line_start :
    (e : List ℕ × List ℕ) (rest : List ℕ)
    → IsSendable e
    → (c : ℕ) × (more : List ℕ) × (header_line e ++ rest ≡ c ∷ more) × (is_plain c ≡ true)
unfolding header_line
header_line_start ([], value) rest h = absurd (omega (arith, (name-is_plain [] h.name).1))
header_line_start (c ∷ name, value) rest h = (
  c,
  (name ++ (codes ": " ++ value)) ++ rest,
  refl,
  ground (arith, (name-is_plain (c ∷ name) h.name).0),
)

plain_start : (c : ℕ) → is_plain c ≡ true → c == b' ' || c == b'\t' ≡ false
unfolding is_plain is_space
plain_start c h = ground arith

name_trimmed : (name : List ℕ) → all is_plain name ≡ true → trim name ≡ name
name_trimmed name h =
    trim_clean name
      (all_imp is_plain (λ c. not (is_space c)) name (λ c k. unfold is_plain in ground arith) h)

trim-blank : (value : List ℕ) → trim (b' ' ∷ value) ≡ trim value
unfolding trim trim_begin is_space
trim-blank value = refl

-- A line that is written is taken, if its header is.
pub parse_header_line-written :
    (s t : HeaderState) (e : List ℕ × List ℕ)
    → IsSendable e
    → saw_header s e.0 e.1 ≡ some t
    → t.saw_content_length && t.saw_transfer_encoding ≡ false
    → t.header_count < max_header_count
    → parse_header_line s (header_line e)
      ≡ some (record t {
        headers = assign_header e.0 e.1 t.headers;
        header_count = t.header_count + 1;
      })
unfolding parse_header_line header_line
parse_header_line-written s t ([], value) h saw one few =
    absurd (omega (arith, (name-is_plain [] h.name).1))
parse_header_line-written s t (c ∷ name, value) h saw one few =
    let line = header_line (c ∷ name, value) in
    let (plain, full) = name-is_plain (c ∷ name) h.name in
    let colon : find_byte b':' line ≡ some (length (c ∷ name)) =
      find-append b':' [] (c ∷ name) (codes ": " ++ value)
        (all_imp is_plain (λ c. not (b':' == c)) (c ∷ name) (λ c k. unfold is_plain in ground arith)
          plain)
        (unfold starts_with in refl) in
    let front : trim (take (length (c ∷ name)) line) ≡ c ∷ name =
      ap trim (take-append (length (c ∷ name)) (c ∷ name) (codes ": " ++ value) refl)
      ∙ name_trimmed (c ∷ name) plain in
    let behind : drop (length (c ∷ name) + 1) line ≡ b' ' ∷ value =
      ap (drop (length (c ∷ name) + 1)) (sym (append_assoc (c ∷ name) (b':' ∷ []) (b' ' ∷ value)))
      ∙ drop-append (length (c ∷ name) + 1) ((c ∷ name) ++ (b':' ∷ [])) (b' ' ∷ value)
          (length-append (c ∷ name) (b':' ∷ [])) in
    let back : trim (drop (length (c ∷ name) + 1) line) ≡ value =
      ap trim behind ∙ trim-blank value ∙ h.trimmed in
    let size : length line ≡ length (c ∷ name) + length value + 2 =
      omega (arith, length-append (c ∷ name) (codes ": " ++ value)) in
    let allowed : ltb max_header_line_size (length line) || (c == b' ' || c == b'\t') ≡ false =
      ground (arith, size, plain_start c (ground (arith, plain)), h.short) in
    let more : ltb max_header_count (t.header_count + 1) ≡ false = ground arith in
    let some_name : (length (c ∷ name) == 0) ≡ false = ground arith in
    rw (parse_header_line, allowed, colon, front, back, h.name, saw, one, more)
      (if_false _ _ some_name
        ∙ ap (λ n. took n (trim (drop (length (c ∷ name) + 1) line))) front
        ∙ ap (λ v. took (c ∷ name) v) back)
  where
    took : (name value : List ℕ) → Option HeaderState
    took name value = some (record t {
      headers = assign_header name value t.headers;
      header_count = t.header_count + 1;
    })

-- The headers put into a map one by one.
unfoldable pub assign_all : HeaderMap → HeaderMap → HeaderMap
assign_all [] headers = headers
assign_all ((name, value) ∷ more) headers = assign_all more (assign_header name value headers)

-- A header whose name is neither of the two that are counted.
abbrev pub is_other : List ℕ × List ℕ → Bool
is_other e =
    not (case_insensitive_compare e.0 content_length)
    && not (case_insensitive_compare e.0 transfer_encoding)

saw_header-other :
    (s : HeaderState) (e : List ℕ × List ℕ) → is_other e ≡ true → saw_header s e.0 e.1 ≡ some s
unfolding saw_header
saw_header-other s e h = ground arith

parse_lines-cons :
    (s : HeaderState) (line : List ℕ) (more : List (List ℕ))
    → 0 < length line
    → parse_lines s (line ∷ more) ≡ elim (parse_header_line s line) as (λ _. Option HeaderState) [
      | none ↦ none
      | some t ↦ parse_lines t more
    ]
unfolding parse_lines
parse_lines-cons s [] more h = absurd (omega arith)
parse_lines-cons s (c ∷ line) more h = refl

-- A header line that is taken is followed by the others.
pub parse_lines-taken :
    (s t : HeaderState) (e : List ℕ × List ℕ) (more : List (List ℕ))
    → IsSendable e
    → parse_header_line s (header_line e) ≡ some t
    → parse_lines s (header_line e ∷ more) ≡ parse_lines t more
parse_lines-taken s t e more p h =
    let full : 0 < length (header_line e) =
      unfold header_line in
      omega (arith, (name-is_plain e.0 p.name).1, length-append e.0 (codes ": " ++ e.1)) in
    parse_lines-cons s (header_line e) more full
    ∙ ap
        (λ (o : Option HeaderState). elim o as (λ _. Option HeaderState) [
          | none ↦ none
          | some t ↦ parse_lines t more
        ])
        h

pub parse_lines-written :
    (s : HeaderState) (headers : HeaderMap) (rest : List (List ℕ))
    → All IsSendable headers
    → All (λ e. is_other e ≡ true) headers
    → s.saw_content_length && s.saw_transfer_encoding ≡ false
    → s.header_count + length headers ≤ max_header_count
    → parse_lines s (map header_line headers ++ rest)
      ≡ parse_lines
          (record s {
            headers = assign_all headers s.headers;
            header_count = s.header_count + length headers;
          })
          rest
unfolding parse_lines assign_all
parse_lines-written s [] rest h o one few =
    ap (λ n. parse_lines (record s { header_count = n }) rest) (omega arith)
parse_lines-written s (e ∷ headers) rest (p, h) (f, o) one few =
    let next : HeaderState = record s {
      headers = assign_header e.0 e.1 s.headers;
      header_count = s.header_count + 1;
    } in
    let taken = parse_header_line-written s s e p (saw_header-other s e f) one (omega arith) in
    parse_lines-taken s next e (map header_line headers ++ rest) p taken
    ∙ parse_lines-written next headers rest h o one (omega arith)
    ∙ ap
        (λ n.
          parse_lines (record s { headers = assign_all headers next.headers; header_count = n })
            rest)
        (omega arith)

-- In the order of their keys they are put behind one another.
assign_all-append :
    (headers before : HeaderMap)
    → All (λ e. After before e.0) headers
    → IsSorted headers
    → assign_all headers before ≡ before ++ headers
unfolding assign_all
assign_all-append [] before h s = sym (append-nil before)
assign_all-append ((name, value) ∷ headers) before (a, h) (b, s) =
    ap (assign_all headers) (assign_header-last name value before a)
    ∙ assign_all-append headers (before ++ ((name, value) ∷ [])) (later headers h b) s
    ∙ append_assoc before ((name, value) ∷ []) headers
  where
    later :
        (headers : HeaderMap)
        → All (λ e. After before e.0) headers
        → Before name headers
        → All (λ e. After (before ++ ((name, value) ∷ [])) e.0) headers
    later [] h b = tt
    later (e ∷ headers) (p, h) (q, b) = (
      All-append (λ x. less x.0 e.0 ≡ true) before ((name, value) ∷ []) p (q, tt),
      later headers h b,
    )

pub assign_all-IsSorted : (headers : HeaderMap) → IsSorted headers → assign_all headers [] ≡ headers
assign_all-IsSorted headers s = assign_all-append headers [] (nothing headers) s
  where
    nothing : (headers : HeaderMap) → All (λ e. After [] e.0) headers
    nothing [] = tt
    nothing (e ∷ headers) = (tt, nothing headers)
