-- ===== src/HttpParser/Chunked/RoundTrip.antt =====
-- `buildChunked` and `parseChunked` of src/HttpParser.cpp.
use fast_net.Prelude.{
  ℕ, zero, suc, ◌+◌, ◌%◌, ◌^◌, ◌<◌, ◌≤◌, ◌≡◌, refl, ap, sym, ◌∙◌, true, false, not, arith, min,
}
use fast_net.Prelude.{none, some, List, [], ◌∷◌, ◌++◌, length, append_assoc, append-nil}
use fast_net.Prelude.{
  ltb, ◌==◌, if◌then◌else◌, take, drop, length-append, length-take, length-drop, take-append,
  drop-append, take-append-drop,
}
use fast_net.HttpParser.Text.{all, find, starts_with}
use fast_net.HttpParser.Text.Laws.{
  trim_clean, all_imp, find-append, find-absent, starts_with-append,
}
use fast_net.HttpParser.Numbers.{parse_hex_size, append_unsigned_hex, digit_fuel}
use fast_net.HttpParser.Numbers.Hex.{
  is_size_character, solid, no_line_end, no_extension, all_clean-to_chars_onto,
  parse_hex_size-append_unsigned_hex,
}
use fast_net.HttpParser.Headers.{crlf, lines}
use fast_net.HttpParser.Chunked.{
  string_max_size, ChunkOutcome, ChunkOutcome.returned, parse_trailers, chunk_size_line,
  parse_chunks, parse_chunked, chunked_encode_block_size, build_chunks, build_chunked,
}

-- A size line as it is written.
pub record IsSizeLine (line : List ℕ) (n : ℕ) : Type 0 where
  pub clean : all is_size_character line ≡ true
  pub value : parse_hex_size line ≡ some n

size_line_lem : (line : List ℕ) → all is_size_character line ≡ true → chunk_size_line line ≡ line
unfolding chunk_size_line
size_line_lem line h =
    let trimmed = trim_clean line (all_imp _ _ line solid h) in
    rw (chunk_size_line, trimmed, find-absent b';' [] line (all_imp _ _ line no_extension h))
      trimmed

append_unsigned_hex-IsSizeLine : (n : ℕ) → n < 2 ^ 64 → IsSizeLine (append_unsigned_hex n) n
append_unsigned_hex-IsSizeLine n h = record {
  clean = unfold append_unsigned_hex in all_clean-to_chars_onto digit_fuel n [] refl;
  value = parse_hex_size-append_unsigned_hex n h;
}

hex_empty : parse_hex_size [] ≡ none
unfolding parse_hex_size
hex_empty = refl

-- What the loop sees of a text that is not empty.
pub parse_chunks_line :
    (fuel total offset : ℕ) (line rest body : List ℕ) (n : ℕ)
    → IsSizeLine line n
    → parse_chunks (suc fuel) total offset (line ++ (crlf ++ rest)) body ≡ (
        if n == 0
        then some (returned (parse_trailers (lines rest)) body)
        else if ltb total ((offset + length line + 2 + n + 2) % 2 ^ 64)
        then some (returned false body)
        else if ltb string_max_size (length body + n)
        then some ChunkOutcome.length_error
        else if not (starts_with crlf (drop n rest))
        then some (returned false (body ++ take n rest))
        else parse_chunks fuel total
            (offset + length line + 2 + n + 2)
            (drop (n + 2) rest)
            (body ++ take n rest))
unfolding parse_chunks
parse_chunks_line fuel total offset [] rest body n h = absurd (cc (hex_empty, h.value))
parse_chunks_line fuel total offset (c ∷ line) rest body n h =
    let text = c ∷ line in
    let found : find crlf (text ++ (crlf ++ rest)) ≡ some (length text) =
      find-append 13 (10 ∷ []) text (crlf ++ rest) (all_imp _ _ text no_line_end h.clean)
        (starts_with-append crlf rest) in
    let front : take (length text) (text ++ (crlf ++ rest)) ≡ text =
      take-append (length text) text (crlf ++ rest) refl in
    let behind : drop (length text + 2) (text ++ (crlf ++ rest)) ≡ rest =
      ap (drop (length text + 2)) (sym (append_assoc text crlf rest))
      ∙ drop-append (length text + 2) (text ++ crlf) rest (length-append text crlf) in
    rw (parse_chunks, found, front, size_line_lem text h.clean, h.value, behind) refl

-- The last chunk and the empty trailer.
parse_chunks_end :
    (fuel total offset : ℕ) (body : List ℕ)
    → parse_chunks (suc fuel) total offset (b'0' ∷ 13 ∷ 10 ∷ 13 ∷ 10 ∷ []) body
      ≡ some (returned true body)
unfolding parse_chunks find starts_with chunk_size_line parse_hex_size parse_trailers lines
parse_chunks_end fuel total offset body = refl

-- A chunk that is there is taken.
parse_chunks_chunk :
    (fuel total offset : ℕ) (line chunk rest body : List ℕ) (n : ℕ)
    → IsSizeLine line n
    → length chunk ≡ n
    → 0 < n
    → offset + length line + n + 4 ≤ total
    → total < 2 ^ 63
    → length body + n ≤ string_max_size
    → parse_chunks (suc fuel) total offset (line ++ (crlf ++ (chunk ++ (crlf ++ rest)))) body
      ≡ parse_chunks fuel total (offset + length line + 2 + n + 2) rest (body ++ chunk)
parse_chunks_chunk fuel total offset line chunk rest body n h size full within small room =
    let some_bytes : (n == 0) ≡ false = ground arith in
    let held : ltb total ((offset + length line + 2 + n + 2) % 2 ^ 64) ≡ false = ground arith in
    let fit : ltb string_max_size (length body + n) ≡ false = ground arith in
    let taken : take n (chunk ++ (crlf ++ rest)) ≡ chunk =
      take-append n chunk (crlf ++ rest) size in
    let behind : drop n (chunk ++ (crlf ++ rest)) ≡ crlf ++ rest =
      drop-append n chunk (crlf ++ rest) size in
    let after : drop (n + 2) (chunk ++ (crlf ++ rest)) ≡ rest =
      ap (drop (n + 2)) (sym (append_assoc chunk crlf rest))
      ∙ drop-append (n + 2) (chunk ++ crlf) rest (omega (arith, length-append chunk crlf)) in
    parse_chunks_line fuel total offset line (chunk ++ (crlf ++ rest)) body n h
    ∙ rw (some_bytes, held, fit, taken, behind, starts_with-append crlf rest, after) refl

abbrev last_chunk : List ℕ
last_chunk = b'0' ∷ 13 ∷ 10 ∷ 13 ∷ 10 ∷ []

-- The parts of a chunk, with what follows it.
regroup :
    (line chunk rest end : List ℕ)
    → (line ++ (crlf ++ (chunk ++ (crlf ++ rest)))) ++ end
      ≡ line ++ (crlf ++ (chunk ++ (crlf ++ (rest ++ end))))
regroup line chunk rest end = simp (append_assoc)

length-chunk :
    (line chunk rest : List ℕ)
    → length (line ++ (crlf ++ (chunk ++ (crlf ++ rest))))
      ≡ length line + length chunk + length rest + 4
length-chunk line chunk rest = omega (
  arith,
  length-append line (crlf ++ (chunk ++ (crlf ++ rest))),
  length-append chunk (crlf ++ rest),
)

parse-build_chunks :
    (rounds fuel total offset : ℕ) (text body : List ℕ)
    → length text ≤ rounds
    → rounds < fuel
    → length body ≤ offset
    → offset + length (build_chunks rounds text) + 5 ≤ total
    → total < 2 ^ 63
    → parse_chunks fuel total offset (build_chunks rounds text ++ last_chunk) body
      ≡ some (returned true (body ++ text))
unfolding build_chunks
parse-build_chunks rounds zero total offset text body h k b l t = absurd (omega arith)
parse-build_chunks zero (suc fuel) total offset [] body h k b l t =
    parse_chunks_end fuel total offset body
    ∙ ap (λ o. some (returned true o)) (sym (append-nil body))
parse-build_chunks zero (suc fuel) total offset (c ∷ text) body h k b l t = absurd (omega arith)
parse-build_chunks (suc rounds) (suc fuel) total offset [] body h k b l t =
    parse_chunks_end fuel total offset body
    ∙ ap (λ o. some (returned true o)) (sym (append-nil body))
parse-build_chunks (suc rounds) (suc fuel) total offset (c ∷ text) body h k b l t =
    let all_bytes = c ∷ text in
    let n : ℕ = min chunked_encode_block_size (length all_bytes) in
    let line = append_unsigned_hex n in
    let chunk = take n all_bytes in
    let left = drop n all_bytes in
    let rest = build_chunks rounds left in
    let size : length chunk ≡ n = length-take n all_bytes ∙ omega arith in
    let space = length-chunk line chunk rest in
    ap (λ l. parse_chunks (suc fuel) total offset l body) (regroup line chunk rest last_chunk)
    ∙ parse_chunks_chunk fuel total offset line chunk (rest ++ last_chunk) body n
        (append_unsigned_hex-IsSizeLine n (omega arith)) size (omega arith)
        (omega (arith, space, size)) t (omega (arith, space, size))
    ∙ parse-build_chunks rounds fuel total (offset + length line + 2 + n + 2) left (body ++ chunk)
        (omega (arith, length-drop n all_bytes)) (omega arith)
        (omega (arith, length-append body chunk, size)) (omega (arith, space, size)) t
    ∙ ap (λ o. some (returned true o))
        (append_assoc body chunk left ∙ ap (λ l. body ++ l) (take-append-drop n all_bytes))

length-le-build_chunks :
    (rounds : ℕ) (text : List ℕ)
    → length text ≤ rounds
    → length text ≤ length (build_chunks rounds text)
unfolding build_chunks
length-le-build_chunks zero text h = omega arith
length-le-build_chunks (suc rounds) [] h = omega arith
length-le-build_chunks (suc rounds) (c ∷ text) h =
    let n : ℕ = min chunked_encode_block_size (length (c ∷ text)) in
    let left = drop n (c ∷ text) in
    omega (
      arith,
      length-chunk (append_unsigned_hex n) (take n (c ∷ text)) (build_chunks rounds left),
      length-take n (c ∷ text),
      length-drop n (c ∷ text),
      length-le-build_chunks rounds left,
    )

-- When what buildChunked makes of a text is shorter than 2 ^ 63 bytes, parseChunked accepts it
-- and gives the text back.
pub parse_chunked-build_chunked :
    (text : List ℕ)
    → length (build_chunked text) < 2 ^ 63
    → parse_chunked (build_chunked text) ≡ some (returned true text)
unfolding parse_chunked build_chunked
parse_chunked-build_chunked text h =
    let chunks = build_chunks (length text) text in
    let total : length (chunks ++ last_chunk) ≡ length chunks + 5 =
      length-append chunks last_chunk in
    parse-build_chunks (length text) (length (chunks ++ last_chunk)) (length (chunks ++ last_chunk))
      0 text [] (omega arith)
      (omega (arith, total, length-le-build_chunks (length text) text (omega arith))) (omega arith)
      (omega (arith, total)) h
