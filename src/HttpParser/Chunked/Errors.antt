-- ===== src/HttpParser/Chunked/Errors.antt =====
-- The ends of `parseChunked` in src/HttpParser.cpp, and the sum of sizes that wraps.
use fast_net.Prelude.{
  ℕ, zero, suc, ◌+◌, ◌-◌, ◌%◌, ◌^◌, ◌<◌, ◌≤◌, ◌≡◌, refl, ap, ◌∙◌, Bool, true, false, not, arith,
}
use fast_net.Prelude.{Option, some, List, [], ◌∷◌, ◌++◌, length}
use fast_net.Prelude.{
  ltb, ◌==◌, if◌then◌else◌, Option-cases, inl, inr, take, drop, length-append, length-drop,
}
use fast_net.HttpParser.Text.{find, starts_with}
use fast_net.HttpParser.Numbers.{parse_hex_size}
use fast_net.HttpParser.Headers.{crlf}
use fast_net.HttpParser.Chunked.{
  string_max_size, ChunkOutcome, ChunkOutcome.returned, ChunkOutcome.length_error, chunk_size_line,
  parse_chunks, parse_chunked,
}
use fast_net.HttpParser.Chunked.RoundTrip.{IsSizeLine, parse_chunks_line}

-- A test between an end and another result.
either_ends :
    (t : Bool) (o : ChunkOutcome) (r : Option ChunkOutcome)
    → (p : ChunkOutcome) × (r ≡ some p)
    → (p : ChunkOutcome) × ((if t then some o else r) ≡ some p)
either_ends true o r h = (o, refl)
either_ends false o r h = h

parse_chunks_total :
    (fuel total offset : ℕ) (rest body : List ℕ)
    → length rest ≤ fuel
    → (o : ChunkOutcome) × (parse_chunks fuel total offset rest body ≡ some o)
unfolding parse_chunks
parse_chunks_total fuel total offset [] body h = (returned false body, refl)
parse_chunks_total zero total offset (c ∷ rest) body h = absurd (omega arith)
parse_chunks_total (suc fuel) total offset (c ∷ rest) body h =
    elim (Option-cases (find crlf (c ∷ rest))) [
      | inl e ↦ (returned false body, rw (parse_chunks, e) refl)
      | inr (line_end, e) ↦
          elim (Option-cases (parse_hex_size (chunk_size_line (take line_end (c ∷ rest))))) [
            | inl f ↦ (returned false body, rw (parse_chunks, e, f) refl)
            | inr (n, f) ↦
                let behind = drop (line_end + 2) (c ∷ rest) in
                let ih =
                  parse_chunks_total fuel total (offset + line_end + 2 + n + 2)
                    (drop (n + 2) behind) (body ++ take n behind)
                    (omega
                      (arith, length-drop (n + 2) behind, length-drop (line_end + 2) (c ∷ rest))) in
                rw (parse_chunks, e, f)
                  (either_ends (n == 0) _ _ (
                    either_ends (ltb total ((offset + line_end + 2 + n + 2) % 2 ^ 64))
                      (returned false body) _
                      (either_ends (ltb string_max_size (length body + n)) length_error _ (
                        either_ends (not (starts_with crlf (drop n behind)))
                          (returned false (body ++ take n behind)) _ ih))))
          ]
    ]

-- parseChunked comes to an end on every text before its fuel runs out.
pub parse_chunked_total : (text : List ℕ) → (o : ChunkOutcome) × (parse_chunked text ≡ some o)
unfolding parse_chunked
parse_chunked_total text = parse_chunks_total (length text) (length text) 0 text [] (omega arith)

-- When a text shorter than 2 ^ 32 bytes starts with a chunk size so close to 2 ^ 64 that the
-- end of the chunk wraps, and something follows the size line, parseChunked passes its length
-- check and ends in a length_error instead of returning false.
pub parse_chunked_wraps :
    (line rest : List ℕ) (n : ℕ)
    → IsSizeLine line n
    → n < 2 ^ 64
    → 2 ^ 64 ≤ length line + n + 4
    → 0 < length rest
    → length line + length rest < 2 ^ 32
    → parse_chunked (line ++ (crlf ++ rest)) ≡ some length_error
unfolding parse_chunked
parse_chunked_wraps line rest n h small wide more short =
    let text = line ++ (crlf ++ rest) in
    let total : length text ≡ length line + length rest + 2 =
      omega (arith, length-append line (crlf ++ rest)) in
    let round : length text ≡ suc (length line + length rest + 1) = omega (arith, total) in
    let some_bytes : (n == 0) ≡ false = ground arith in
    let wrapped : (0 + length line + 2 + n + 2) % 2 ^ 64 ≡ length line + n + 4 - 2 ^ 64 =
      omega arith in
    let held : ltb (length text) ((0 + length line + 2 + n + 2) % 2 ^ 64) ≡ false =
      ground (arith, total, wrapped) in
    let over : ltb string_max_size (0 + n) ≡ true = ground arith in
    ap (λ f. parse_chunks f (length text) 0 text []) round
    ∙ parse_chunks_line (length line + length rest + 1) (length text) 0 line rest [] n h
    ∙ rw (some_bytes, held, over) refl
