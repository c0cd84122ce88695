-- ===== src/HttpParser/Message/Section.antt =====
-- A message of a first line, header lines and a rest: where `parseRequestHead` and
-- `parseResponseHead` of src/HttpParser.cpp find its parts.
use fast_net.Prelude.{ℕ, ◌+◌, ◌-◌, ◌%◌, ◌^◌, ◌≤◌, ◌≡◌, refl, ap, sym, ◌∙◌, true, false, arith}
use fast_net.Prelude.{some, List, [], ◌∷◌, ◌++◌, append_assoc, is_empty}
use fast_net.Prelude.{ltb, length, All, take, drop, length-append, take-append, drop-append}
use fast_net.HttpParser.Text.{find, starts_with}
use fast_net.HttpParser.Text.Laws.{lacks, find-append}
use fast_net.HttpParser.Headers.{HeaderMap, crlf}
use fast_net.HttpParser.Headers.Written.{IsSendable}
use fast_net.HttpParser.Headers.Joined.{joined, joined_start, find-joined, find-next_line}
use fast_net.HttpParser.Message.{section_ends, header_lines, max_header_section_size}

module _ (line : List ℕ) (headers : HeaderMap) (last : List ℕ × List ℕ) (body : List ℕ) where
  abbrev pub message_text : List ℕ
  message_text = line ++ (crlf ++ (joined headers last ++ (crlf ++ (crlf ++ body))))

  abbrev pub message_end : ℕ
  message_end = length line + 2 + length (joined headers last)

  pub find-message_text :
      All IsSendable headers
      → IsSendable last
      → lacks 13 line ≡ true
      → find (crlf ++ crlf) message_text ≡ some message_end
  find-message_text sendable k plain =
      let rest = crlf ++ (crlf ++ body) in
      let (c, more, start, other) = joined_start headers last rest sendable k in
      ap (λ l. find (crlf ++ crlf) (line ++ (crlf ++ l))) start
      ∙ find-next_line line more c (length (joined headers last)) plain other
          (ap (find (crlf ++ crlf)) (sym start) ∙ find-joined headers last body sendable k)

  pub section_ends-message_text :
      (limit : ℕ)
      → All IsSendable headers
      → IsSendable last
      → lacks 13 line ≡ true
      → length line ≤ limit
      → message_end ≤ max_header_section_size
      → section_ends limit message_text ≡ some (message_end, length line)
  unfolding section_ends
  section_ends-message_text limit sendable k plain short inside =
      let full : is_empty message_text ≡ false = not_empty line in
      let first : find crlf message_text ≡ some (length line) =
        find-append 13 (10 ∷ []) line _ plain (unfold starts_with in refl) in
      let small : ltb max_header_section_size message_end ≡ false = ground (arith, inside) in
      let fits : ltb limit (length line) ≡ false = ground (arith, short) in
      rw (section_ends, full, find-message_text sendable k plain, small, first, fits) refl
    where
      not_empty :
          (l : List ℕ)
          → is_empty (l ++ (crlf ++ (joined headers last ++ (crlf ++ (crlf ++ body))))) ≡ false
      not_empty [] = refl
      not_empty (c ∷ l) = refl

  pub drop-message_text :
      drop (length line + 2) message_text ≡ joined headers last ++ (crlf ++ (crlf ++ body))
  drop-message_text =
      ap (drop (length line + 2))
        (sym (append_assoc line crlf (joined headers last ++ (crlf ++ (crlf ++ body)))))
      ∙ drop-append (length line + 2) (line ++ crlf) _ (length-append line crlf)

  pub header_lines-message_text :
      message_end ≤ max_header_section_size
      → header_lines message_end (length line) message_text ≡ joined headers last
  unfolding header_lines
  header_lines-message_text inside =
      let size : (message_end + 2 ^ 64 - (length line + 2)) % 2 ^ 64
          ≡ length (joined headers last) =
        omega (arith, inside) in
      ap (λ n. take n (drop (length line + 2) message_text)) size
      ∙ ap (take (length (joined headers last))) drop-message_text
      ∙ take-append (length (joined headers last)) (joined headers last) _ refl
