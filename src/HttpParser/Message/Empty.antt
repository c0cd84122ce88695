-- ===== src/HttpParser/Message/Empty.antt =====
-- Messages without headers in `parseRequestHead` and `parseResponseHead` of src/HttpParser.cpp.
use fast_net.Prelude.{
  ℕ, suc, ◌+◌, ◌-◌, ◌%◌, ◌^◌, ◌≤◌, ◌<◌, ◌≡◌, refl, ap, sym, ◌∙◌, true, false, ◌&&◌, arith,
}
use fast_net.Prelude.{none, some, List, [], ◌∷◌, ◌++◌, length, take, drop, is_empty}
use fast_net.Prelude.{ltb, ◌==◌, Bool-cases, Option-cases, inl, inr, guard_passed}
use fast_net.Prelude.Slices.{drop-drop}
use fast_net.HttpParser.Text.{find, starts_with}
use fast_net.HttpParser.Headers.{crlf, lines, parse_lines, parse_header_lines}
use fast_net.HttpParser.Views.{HttpRequestView, HttpResponseView, clear_request, clear_response}
use fast_net.HttpParser.Message.{
  section_ends, max_request_line_size, max_status_line_size, two_spaces, parse_request_head,
  parse_response_head, header_lines, parse_status_code, parse_request, parse_response,
  max_header_section_size,
}

pub find-starts_with :
    (pattern text : List ℕ) (n : ℕ)
    → find pattern text ≡ some n
    → starts_with pattern (drop n text) ≡ true
unfolding find starts_with
find-starts_with [] text n h = refl
find-starts_with (x ∷ pattern) [] n h = absurd (cc (h))
find-starts_with (x ∷ pattern) (c ∷ text) n h =
    elim (Bool-cases (starts_with (x ∷ pattern) (c ∷ text))) [
      | inl e ↦ let first : 0 ≡ n = cc (rw (find, e) at h) in rw (sym first) e
      | inr e ↦ elim (Option-cases (find (x ∷ pattern) text)) [
        | inl f ↦ absurd (cc (rw (find, e, f) at h))
        | inr (m, f) ↦
            let later : suc m ≡ n = cc (rw (find, e, f) at h) in
            rw (sym later) (find-starts_with (x ∷ pattern) text m f)
      ]
    ]

starts_with-take :
    (pattern text : List ℕ)
    → starts_with pattern text ≡ true
    → text ≡ pattern ++ drop (length pattern) text
unfolding starts_with
starts_with-take [] text h = refl
starts_with-take (x ∷ pattern) [] h = absurd (cc (h))
starts_with-take (x ∷ pattern) (c ∷ text) h =
    let same : x ≡ c = ground arith in
    let ih = starts_with-take pattern text (ground arith) in cc (same, ih)

lines-cons : (text : List ℕ) → (p : List ℕ) × (ps : List (List ℕ)) × (lines text ≡ p ∷ ps)
unfolding lines
lines-cons [] = ([], [], refl)
lines-cons (c ∷ []) = (c ∷ [], [], refl)
lines-cons (c ∷ d ∷ text) = elim (Bool-cases (c == 13 && d == 10)) [
  | inl e ↦ ([], lines text, rw (lines, e) refl)
  | inr e ↦ let (p, ps, f) = lines-cons (d ∷ text) in (c ∷ p, ps, rw (lines, e, f) refl)
]

-- A first line that is empty, with something behind it, is refused.
blank_lines : (rest : List ℕ) → parse_header_lines (13 ∷ 10 ∷ rest) ≡ none
unfolding parse_header_lines parse_lines lines
blank_lines rest = let (p, ps, e) = lines-cons rest in rw (parse_header_lines, lines, e) refl

-- The length of the section wraps, and what is read starts with the line end of the blank line.
header_lines-empty :
    (text : List ℕ) (e : ℕ)
    → find (crlf ++ crlf) text ≡ some e
    → e < 2 ^ 32
    → (rest : List ℕ) × (header_lines e e text ≡ 13 ∷ 10 ∷ rest)
unfolding header_lines
header_lines-empty text e h small =
    let wrapped : (e + 2 ^ 64 - (e + 2)) % 2 ^ 64 ≡ 2 ^ 64 - 2 = omega arith in
    let behind = drop 4 (drop e text) in
    let shape : drop e text ≡ 13 ∷ 10 ∷ 13 ∷ 10 ∷ behind =
      starts_with-take (crlf ++ crlf) (drop e text) (find-starts_with (crlf ++ crlf) text e h) in
    let after : drop (e + 2) text ≡ 13 ∷ 10 ∷ behind =
      sym (drop-drop e 2 (e + 2) text refl) ∙ ap (drop 2) shape in
    (
      take (2 ^ 64 - 4) behind,
      ap (λ n. take n (drop (e + 2) text)) wrapped ∙ ap (take (2 ^ 64 - 2)) after,
    )

pub section_ends_inv :
    (limit a b : ℕ) (text : List ℕ)
    → section_ends limit text ≡ some (a, b)
    → (find (crlf ++ crlf) text ≡ some a)
      × (find crlf text ≡ some b)
      × (a ≤ max_header_section_size)
      × (b ≤ limit)
unfolding section_ends
section_ends_inv limit a b text h =
    let (_, h1) = guard_passed (is_empty text) _ h in
    elim (Option-cases (find (crlf ++ crlf) text)) [
      | inl e ↦ absurd (cc (rw e at h1))
      | inr (a', e) ↦
          let (small, h2) = guard_passed (ltb max_header_section_size a') _ (rw e at h1) in
          elim (Option-cases (find crlf text)) [
            | inl f ↦ absurd (cc (rw f at h2))
            | inr (b', f) ↦
                let (short, h3) = guard_passed (ltb limit b') _ (rw f at h2) in
                let first : a' ≡ a = cc (h3) in
                let second : b' ≡ b = cc (h3) in
                (cc (e, first), cc (f, second), ground (arith, first), ground (arith, second))
          ]
    ]

-- The header lines are refused when the first line is the whole section.
no_header_lines :
    (limit a b e : ℕ) (text : List ℕ)
    → find (crlf ++ crlf) text ≡ some e
    → find crlf text ≡ some e
    → section_ends limit text ≡ some (a, b)
    → parse_header_lines (header_lines a b text) ≡ none
no_header_lines limit a b e text h k s =
    let (fa, fb, small, _) = section_ends_inv limit a b text s in
    let same : a ≡ b = cc (h, k, fa, fb) in
    let (rest, lines) = header_lines-empty text b (cc (h, k, fb)) (omega (arith, same)) in
    rw same (ap parse_header_lines lines ∙ blank_lines rest)

parse_request_head-headerless :
    (text : List ℕ) (request : HttpRequestView) (e : ℕ)
    → find (crlf ++ crlf) text ≡ some e
    → find crlf text ≡ some e
    → parse_request_head text request ≡ (false, clear_request request)
unfolding parse_request_head
parse_request_head-headerless text request e h k =
    elim (Option-cases (section_ends max_request_line_size text)) [
      | inl s ↦ rw (parse_request_head, s) refl
      | inr ((a, b), s) ↦
          let line = take b text in
          elim (Option-cases (two_spaces line)) [
            | inl f ↦ rw (parse_request_head, s, f) refl
            | inr ((first, second), f) ↦
                rw
                  (parse_request_head, s, f, no_header_lines max_request_line_size a b e text h k s)
                  (ground arith)
          ]
    ]

parse_response_head-headerless :
    (text : List ℕ) (response : HttpResponseView) (e : ℕ)
    → find (crlf ++ crlf) text ≡ some e
    → find crlf text ≡ some e
    → parse_response_head text response ≡ (false, clear_response response)
unfolding parse_response_head
parse_response_head-headerless text response e h k =
    elim (Option-cases (section_ends max_status_line_size text)) [
      | inl s ↦ rw (parse_response_head, s) refl
      | inr ((a, b), s) ↦
          let line = take b text in
          elim (Option-cases (two_spaces line)) [
            | inl f ↦ rw (parse_response_head, s, f) refl
            | inr ((first, second), f) ↦
                elim (Option-cases
                  (parse_status_code 0 (take (second - first - 1) (drop (first + 1) line)))) [
                    | inl g ↦ rw (parse_response_head, s, f, g) (ground arith)
                    | inr (code, g) ↦
                        rw
                          (
                            parse_response_head,
                            s,
                            f,
                            g,
                            no_header_lines max_status_line_size a b e text h k s,
                          )
                          (ground arith)
                  ]
          ]
    ]

-- When the first line end of a message is that of the blank line, so that it has no header
-- lines, both parsers refuse it and leave a cleared view.
pub parse-headerless :
    (text : List ℕ) (request : HttpRequestView) (response : HttpResponseView) (e : ℕ)
    → find (crlf ++ crlf) text ≡ some e
    → find crlf text ≡ some e
    → (parse_request text request ≡ (false, clear_request request))
      × (parse_response text response ≡ (false, clear_response response))
unfolding parse_request parse_response
parse-headerless text request response e h k =
    let first = parse_request_head-headerless text request e h k in
    let second = parse_response_head-headerless text response e h k in
    (rw (parse_request, first) refl, rw (parse_response, second) refl)
