-- ===== src/HttpParser/Message/Sent.antt =====
-- The text that `buildRequest` of src/HttpParser.cpp writes, and where its parts are found.
use fast_net.Prelude.{ℕ, ◌+◌, ◌^◌, ◌≤◌, ◌<◌, ◌≡◌, refl, ap, sym, ◌∙◌, true, false, not, arith}
use fast_net.Prelude.{some, List, [], ◌∷◌, ◌++◌, codes, append_assoc, is_empty}
use fast_net.Prelude.{◌==◌, length, All, drop, length-append, drop-append}
use fast_net.Prelude.Slices.{drop-drop}
use fast_net.HttpParser.Text.{find_byte, starts_with, is_valid_header_name}
use fast_net.HttpParser.Text.Laws.{lacks, all_imp, all-append, find-append}
use fast_net.HttpParser.Headers.{HeaderMap, crlf, append_headers, max_header_count}
use fast_net.HttpParser.Headers.Order.{IsSorted}
use fast_net.HttpParser.Headers.Written.{
  IsSendable, is_other, is_plain, name-is_plain, lacks_cr_plain,
}
use fast_net.HttpParser.Headers.Joined.{joined}
use fast_net.HttpParser.Headers.Sent.{
  length_header, append_headers-joined, length_header-IsSendable,
}
use fast_net.HttpParser.Message.Section.{
  message_text, message_end, find-message_text, section_ends-message_text, drop-message_text,
  header_lines-message_text,
}
use fast_net.HttpParser.Build.{build_request}
use fast_net.HttpParser.Message.{
  section_ends, two_spaces, header_lines, remaining_text, max_header_section_size,
  max_request_line_size,
}

-- A request that can be sent with a Content-Length of its own, and read back.
pub record CanSend (method uri : List ℕ) (headers : HeaderMap) (body : List ℕ) : Type 0 where
  pub token : is_valid_header_name method ≡ true
  pub named : 0 < length uri
  pub one_line : lacks 13 uri ≡ true
  pub one_word : lacks b' ' uri ≡ true
  pub sorted : IsSorted headers
  pub sendable : All IsSendable headers
  pub others : All (λ e. is_other e ≡ true) headers
  pub few : length headers < max_header_count
  pub short : length method + length uri + 10 ≤ max_request_line_size
  pub section :
      length method + length uri + 12 + length (append_headers headers body)
      ≤ max_header_section_size
  pub small : length body < 2 ^ 64

pub is_empty-full : (l : List ℕ) → 0 < length l → is_empty l ≡ false
is_empty-full [] h = absurd (omega arith)
is_empty-full (x ∷ l) h = refl

module _ (method uri : List ℕ) (headers : HeaderMap) (body : List ℕ) where
  abbrev pub request_line : List ℕ
  request_line = method ++ (b' ' ∷ (uri ++ codes " HTTP/1.1"))

  abbrev pub section_text : List ℕ
  section_text = joined headers (length_header body)

  pub length-request_line : length request_line ≡ length method + length uri + 10
  length-request_line = omega (
    arith,
    length-append method (b' ' ∷ (uri ++ codes " HTTP/1.1")),
    length-append uri (codes " HTTP/1.1"),
  )

  pub build_request-parts :
      CanSend method uri headers body
      → build_request method uri headers body
        ≡ request_line ++ (crlf ++ (section_text ++ (crlf ++ (crlf ++ body))))
  unfolding build_request
  build_request-parts h =
      ap (λ l. method ++ (b' ' ∷ (uri ++ (codes " HTTP/1.1" ++ (crlf ++ l)))))
        (append_headers-joined headers body body h.others)
      ∙ sym (
          append_assoc method (b' ' ∷ (uri ++ codes " HTTP/1.1")) _
          ∙ ap (λ l. method ++ (b' ' ∷ l)) (append_assoc uri (codes " HTTP/1.1") _))

  pub drop-method : drop (length method + 1) request_line ≡ uri ++ codes " HTTP/1.1"
  drop-method =
      ap (drop (length method + 1))
        (sym (append_assoc method (b' ' ∷ []) (uri ++ codes " HTTP/1.1")))
      ∙ drop-append (length method + 1) (method ++ (b' ' ∷ [])) _ (length-append method (b' ' ∷ []))

  pub lacks-request_line : CanSend method uri headers body → lacks 13 request_line ≡ true
  lacks-request_line h =
      all-append (λ c. not (13 == c)) method (b' ' ∷ (uri ++ codes " HTTP/1.1"))
      ∙ ground (
        arith,
        lacks_cr_plain method (name-is_plain method h.token).0,
        h.one_line,
        all-append (λ c. not (13 == c)) uri (codes " HTTP/1.1"),
      )

  pub two_spaces-request_line :
      CanSend method uri headers body
      → two_spaces request_line ≡ some (length method, length method + 1 + length uri)
  unfolding two_spaces
  two_spaces-request_line h =
      let (plain, full) = name-is_plain method h.token in
      let word =
        all_imp is_plain (λ c. not (b' ' == c)) method (λ c k. unfold is_plain in ground arith)
          plain in
      let rest = uri ++ codes " HTTP/1.1" in
      let first : find_byte b' ' request_line ≡ some (length method) =
        find-append b' ' [] method (b' ' ∷ rest) word (unfold starts_with in refl) in
      let second : find_byte b' ' rest ≡ some (length uri) =
        find-append b' ' [] uri (codes " HTTP/1.1") h.one_word (unfold starts_with in refl) in
      let present : (length method == 0) ≡ false = ground arith in
      let target : (length uri == 0) ≡ false = ground (arith, h.named) in
      rw (two_spaces, first, present, drop-method, second, target) refl

  abbrev pub sent_text : List ℕ
  sent_text = message_text request_line headers (length_header body) body

  abbrev pub line_end : ℕ
  line_end = length request_line

  abbrev pub header_end : ℕ
  header_end = message_end request_line headers (length_header body) body

  pub length-section_text :
      CanSend method uri headers body
      → length (append_headers headers body) ≡ length section_text + 2
  length-section_text h = omega (
    arith,
    ap length (append_headers-joined headers body [] h.others),
    length-append (append_headers headers body) (crlf ++ []),
    length-append section_text (crlf ++ (crlf ++ [])),
  )

  pub section_ends-sent_text :
      CanSend method uri headers body
      → section_ends max_request_line_size sent_text ≡ some (header_end, line_end)
  section_ends-sent_text h =
      section_ends-message_text request_line headers (length_header body) body max_request_line_size
        h.sendable (length_header-IsSendable body) (lacks-request_line h)
        (omega (arith, h.short, length-request_line))
        (omega (arith, h.section, length-section_text h, length-request_line))

  pub header_lines-sent_text :
      CanSend method uri headers body → header_lines header_end line_end sent_text ≡ section_text
  header_lines-sent_text h =
      header_lines-message_text request_line headers (length_header body) body
        (omega (arith, h.section, length-section_text h, length-request_line))

  pub remaining_text-sent_text : CanSend method uri headers body → remaining_text sent_text ≡ body
  unfolding remaining_text
  remaining_text-sent_text h =
      rw
        (
          remaining_text,
          find-message_text request_line headers (length_header body) body h.sendable
              (length_header-IsSendable body) (lacks-request_line h),
        )
        (sym (
            drop-drop (line_end + 2) (length section_text + 4) (header_end + 4) sent_text
              (omega arith))
          ∙ ap (drop (length section_text + 4)) (
              drop-message_text request_line headers (length_header body) body
              ∙ sym (append_assoc section_text (crlf ++ crlf) body))
          ∙ drop-append (length section_text + 4) (section_text ++ (crlf ++ crlf)) body
              (length-append section_text (crlf ++ crlf)))
