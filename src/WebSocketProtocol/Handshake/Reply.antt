-- ===== src/WebSocketProtocol/Handshake/Reply.antt =====
-- The server's answer of src/WebSocketProtocol.cpp, read by parseResponse of src/HttpParser.cpp,
-- as the client reads it.
use fast_net.Prelude.{ℕ, ◌+◌, ◌≤◌, ◌≡◌, refl, ap, ◌∙◌, Bool, true, not, inl, inr, arith}
use fast_net.Prelude.{some, List, [], ◌∷◌, ◌++◌, codes, append_assoc}
use fast_net.Prelude.{less, ◌==◌, length, All}
use fast_net.Prelude.{holds_below, test_of_holds_below}
use fast_net.Base64.{symbol}
use fast_net.Base64.Encode.{IsEncoded}
use fast_net.HttpParser.Text.{
  all, find, starts_with, is_space, is_digit, is_alnum, is_token_character, trim, trim_begin,
  trim_end, is_valid_header_name, is_valid_http_version, case_insensitive_compare, same_letters,
  to_lower,
}
use fast_net.HttpParser.Text.Laws.{all_imp, trim_clean}
use fast_net.HttpParser.Headers.{
  HeaderMap, no_headers, lines, assign_header, get_header, parse_header_lines, parse_lines,
}
use fast_net.HttpParser.Headers.Written.{IsSendable, header_line, assign_all, parse_lines-written}
use fast_net.HttpParser.Headers.Joined.{joined, lines-joined}
use fast_net.HttpParser.Views.{HttpResponseView}
use fast_net.HttpParser.Message.{
  two_spaces, parse_status_code, parse_response_head, parse_response, has_no_response_body,
  max_status_line_size, max_header_section_size,
}
use fast_net.HttpParser.Message.Section.{
  message_text, message_end, section_ends-message_text, header_lines-message_text,
}
use fast_net.WebSocketProtocol.Handshake.{create_accept_key, create_handshake_response, crlf}
use fast_net.WebSocketProtocol.Handshake.Keys.{create_accept_key-encodes}

is_solid : ℕ → Bool
is_solid c = not (is_space c)

symbols_solid : holds_below (λ i. is_solid (symbol i)) 64 ≡ true
unfolding holds_below is_solid is_space
symbols_solid = refl

-- Encoded text has no white space.
encoded_solid : (text : List ℕ) → All IsEncoded text → all is_solid text ≡ true
unfolding is_solid is_space
encoded_solid [] h = refl
encoded_solid (c ∷ text) (inl (i, e, small), h) =
    let solid = test_of_holds_below (λ i. is_solid (symbol i)) i 64 small symbols_solid in
    ground (arith, ap is_solid e ∙ solid, encoded_solid text h)
encoded_solid (c ∷ text) (inr e, h) = ground (arith, e, encoded_solid text h)

abbrev upgrade : List ℕ × List ℕ
upgrade = (codes "Upgrade", codes "websocket")

abbrev connection : List ℕ × List ℕ
connection = (codes "Connection", codes "Upgrade")

abbrev accept_name : List ℕ
accept_name = codes "Sec-WebSocket-Accept"

abbrev front : HeaderMap
front = upgrade ∷ connection ∷ []

abbrev status_line : List ℕ
status_line = codes "HTTP/1.1 101 Switching Protocols"

front-IsSendable : All IsSendable front
unfolding is_valid_header_name is_token_character is_alnum is_digit is_space trim trim_begin
    trim_end
front-IsSendable = (
  record { name = refl; one_line = refl; trimmed = refl; short = omega arith },
  (record { name = refl; one_line = refl; trimmed = refl; short = omega arith }, tt),
)

accept-IsSendable :
    (accept : List ℕ)
    → all is_solid accept ≡ true
    → length accept ≡ 28
    → IsSendable (accept_name, accept)
unfolding is_valid_header_name is_token_character is_alnum is_digit
accept-IsSendable accept solid len = record {
  name = refl;
  one_line =
      all_imp is_solid (λ c. not (13 == c)) accept (λ c k. unfold is_solid is_space in ground arith)
        solid;
  trimmed =
      trim_clean accept
        (all_imp is_solid (λ c. not (is_space c)) accept (λ c k. unfold is_solid in k) solid);
  short = omega (arith, len);
}

-- The answer in its parts.
create_handshake_response-parts :
    (key accept : List ℕ)
    → create_accept_key key ≡ some accept
    → create_handshake_response key
      ≡ some
          (status_line ++ (crlf ++ (joined front (accept_name, accept) ++ (crlf ++ (crlf ++ [])))))
unfolding create_handshake_response joined header_line
create_handshake_response-parts key accept h =
    rw (create_handshake_response, h) (simp (append_assoc))

-- The map that the reader makes of the three headers.
abbrev reply_headers : List ℕ → HeaderMap
reply_headers accept = connection ∷ (accept_name, accept) ∷ upgrade ∷ []

parse_header_lines-reply :
    (accept : List ℕ)
    → IsSendable (accept_name, accept)
    → parse_header_lines (joined front (accept_name, accept)) ≡ some (reply_headers accept)
unfolding parse_header_lines parse_lines assign_all assign_header less case_insensitive_compare
    same_letters to_lower
parse_header_lines-reply accept h =
    let (u, (c, _)) = front-IsSendable in
    let whole : parse_lines no_headers (lines (joined front (accept_name, accept)))
        ≡ some (record no_headers { headers = reply_headers accept; header_count = 3 }) =
      ap (parse_lines no_headers) (lines-joined front (accept_name, accept) (u, (c, tt)) h)
      ∙ parse_lines-written no_headers (upgrade ∷ connection ∷ (accept_name, accept) ∷ []) []
          (u, (c, (h, tt))) (refl, (refl, (refl, tt))) refl (omega arith) in
    rw (parse_header_lines, whole) refl

-- What the reader leaves.
abbrev reply_view : List ℕ → HttpResponseView
reply_view accept = record {
  status_code = 101;
  status_message = codes "Switching Protocols";
  version = codes "HTTP/1.1";
  headers = reply_headers accept;
  body = [];
}

module _ (accept rest : List ℕ) where
  abbrev reply_text : List ℕ
  reply_text = message_text status_line front (accept_name, accept) rest

  length-joined-front : length (joined front (accept_name, accept)) ≡ 63 + length accept
  unfolding joined header_line
  length-joined-front = omega arith

  parse_response_head-reply :
      (response : HttpResponseView)
      → all is_solid accept ≡ true
      → length accept ≡ 28
      → parse_response_head reply_text response ≡ (true, reply_view accept)
  unfolding parse_response_head two_spaces find starts_with trim trim_begin trim_end is_space
      is_valid_http_version parse_status_code is_digit
  parse_response_head-reply response solid len =
      let h = accept-IsSendable accept solid len in
      let inside : message_end status_line front (accept_name, accept) rest
          ≤ max_header_section_size =
        omega (arith, length-joined-front) in
      let ends =
        section_ends-message_text status_line front (accept_name, accept) rest max_status_line_size
          front-IsSendable h refl (omega arith) inside in
      let read =
        ap parse_header_lines
          (header_lines-message_text status_line front (accept_name, accept) rest inside)
        ∙ parse_header_lines-reply accept h in
      rw (parse_response_head, ends, read) refl

  parse_response-reply :
      (response : HttpResponseView)
      → all is_solid accept ≡ true
      → length accept ≡ 28
      → parse_response reply_text response ≡ (true, reply_view accept)
  unfolding parse_response has_no_response_body
  parse_response-reply response solid len =
      rw (parse_response, parse_response_head-reply response solid len) refl

reply_view-headers :
    (accept : List ℕ)
    → (get_header (reply_headers accept) (codes "Upgrade") ≡ some (codes "websocket"))
      × (get_header (reply_headers accept) (codes "Connection") ≡ some (codes "Upgrade"))
      × (get_header (reply_headers accept) (codes "Sec-WebSocket-Accept") ≡ some accept)
unfolding get_header case_insensitive_compare same_letters to_lower
reply_view-headers accept = (refl, refl, refl)

-- Whatever key a client sends, createHandshakeResponse answers, and parseResponse accepts the
-- answer, whatever view it fills and whatever bytes follow the answer: with the status 101, an empty
-- body, the header Upgrade as websocket, the header Connection as Upgrade, and as
-- Sec-WebSocket-Accept the value that createAcceptKey gives for the key.
pub parse_response-create_handshake_response :
    (key rest : List ℕ) (response : HttpResponseView)
    → (accept reply : List ℕ) × (view : HttpResponseView) × (create_accept_key key ≡ some accept)
      × (create_handshake_response key ≡ some reply)
      × (parse_response (reply ++ rest) response ≡ (true, view))
      × (view.status_code ≡ 101)
      × (view.body ≡ [])
      × (get_header view.headers (codes "Upgrade") ≡ some (codes "websocket"))
      × (get_header view.headers (codes "Connection") ≡ some (codes "Upgrade"))
      × (get_header view.headers (codes "Sec-WebSocket-Accept") ≡ some accept)
parse_response-create_handshake_response key rest response =
    let (accept, made, encoded, len) = create_accept_key-encodes key in
    let (u, c, a) = reply_view-headers accept in
    let section = joined front (accept_name, accept) in
    let whole : (status_line ++ (crlf ++ (section ++ (crlf ++ (crlf ++ []))))) ++ rest
        ≡ reply_text accept rest =
      simp (append_assoc) in
    (
      accept,
      status_line ++ (crlf ++ (section ++ (crlf ++ (crlf ++ [])))),
      reply_view accept,
      made,
      create_handshake_response-parts key accept made,
      ap (λ text. parse_response text response) whole
          ∙ parse_response-reply accept rest response (encoded_solid accept encoded) len,
      refl,
      refl,
      u,
      c,
      a,
    )
