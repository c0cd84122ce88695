-- ===== src/HttpParser/Message.antt =====
-- Requests and responses in src/HttpParser.cpp. A parser returns its flag and the view that it leaves.
pub mod Accepted
pub mod Empty
pub mod Section
pub mod Sent
pub mod RoundTrip
use fast_net.Prelude.{ℤ}
use fast_net.Prelude.{ℕ, zero, suc, ◌+◌, ◌-◌, ◌*◌, ◌%◌, ◌^◌, Bool, true, false, not, ◌&&◌, ◌||◌}
use fast_net.Prelude.{Option, none, some, List, [], ◌∷◌, ◌++◌, codes, is_empty, is_none}
use fast_net.Prelude.{ltb, leb, ◌==◌, if◌then◌else◌, length, get_or, take, drop}
use fast_net.HttpParser.Text.{
  is_digit, find, find_byte, trim, is_valid_header_name, is_valid_http_version,
  case_insensitive_compare, contains_token, all,
}
use fast_net.HttpParser.Numbers.{append_signed_decimal, decimal_digit_count, signed_digit_count}
use fast_net.HttpParser.Headers.{
  HeaderMap, crlf, get_header, content_length_from_headers, assign_message_body, parse_header_lines,
  append_headers, estimate_header_bytes,
}
use fast_net.HttpParser.Url.{parse_query_string}
use mathlib.Core.Option
use fast_net.HttpParser.Views.{HttpRequestView, HttpResponseView, clear_request, clear_response}

abbrev pub max_header_section_size : ℕ
max_header_section_size = 64 * 1024

abbrev pub max_request_line_size : ℕ
max_request_line_size = 4096

abbrev pub max_status_line_size : ℕ
max_status_line_size = 4096

-- Where the header section and the first line end, within their limits.
unfoldable pub section_ends : (max_line_size : ℕ) → List ℕ → Option (ℕ × ℕ)
section_ends max_line_size text = if is_empty text then none else elim (find (crlf ++ crlf) text) [
  | none ↦ none
  | some header_end ↦
      if ltb max_header_section_size header_end then none else elim (find crlf text) [
        | none ↦ none
        | some line_end ↦ if ltb max_line_size line_end then none else some (header_end, line_end)
      ]
]

-- `data.substr(headerLinesOffset, headerEnd - headerLinesOffset)`: the length wraps as a `size_t`.
unfoldable pub header_lines : (header_end line_end : ℕ) → List ℕ → List ℕ
header_lines header_end line_end text =
    take ((header_end + 2 ^ 64 - (line_end + 2)) % 2 ^ 64) (drop (line_end + 2) text)

-- The two spaces in the first line, none of them at its start and no two side by side.
unfoldable pub two_spaces : List ℕ → Option (ℕ × ℕ)
two_spaces line = elim (find_byte b' ' line) [
  | none ↦ none
  | some first_space ↦
      if first_space == 0 then none else elim (find_byte b' ' (drop (first_space + 1) line)) [
        | none ↦ none
        | some gap ↦ if gap == 0 then none else some (first_space, first_space + 1 + gap)
      ]
]

unfoldable pub target_without_fragment : List ℕ → List ℕ
target_without_fragment target = elim (find_byte b'#' target) [
  | none ↦ target
  | some fragment_pos ↦ take fragment_pos target
]

-- What follows the first question mark is the query.
unfoldable pub split_query : HttpRequestView → List ℕ → HttpRequestView
split_query request path = elim (find_byte b'?' path) [
  | none ↦ record request { uri = path }
  | some query_pos ↦ record request {
    uri = take query_pos path;
    query_string = drop (query_pos + 1) path;
    query_params = parse_query_string (drop (query_pos + 1) path);
  }
]

unfoldable pub split_target : HttpRequestView → HttpRequestView
unfolding target_without_fragment split_query
split_target request = split_query request (target_without_fragment request.target)

unfoldable pub parse_request_head : List ℕ → HttpRequestView → Bool × HttpRequestView
unfolding section_ends two_spaces header_lines split_target
parse_request_head text request =
    let request = clear_request request in
    elim (section_ends max_request_line_size text) [
      | none ↦ (false, request)
      | some (header_end, line_end) ↦
          let request_line = take line_end text in
          elim (two_spaces request_line) [
            | none ↦ (false, request)
            | some (first_space, second_space) ↦
                if not (is_none (find_byte b' ' (drop (second_space + 1) request_line)))
                then (false, request)
                else let request : HttpRequestView = record request {
                  method = take first_space request_line;
                  target =
                      take (second_space - first_space - 1) (drop (first_space + 1) request_line);
                  version = drop (second_space + 1) request_line;
                } in
                  if not (is_valid_header_name request.method)
                    || (is_empty request.target || not (is_valid_http_version request.version))
                  then (false, clear_request request)
                  else let request = split_target request in
                    elim (parse_header_lines (header_lines header_end line_end text)) [
                      | none ↦ (false, clear_request request)
                      | some headers ↦ (true, record request { headers = headers; body = [] })
                    ]
          ]
    ]

-- `data.substr(headerEnd + 4)`
unfoldable pub remaining_text : List ℕ → List ℕ
remaining_text text = elim (find (crlf ++ crlf) text) [
  | none ↦ []
  | some header_end ↦ drop (header_end + 4) text
]

unfoldable pub parse_request : List ℕ → HttpRequestView → Bool × HttpRequestView
parse_request text request =
    let (accepted, request) = parse_request_head text request in
    if not accepted
    then (false, request)
    else elim (assign_message_body (remaining_text text) request.headers) [
      | none ↦ (false, clear_request request)
      | some body ↦ (true, record request { body = body })
    ]

-- The loop over the digits of the status code.
unfoldable pub parse_status_code : ℕ → List ℕ → Option ℕ
parse_status_code status_code [] = some status_code
parse_status_code status_code (ch ∷ code_text) =
    let rest = parse_status_code (status_code * 10 + (ch - b'0')) code_text in
    if not (is_digit ch) then none else rest

unfoldable pub parse_response_head : List ℕ → HttpResponseView → Bool × HttpResponseView
unfolding section_ends two_spaces header_lines parse_status_code
parse_response_head text response =
    let response = clear_response response in
    elim (section_ends max_status_line_size text) [
      | none ↦ (false, response)
      | some (header_end, line_end) ↦
          let status_line = take line_end text in
          elim (two_spaces status_line) [
            | none ↦ (false, response)
            | some (first_space, second_space) ↦
                let code_text =
                  take (second_space - first_space - 1) (drop (first_space + 1) status_line) in
                let response : HttpResponseView = record response {
                  version = take first_space status_line;
                  status_message = trim (drop (second_space + 1) status_line);
                } in
                if not (is_valid_http_version response.version) || not (length code_text == 3)
                then (false, clear_response response)
                else elim (parse_status_code 0 code_text) [
                  | none ↦ (false, clear_response response)
                  | some status_code ↦
                      elim (parse_header_lines (header_lines header_end line_end text)) [
                        | none ↦ (false, clear_response response)
                        | some headers ↦ (
                          true,
                          record response {
                            status_code = status_code;
                            headers = headers;
                            body = [];
                          },
                        )
                      ]
                ]
          ]
    ]

unfoldable pub has_no_response_body : ℕ → Bool
has_no_response_body status_code =
    (leb 100 status_code && ltb status_code 200) || (status_code == 204 || status_code == 304)

unfoldable pub parse_response : List ℕ → HttpResponseView → Bool × HttpResponseView
unfolding has_no_response_body
parse_response text response =
    let (accepted, response) = parse_response_head text response in
    if not accepted
    then (false, response)
    else if has_no_response_body response.status_code
    then (true, record response { body = [] })
    else elim (assign_message_body (remaining_text text) response.headers) [
      | none ↦ (false, clear_response response)
      | some body ↦ (true, record response { body = body })
    ]
