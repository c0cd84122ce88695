-- ===== src/HttpParser/Message/Accepted.antt =====
-- What `parseRequest` and `parseResponse` of src/HttpParser.cpp leave, on every path.
use fast_net.Prelude.{ℕ, ◌+◌, ◌-◌, ◌≡◌, refl, ap, ◌∙◌, Bool, true, false, not, ◌||◌, arith}
use fast_net.Prelude.{
  Option, none, some, List, [], length, take, drop, is_empty, is_none, length-take,
}
use fast_net.Prelude.{ltb, if◌then◌else◌, Bool-cases, Option-cases, guard_passed, inl, inr}
use fast_net.HttpParser.Text.{is_valid_header_name, is_valid_http_version, find_byte}
use fast_net.HttpParser.Headers.{
  HeaderMap, parse_header_lines, is_chunked_encoding, content_length_from_headers,
  assign_message_body,
}
use fast_net.HttpParser.Headers.Accepted.{IsAccepted, parse_header_lines-IsAccepted}
use fast_net.HttpParser.Views.{HttpRequestView, clear_request}
use fast_net.HttpParser.Message.{
  section_ends, max_request_line_size, two_spaces, split_target, split_query,
  target_without_fragment, parse_request_head, parse_request, remaining_text, header_lines,
}

pub record IsRequest (request : HttpRequestView) : Type 0 where
  pub method : is_valid_header_name request.method ≡ true
  pub target : is_empty request.target ≡ false
  pub version : is_valid_http_version request.version ≡ true
  pub headers : IsAccepted request.headers

-- What a parser of requests may return.
abbrev pub Checked : Bool × HttpRequestView → Type 0
Checked (false, request) = request ≡ clear_request request
Checked (true, request) = IsRequest request

-- The parts that `split_query` leaves alone.
pub record SameParts (r q : HttpRequestView) : Type 0 where
  pub method : r.method ≡ q.method
  pub target : r.target ≡ q.target
  pub version : r.version ≡ q.version

split_query-SameParts :
    (request : HttpRequestView) (path : List ℕ) → SameParts (split_query request path) request
unfolding split_query
split_query-SameParts request path = elim (Option-cases (find_byte b'?' path)) [
  | inl e ↦ rw (split_query, e) (record { method = refl; target = refl; version = refl })
  | inr (pos, e) ↦ rw (split_query, e) (record { method = refl; target = refl; version = refl })
]

pub split_target-SameParts : (request : HttpRequestView) → SameParts (split_target request) request
unfolding split_target
split_target-SameParts request =
    split_query-SameParts request (target_without_fragment request.target)

-- The request line is checked before the headers are read.
with_headers-Checked :
    (request : HttpRequestView) (text : List ℕ)
    → is_valid_header_name request.method ≡ true
    → is_empty request.target ≡ false
    → is_valid_http_version request.version ≡ true
    → Checked (elim (parse_header_lines text) as (λ _. Bool × HttpRequestView) [
      | none ↦ (false, clear_request (split_target request))
      | some headers ↦ (true, record (split_target request) { headers = headers; body = [] })
    ])
with_headers-Checked request text m t v = elim (Option-cases (parse_header_lines text)) [
  | inl e ↦ rw e refl
  | inr (headers, e) ↦
      let same = split_target-SameParts request in
      rw e (record {
        method = ap is_valid_header_name same.method ∙ m;
        target = ap is_empty same.target ∙ t;
        version = ap is_valid_http_version same.version ∙ v;
        headers = parse_header_lines-IsAccepted text headers e;
      })
]

pub parse_request_head-Checked :
    (text : List ℕ) (request : HttpRequestView) → Checked (parse_request_head text request)
unfolding parse_request_head
parse_request_head-Checked text request =
    elim (Option-cases (section_ends max_request_line_size text)) [
      | inl e ↦ rw (parse_request_head, e) refl
      | inr ((header_end, line_end), e) ↦
          let line = take line_end text in
          elim (Option-cases (two_spaces line)) [
            | inl f ↦ rw (parse_request_head, e, f) refl
            | inr ((first, second), f) ↦
                elim (Bool-cases (not (is_none (find_byte b' ' (drop (second + 1) line))))) [
                  | inl more ↦ rw (parse_request_head, e, f, more) refl
                  | inr two ↦
                      let method = take first line in
                      let target = take (second - first - 1) (drop (first + 1) line) in
                      let version = drop (second + 1) line in
                      let view : HttpRequestView = record (clear_request request) {
                        method = method;
                        target = target;
                        version = version;
                      } in
                      elim (Bool-cases (
                        not (is_valid_header_name method)
                        || (is_empty target || not (is_valid_http_version version)))) [
                          | inl bad ↦ rw (parse_request_head, e, f, two, bad) refl
                          | inr good ↦
                              rw (parse_request_head, e, f, two, good)
                                (with_headers-Checked view (header_lines header_end line_end text)
                                  (ground arith) (ground arith) (ground arith))
                        ]
                ]
          ]
    ]

-- The length that the headers give a body which is not sent in chunks.
unfoldable pub declared_length : HeaderMap → Option ℕ
declared_length headers =
    if is_chunked_encoding headers then none else content_length_from_headers headers

abbrev pub IsDeclared : Option ℕ → List ℕ → Type 0
IsDeclared none body = Unit {0}
IsDeclared (some size) body = length body ≡ size

abbrev pub CheckedWhole : Bool × HttpRequestView → Type 0
CheckedWhole (false, request) = request ≡ clear_request request
CheckedWhole (true, request) =
    IsRequest request × IsDeclared (declared_length request.headers) request.body

assign_message_body-IsDeclared :
    (text : List ℕ) (headers : HeaderMap) (body : List ℕ)
    → assign_message_body text headers ≡ some body
    → IsDeclared (declared_length headers) body
unfolding assign_message_body declared_length
assign_message_body-IsDeclared text headers body h =
    elim (Bool-cases (is_chunked_encoding headers)) [
      | inl e ↦ rw e tt
      | inr e ↦ elim (Option-cases (content_length_from_headers headers)) [
        | inl f ↦ rw (e, f) tt
        | inr (size, f) ↦
            let (enough, taken) =
              guard_passed (ltb (length text) size) _ (rw (assign_message_body, e, f) at h) in
            rw (e, f)
              (ground (arith, length-take size text, ap length (body_taken size text body taken)))
      ]
    ]
  where
    body_taken :
        (n : ℕ) (xs ys : List ℕ)
        → ◌≡◌ {A = Option (List ℕ)} (some (take n xs)) (some ys)
        → take n xs ≡ ys
    body_taken n xs ys e = cc (e)

with_body-CheckedWhole :
    (r : Bool × HttpRequestView) (text : List ℕ)
    → Checked r
    → CheckedWhole (
        if not r.0
        then (false, r.1)
        else elim (assign_message_body text r.1.headers) as (λ _. Bool × HttpRequestView) [
          | none ↦ (false, clear_request r.1)
          | some body ↦ (true, record (r.1) { body = body })
        ])
with_body-CheckedWhole (false, q) text h = h
with_body-CheckedWhole (true, q) text h = elim (Option-cases (assign_message_body text q.headers)) [
  | inl e ↦ rw e refl
  | inr (body, e) ↦ rw e (
    record { method = h.method; target = h.target; version = h.version; headers = h.headers },
    assign_message_body-IsDeclared text q.headers body e,
  )
]

-- parseRequest refuses and leaves a cleared view, or it accepts: then the method is a valid
-- header name, the target is not empty, the version is a valid HTTP version, the headers are
-- such as parseHeaderLines may leave, and the body has the length that the headers declare, if
-- they declare one and the body is not chunked.
pub parse_request_lem :
    (text : List ℕ) (request : HttpRequestView) → CheckedWhole (parse_request text request)
unfolding parse_request
parse_request_lem text request =
    with_body-CheckedWhole (parse_request_head text request) (remaining_text text)
      (parse_request_head-Checked text request)
