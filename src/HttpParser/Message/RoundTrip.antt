-- ===== src/HttpParser/Message/RoundTrip.antt =====
-- `buildRequest` and `parseRequest` of src/HttpParser.cpp.
use fast_net.Prelude.{ℕ, ◌+◌, ◌-◌, ◌≡◌, refl, ap, sym, ◌∙◌, Bool, true, false, not, arith}
use fast_net.Prelude.{Option, none, some, List, [], ◌∷◌, ◌++◌, codes, append_assoc}
use fast_net.Prelude.{
  ltb, if◌then◌else◌, length, take, drop, length-append, take-append, drop-append,
}
use fast_net.Prelude.Slices.{take_all, drop-drop}
use fast_net.HttpParser.Text.{find_byte, is_valid_http_version}
use fast_net.HttpParser.Text.Laws.{find-absent}
use fast_net.HttpParser.Numbers.{append_unsigned_decimal, parse_unsigned_decimal}
use fast_net.HttpParser.Numbers.Decimal.{parse-append_unsigned_decimal}
use fast_net.HttpParser.Headers.{
  HeaderMap, assign_header, content_length, assign_message_body, parse_header_lines,
  content_length_from_headers,
}
use fast_net.HttpParser.Headers.Written.{IsSendable}
use fast_net.HttpParser.Headers.Sent.{
  length_header-IsSendable, parse_header_lines-joined, sent_length,
}
use fast_net.HttpParser.Message.Accepted.{split_target-SameParts}
use fast_net.HttpParser.Views.{HttpRequestView, clear_request}
use fast_net.HttpParser.Build.{build_request}
use fast_net.HttpParser.Message.{
  two_spaces, header_lines, split_target, parse_request_head, parse_request, remaining_text,
}
use fast_net.HttpParser.Message.Sent.{
  CanSend, is_empty-full, request_line, build_request-parts, drop-method, two_spaces-request_line,
  sent_text, line_end, header_end, section_ends-sent_text, header_lines-sent_text,
  remaining_text-sent_text,
}

module _ (method uri : List ℕ) (headers : HeaderMap) (body : List ℕ) where
  -- The first line in the view.
  abbrev request_parts : HttpRequestView → HttpRequestView
  request_parts request = record (clear_request request) {
    method = method;
    target = uri;
    version = codes "HTTP/1.1";
  }

  abbrev sent_headers : HeaderMap
  sent_headers = assign_header content_length (append_unsigned_decimal (length body)) headers

  target_part :
      take
        (length method + 1 + length uri - length method - 1)
        (drop (length method + 1) (request_line method uri headers body))
      ≡ uri
  target_part =
      ap (λ n. take n (drop (length method + 1) (request_line method uri headers body)))
        (omega arith)
      ∙ ap (take (length uri)) (drop-method method uri headers body)
      ∙ take-append (length uri) uri (codes " HTTP/1.1") refl

  version_part :
      drop (length method + 1 + length uri + 1) (request_line method uri headers body)
      ≡ codes "HTTP/1.1"
  version_part =
      sym (
        drop-drop (length method + 1) (length uri + 1) (length method + 1 + length uri + 1)
          (request_line method uri headers body) (omega arith))
      ∙ ap (drop (length uri + 1)) (
          drop-method method uri headers body
          ∙ sym (append_assoc uri (b' ' ∷ []) (codes "HTTP/1.1")))
      ∙ drop-append (length uri + 1) (uri ++ (b' ' ∷ [])) (codes "HTTP/1.1")
          (length-append uri (b' ' ∷ []))

  parse_request_head-sent_text :
      (request : HttpRequestView)
      → CanSend method uri headers body
      → parse_request_head (sent_text method uri headers body) request ≡ (
        true,
        record (split_target (request_parts request)) { headers = sent_headers; body = [] },
      )
  unfolding parse_request_head
  parse_request_head-sent_text request h =
      let line : take (line_end method uri headers body) (sent_text method uri headers body)
          ≡ (request_line method uri headers body) =
        take-append (line_end method uri headers body) (request_line method uri headers body) _
          refl in
      let spaces : two_spaces
            (take (line_end method uri headers body) (sent_text method uri headers body))
          ≡ some (length method, length method + 1 + length uri) =
        ap two_spaces line ∙ two_spaces-request_line method uri headers body h in
      let first : take (length method)
            (take (line_end method uri headers body) (sent_text method uri headers body))
          ≡ method =
        ap (take (length method)) line ∙ take-append (length method) method _ refl in
      let second : take (length method + 1 + length uri - length method - 1) (
            drop (length method + 1)
              (take (line_end method uri headers body) (sent_text method uri headers body)))
          ≡ uri =
        ap target_at line ∙ target_part in
      let third : drop (length method + 1 + length uri + 1)
            (take (line_end method uri headers body) (sent_text method uri headers body))
          ≡ codes "HTTP/1.1" =
        ap version_at line ∙ version_part in
      let read : parse_header_lines (
            header_lines (header_end method uri headers body) (line_end method uri headers body)
              (sent_text method uri headers body))
          ≡ some sent_headers =
        ap parse_header_lines (header_lines-sent_text method uri headers body h)
        ∙ parse_header_lines-joined headers body h.sorted h.sendable h.others h.few h.small in
      let version : is_valid_http_version (codes "HTTP/1.1") ≡ true =
        unfold is_valid_http_version in refl in
      let last : find_byte b' ' (codes "HTTP/1.1") ≡ none =
        find-absent b' ' [] (codes "HTTP/1.1") refl in
      rw
        (
          parse_request_head,
          section_ends-sent_text method uri headers body h,
          spaces,
          third,
          last,
          first,
          second,
          h.token,
          is_empty-full uri h.named,
          version,
          read,
        )
        (ap
            (λ m.
              view m
                (target_at
                  (take (line_end method uri headers body) (sent_text method uri headers body)))
                (version_at
                  (take (line_end method uri headers body) (sent_text method uri headers body))))
            first
          ∙ ap
              (λ t. view method t (
                version_at
                  (take (line_end method uri headers body) (sent_text method uri headers body))))
              second
          ∙ ap (view method uri) third)
    where
      target_at : List ℕ → List ℕ
      target_at l =
          take (length method + 1 + length uri - length method - 1) (drop (length method + 1) l)

      version_at : List ℕ → List ℕ
      version_at l = drop (length method + 1 + length uri + 1) l

      view : (m t v : List ℕ) → Bool × HttpRequestView
      view m t v = (
        true,
        record (split_target
            (record (clear_request request) { method = m; target = t; version = v })) {
              headers = sent_headers;
              body = [];
            },
      )

  parse_request-sent_text :
      (request : HttpRequestView)
      → CanSend method uri headers body
      → parse_request (sent_text method uri headers body) request ≡ (
        true,
        record (split_target (request_parts request)) { headers = sent_headers; body = body },
      )
  unfolding parse_request
  parse_request-sent_text request h =
      let digits = append_unsigned_decimal (length body) in
      let (size, plain) = sent_length digits headers h.others in
      let (value, _) = parse-append_unsigned_decimal (length body) h.small in
      let counted : content_length_from_headers sent_headers ≡ some (length body) =
        size
        ∙ ap parse_unsigned_decimal (IsSendable.trimmed (length_header-IsSendable body))
        ∙ value in
      let long : ltb (length body) (length body) ≡ false = ground arith in
      let taken : assign_message_body body sent_headers ≡ some body =
        unfold assign_message_body in
        rw (assign_message_body, plain, counted, long)
          (ap some (take_all (length body) body (omega arith))) in
      ap with_body (parse_request_head-sent_text request h)
      ∙ ap
          (λ (o : Option (List ℕ)).
            ended
              (record (split_target (request_parts request)) { headers = sent_headers; body = [] })
              o)
          (ap (λ text. assign_message_body text sent_headers)
              (remaining_text-sent_text method uri headers body h)
            ∙ taken)
    where
      ended : HttpRequestView → Option (List ℕ) → Bool × HttpRequestView
      ended q none = (false, clear_request q)
      ended q (some body) = (true, record q { body = body })

      with_body : Bool × HttpRequestView → Bool × HttpRequestView
      with_body r =
          if not r.0
          then (false, r.1)
          else ended r.1
              (assign_message_body (remaining_text (sent_text method uri headers body)) r.1.headers)

-- parseRequest accepts what buildRequest writes and gives back the method, the target, the
-- version, the headers with the Content-Length that was added, and the body, when the method is
-- a valid name, the target is not empty and has no space or carriage return, the headers are
-- fewer than 128, in the order of their keys, fit on trimmed lines and have no length of their
-- own, the request line and the section are within their limits, and the body is shorter than 2
-- ^ 64 bytes.
pub parse_request-build_request :
    (method uri : List ℕ) (headers : HeaderMap) (body : List ℕ) (request : HttpRequestView)
    → CanSend method uri headers body
    → (q : HttpRequestView) × (parse_request (build_request method uri headers body) request
        ≡ (true, q))
      × (q.method ≡ method)
      × (q.target ≡ uri)
      × (q.version ≡ codes "HTTP/1.1")
      × (q.headers ≡ assign_header content_length (append_unsigned_decimal (length body)) headers)
      × (q.body ≡ body)
parse_request-build_request method uri headers body request h =
    let r = request_parts method uri headers body request in
    let same = split_target-SameParts r in
    (
      record (split_target r) { headers = sent_headers method uri headers body; body = body },
      ap (λ text. parse_request text request) (build_request-parts method uri headers body h)
          ∙ parse_request-sent_text method uri headers body request h,
      same.method,
      same.target,
      same.version,
      refl,
      refl,
    )
