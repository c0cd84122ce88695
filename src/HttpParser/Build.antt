-- ===== src/HttpParser/Build.antt =====
-- The writers of requests and responses in src/HttpParser.cpp.
use fast_net.Prelude.{ℤ}
use fast_net.Prelude.{ℕ, ◌+◌}
use fast_net.Prelude.{List, ◌∷◌, ◌++◌, codes}
use fast_net.Prelude.{length}
use fast_net.HttpParser.Text.{}
use fast_net.HttpParser.Numbers.{append_signed_decimal, decimal_digit_count, signed_digit_count}
use fast_net.HttpParser.Headers.{HeaderMap, crlf, append_headers, estimate_header_bytes}

unfoldable pub build_request : (method uri : List ℕ) → HeaderMap → (body : List ℕ) → List ℕ
build_request method uri headers body =
    method
    ++ (b' '
        ∷ (uri ++ (codes " HTTP/1.1" ++ (crlf ++ (append_headers headers body ++ (crlf ++ body))))))

unfoldable pub build_response : ℤ → List ℕ → HeaderMap → (body : List ℕ) → List ℕ
build_response status_code status_message headers body =
    codes "HTTP/1.1 "
    ++ (append_signed_decimal status_code
        ++ (b' ' ∷ (status_message ++ (crlf ++ (append_headers headers body ++ (crlf ++ body))))))

-- What `buildRequest` and `buildResponse` reserve.
unfoldable pub request_reserve : (method uri : List ℕ) → HeaderMap → (body : List ℕ) → ℕ
request_reserve method uri headers body =
    length method
    + length uri
    + length body
    + estimate_header_bytes headers
    + decimal_digit_count (length body)
    + 32

unfoldable pub response_reserve : ℤ → List ℕ → HeaderMap → (body : List ℕ) → ℕ
response_reserve status_code status_message headers body =
    length status_message
    + length body
    + estimate_header_bytes headers
    + decimal_digit_count (length body)
    + signed_digit_count status_code
    + 24
