-- ===== src/HttpParser/Tests.antt =====
-- Runs of the functions of src/HttpParser.cpp, and the theorems at concrete inputs.
use fast_net.Prelude.{ℕ, ◌<◌, ◌-◌, ◌^◌, ◌≡◌, refl, true, false, List, [], ◌∷◌, ◌++◌, some, arith}
use fast_net.Prelude.{codes, length}
use fast_net.HttpParser.Text.{
  find, trim, is_valid_header_name, is_valid_http_version, case_insensitive_compare,
}
use fast_net.HttpParser.Numbers.{
  parse_unsigned_decimal, append_unsigned_decimal, parse_hex_size, append_unsigned_hex,
}
use fast_net.HttpParser.Numbers.Hex.{is_size_character}
use fast_net.HttpParser.Headers.{crlf, parse_header_lines, assign_message_body}
use fast_net.HttpParser.Headers.Accepted.{IsAccepted, parse_header_lines-IsAccepted}
use fast_net.HttpParser.Url.{url_decode, url_encode, parse_query_string}
use fast_net.HttpParser.Url.RoundTrip.{url_decode-url_encode}
use fast_net.HttpParser.Chunked.{
  ChunkOutcome, ChunkOutcome.returned, ChunkOutcome.length_error, parse_chunked, build_chunked,
}
use fast_net.HttpParser.Chunked.RoundTrip.{IsSizeLine, parse_chunked-build_chunked}
use fast_net.HttpParser.Chunked.Errors.{parse_chunked_total, parse_chunked_wraps}
use fast_net.HttpParser.Views.{HttpRequestView, HttpResponseView, clear_request, clear_response}
use fast_net.HttpParser.Message.{parse_request, parse_response, parse_request_head, remaining_text}
use fast_net.HttpParser.Message.Accepted.{CheckedWhole, parse_request_lem}
use fast_net.HttpParser.Message.Sent.{CanSend}
use fast_net.HttpParser.Message.RoundTrip.{parse_request-build_request}
use fast_net.HttpParser.Build.{build_request}
use fast_net.HttpParser.Headers.{append_headers, assign_header, content_length}
use fast_net.HttpParser.Message.Empty.{parse-headerless}

abbrev no_request : HttpRequestView
no_request = record {
  method = [];
  target = [];
  uri = [];
  query_string = [];
  version = [];
  headers = [];
  body = [];
  query_params = [];
}

abbrev no_response : HttpResponseView
no_response = record {
  status_code = 200;
  status_message = codes "OK";
  version = [];
  headers = [];
  body = [];
}

abbrev posted : List ℕ
posted =
    codes "POST /a?x=1&y#z HTTP/1.1"
    ++ (crlf
        ++ (codes "Host: h"
            ++ (crlf ++ (codes "content-length: 3" ++ (crlf ++ (crlf ++ codes "abcd"))))))

posted_accepted : parse_request posted no_request ≡ (
  true,
  record {
    method = codes "POST";
    target = codes "/a?x=1&y#z";
    uri = codes "/a";
    query_string = codes "x=1&y";
    version = codes "HTTP/1.1";
    headers = (codes "Host", codes "h") ∷ (codes "content-length", codes "3") ∷ [];
    body = codes "abc";
    query_params = (codes "x", codes "1") ∷ (codes "y", []) ∷ [];
  },
)
unfolding parse_request parse_request_head find is_valid_header_name is_valid_http_version
    parse_header_lines trim case_insensitive_compare parse_unsigned_decimal assign_message_body
    remaining_text parse_query_string
posted_accepted = refl

parse_request_lem_example : CheckedWhole (parse_request posted no_request)
parse_request_lem_example = parse_request_lem posted no_request

abbrev one_header : List ℕ
one_header = codes "Content-Length: 12"

parsed_header : parse_header_lines one_header ≡ some ((codes "Content-Length", codes "12") ∷ [])
unfolding parse_header_lines find is_valid_header_name trim case_insensitive_compare
    parse_unsigned_decimal
parsed_header = refl

parse_header_lines-IsAccepted_example : IsAccepted ((codes "Content-Length", codes "12") ∷ [])
parse_header_lines-IsAccepted_example =
    parse_header_lines-IsAccepted one_header ((codes "Content-Length", codes "12") ∷ [])
      parsed_header

url_decode-url_encode_example : url_decode (url_encode (codes "a b/%")) ≡ codes "a b/%"
url_decode-url_encode_example = url_decode-url_encode (codes "a b/%") (omega arith)

built :
    build_chunked (codes "hello")
    ≡ codes "5" ++ (crlf ++ (codes "hello" ++ (crlf ++ (codes "0" ++ (crlf ++ crlf)))))
unfolding build_chunked append_unsigned_hex
built = refl

parse_chunked-build_chunked_example :
    parse_chunked (build_chunked (codes "hello")) ≡ some (returned true (codes "hello"))
parse_chunked-build_chunked_example = parse_chunked-build_chunked (codes "hello") short
  where
    short : length (build_chunked (codes "hello")) < 2 ^ 63
    short = rw built (omega arith)

parse_chunked_total_example : (o : ChunkOutcome) × (parse_chunked (codes "5;x\r\nhel") ≡ some o)
parse_chunked_total_example = parse_chunked_total (codes "5;x\r\nhel")

abbrev huge_size : List ℕ
huge_size = codes "fffffffffffffff0"

huge_size-IsSizeLine : IsSizeLine huge_size (2 ^ 64 - 16)
unfolding parse_hex_size is_size_character
huge_size-IsSizeLine = record { clean = refl; value = refl }

parse_chunked_wraps_example :
    parse_chunked (huge_size ++ (crlf ++ codes "body")) ≡ some length_error
parse_chunked_wraps_example =
    parse_chunked_wraps huge_size (codes "body") (2 ^ 64 - 16) huge_size-IsSizeLine (omega arith)
      (omega arith) (omega arith) (omega arith)

abbrev headerless : List ℕ
headerless = codes "GET / HTTP/1.0" ++ (crlf ++ crlf)

headerless_end : (find (crlf ++ crlf) headerless ≡ some 14) × (find crlf headerless ≡ some 14)
unfolding find
headerless_end = (refl, refl)

parse-headerless_example :
    (parse_request headerless no_request ≡ (false, clear_request no_request))
    × (parse_response headerless no_response ≡ (false, clear_response no_response))
parse-headerless_example =
    parse-headerless headerless no_request no_response 14 (headerless_end.0) (headerless_end.1)

abbrev host_header : List (List ℕ × List ℕ)
host_header = (codes "Host", codes "a.b") ∷ []

sendable_request : CanSend (codes "POST") (codes "/a?x=1") host_header (codes "abc")
unfolding is_valid_header_name append_headers append_unsigned_decimal trim case_insensitive_compare
sendable_request = record {
  token = refl;
  named = omega arith;
  one_line = refl;
  one_word = refl;
  sorted = (tt, tt);
  sendable = (record { name = refl; one_line = refl; trimmed = refl; short = omega arith }, tt);
  others = (refl, tt);
  few = omega arith;
  short = omega arith;
  section = omega arith;
  small = omega arith;
}

parse_request-build_request_example :
    (q : HttpRequestView) × (parse_request
        (build_request (codes "POST") (codes "/a?x=1") host_header (codes "abc"))
        no_request
      ≡ (true, q))
    × (q.method ≡ codes "POST")
    × (q.target ≡ codes "/a?x=1")
    × (q.version ≡ codes "HTTP/1.1")
    × (q.headers
        ≡ assign_header content_length (append_unsigned_decimal (length (codes "abc"))) host_header)
    × (q.body ≡ codes "abc")
parse_request-build_request_example =
    parse_request-build_request (codes "POST") (codes "/a?x=1") host_header (codes "abc") no_request
      sendable_request
