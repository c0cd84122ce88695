-- ===== src/HttpParser/Views.antt =====
-- HttpRequestView and HttpResponseView of include/FastNet/HttpParser.h, with their methods in
-- src/HttpParser.cpp.
use fast_net.Prelude.{ℕ, Bool, false, not}
use fast_net.Prelude.{none, some, List, [], codes}
use fast_net.Prelude.{if◌then◌else◌}
use fast_net.HttpParser.Text.{case_insensitive_compare, contains_token}
use fast_net.HttpParser.Headers.{HeaderMap, get_header, content_length_from_headers}
use mathlib.Core.Option

pub record HttpRequestView : Type 0 where
  pub method : List ℕ
  pub target : List ℕ
  pub uri : List ℕ
  pub query_string : List ℕ
  pub version : List ℕ
  pub headers : HeaderMap
  pub body : List ℕ
  pub query_params : HeaderMap

pub record HttpResponseView : Type 0 where
  pub status_code : ℕ
  pub status_message : List ℕ
  pub version : List ℕ
  pub headers : HeaderMap
  pub body : List ℕ

-- `HttpRequestView::clear`
abbrev pub clear_request : HttpRequestView → HttpRequestView
clear_request request = record {
  method = [];
  target = [];
  uri = [];
  query_string = [];
  version = [];
  headers = [];
  body = [];
  query_params = [];
}

-- `HttpResponseView::clear`
abbrev pub clear_response : HttpResponseView → HttpResponseView
clear_response response = record {
  status_code = 200;
  status_message = codes "OK";
  version = [];
  headers = [];
  body = [];
}

-- `isKeepAlive` of both views.
unfoldable pub is_keep_alive : (version : List ℕ) → HeaderMap → Bool
is_keep_alive version headers =
    let wanted : List ℕ → Bool = λ token. elim (get_header headers (codes "Connection")) [
      | none ↦ false
      | some connection ↦ contains_token connection token
    ] in
    if case_insensitive_compare version (codes "HTTP/1.0")
    then wanted (codes "keep-alive")
    else not (wanted (codes "close"))

-- `getContentLength` of both views.
unfoldable pub get_content_length : HeaderMap → ℕ
get_content_length headers = Option.get_or (content_length_from_headers headers) 0
