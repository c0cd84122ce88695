-- ===== src/WebSocketProtocol/Handshake/Tests.antt =====
-- The exchange of RFC 6455, section 1.3, and the theorems at concrete inputs.
use fast_net.Prelude.{ℕ, ◌+◌, ◌*◌, ◌≡◌, refl, true, some, List, [], ◌∷◌, ◌++◌, length, codes}
use fast_net.Prelude.Memory.{write_bytes}
use fast_net.Base64.{base64_encode, encode_bytes, encode_group, try_base64_decode}
use fast_net.WebSocketProtocol.Sha1.{
  sha1_digest, update, update_loop, flush, process_block, finalize, finish, finish_last,
}
use fast_net.WebSocketProtocol.Sha1.{put_byte, put_zeros, put_bytes, finish_block, reset, digest}
use fast_net.WebSocketProtocol.Sha1.Rfc3174.{sha1}
use fast_net.HttpParser.Headers.{get_header}
use fast_net.HttpParser.Message.{parse_response}
use fast_net.HttpParser.Views.{HttpResponseView}
use fast_net.WebSocketProtocol.Handshake.{create_accept_key, create_handshake_response}
use fast_net.WebSocketProtocol.Handshake.Reply.{parse_response-create_handshake_response}
use fast_net.WebSocketProtocol.Handshake.Keys.{create_accept_key-decodes}

abbrev sample_key : List ℕ
sample_key = codes "dGhlIHNhbXBsZSBub25jZQ=="

sample_accept_key : create_accept_key sample_key ≡ some (codes "s3pPLMBiTxaQ9kYGzzhZRbK+xOo=")
unfolding create_accept_key sha1_digest update update_loop flush process_block finalize finish
    finish_last put_byte put_zeros put_bytes finish_block reset write_bytes digest base64_encode
    encode_bytes encode_group
sample_accept_key = refl

-- An engine for the tests.
abbrev squares : ℕ → ℕ
squares i = (i + 0x1234_5678_9abc) * (i + 0x1234_5678)

create_accept_key-decodes_example :
    let hash = sha1 (sample_key ++ codes "258EAFA5-E914-47DA-95CA-C5AB0DC85B11") in
    (create_accept_key sample_key ≡ some (base64_encode hash))
    × (try_base64_decode (base64_encode hash) ≡ (true, hash))
    × (length (base64_encode hash) ≡ 28)
create_accept_key-decodes_example = create_accept_key-decodes sample_key

-- A view that an earlier message filled, and the first bytes of a frame behind the answer.
abbrev used_view : HttpResponseView
used_view = record {
  status_code = 404;
  status_message = codes "Not Found";
  version = codes "HTTP/1.0";
  headers = (codes "Server", codes "a") ∷ [];
  body = codes "none";
}

parse_response-create_handshake_response_example :
    (accept reply : List ℕ) × (view : HttpResponseView) × (create_accept_key sample_key
      ≡ some accept)
    × (create_handshake_response sample_key ≡ some reply)
    × (parse_response (reply ++ (0x81 ∷ 0 ∷ [])) used_view ≡ (true, view))
    × (view.status_code ≡ 101)
    × (view.body ≡ [])
    × (get_header view.headers (codes "Upgrade") ≡ some (codes "websocket"))
    × (get_header view.headers (codes "Connection") ≡ some (codes "Upgrade"))
    × (get_header view.headers (codes "Sec-WebSocket-Accept") ≡ some accept)
parse_response-create_handshake_response_example =
    parse_response-create_handshake_response sample_key (0x81 ∷ 0 ∷ []) used_view
