-- ===== src/WebSocketProtocol/Handshake.antt =====
-- The opening handshake of src/WebSocketProtocol.cpp: the client's key, the server's answer, and the
-- random bytes of keys and masks. The engine's outputs, 64-bit numbers, are a parameter.
pub mod Keys
pub mod Reply
mod Tests
use fast_net.Prelude.{ℕ, zero, suc, ◌+◌, ◌/◌, ◌%◌, Option, none, some, List, [], ◌∷◌, ◌++◌, codes}
use fast_net.Base64.{base64_encode}
use fast_net.WebSocketProtocol.Sha1.{sha1_digest}

-- The first `count` bytes of a number in memory, on a little-endian machine.
unfoldable pub little_endian : (count value : ℕ) → List ℕ
little_endian zero value = []
little_endian (suc n) value = value % 256 ∷ little_endian n (value / 256)

-- Eight bytes for each output of the engine, and the last output for what is left.
unfoldable pub fill_random_bytes : (ℕ → ℕ) → ℕ → List ℕ
fill_random_bytes engine (suc (suc (suc (suc (suc (suc (suc (suc length)))))))) =
    little_endian 8 (engine 0) ++ fill_random_bytes (λ i. engine (i + 1)) length
fill_random_bytes engine length = little_endian length (engine 0)

unfoldable pub generate_mask_key : (ℕ → ℕ) → List ℕ
generate_mask_key engine = fill_random_bytes engine 4

unfoldable pub create_handshake_key : (ℕ → ℕ) → List ℕ
create_handshake_key engine = base64_encode (fill_random_bytes engine 16)

abbrev pub guid : List ℕ
guid = codes "258EAFA5-E914-47DA-95CA-C5AB0DC85B11"

-- `none` only if the fuel of `sha1_digest` ran out.
unfoldable pub create_accept_key : List ℕ → Option (List ℕ)
create_accept_key key = elim (sha1_digest (key ++ guid)) [
  | none ↦ none
  | some digest ↦ some (base64_encode digest)
]

abbrev pub crlf : List ℕ
crlf = 13 ∷ 10 ∷ []

unfoldable pub create_handshake_response : List ℕ → Option (List ℕ)
create_handshake_response key = elim (create_accept_key key) [
  | none ↦ none
  | some accept_key ↦ some (
      (codes "HTTP/1.1 101 Switching Protocols" ++ crlf)
      ++ ((codes "Upgrade: websocket" ++ crlf)
          ++ ((codes "Connection: Upgrade" ++ crlf)
              ++ (codes "Sec-WebSocket-Accept: " ++ (accept_key ++ (crlf ++ crlf))))))
]
