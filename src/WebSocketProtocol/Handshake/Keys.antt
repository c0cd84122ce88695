-- ===== src/WebSocketProtocol/Handshake/Keys.antt =====
-- The keys have the form that RFC 6455 asks for.
use fast_net.Prelude.{ℕ, zero, suc, ◌+◌, ◌/◌, ◌≡◌, refl, ap, arith, true, some}
use fast_net.Prelude.{List, codes, ◌++◌, All, All-append, IsByte, length, length-append}
use fast_net.Base64.{base64_encode, try_base64_decode}
use fast_net.Base64.Encode.{IsEncoded, base64_encode_shape}
use fast_net.Base64.RoundTrip.{decode-encode}
use fast_net.WebSocketProtocol.Sha1.Rfc3174.{
  hash_blocks, padded, hash_octets, octets, sha1, initial,
}
use fast_net.WebSocketProtocol.Sha1.Padding.{sha1_digest_lem}
use fast_net.WebSocketProtocol.Handshake.{little_endian, fill_random_bytes, generate_mask_key}
use fast_net.WebSocketProtocol.Handshake.{create_handshake_key, create_accept_key, guid}

-- A string of `n` bytes.
abbrev Bytes : ℕ → List ℕ → Type 0
Bytes n xs = All IsByte xs × (length xs ≡ n)

Bytes-append : (m n : ℕ) (xs ys : List ℕ) → Bytes m xs → Bytes n ys → Bytes (m + n) (xs ++ ys)
Bytes-append m n xs ys (bx, lx) (by, ly) =
    (All-append IsByte xs ys bx by, omega (arith, length-append xs ys))

little_endian-Bytes : (n v : ℕ) → Bytes n (little_endian n v)
unfolding little_endian
little_endian-Bytes zero v = (tt, refl)
little_endian-Bytes (suc n) v =
    let (bytes, len) = little_endian-Bytes n (v / 256) in ((omega arith, bytes), ap suc len)

-- Every mask key is four bytes, which is what the frame theorems ask of it.
pub generate_mask_key-Bytes :
    (engine : ℕ → ℕ)
    → All IsByte (generate_mask_key engine) × (length (generate_mask_key engine) ≡ 4)
unfolding generate_mask_key fill_random_bytes
generate_mask_key-Bytes engine = little_endian-Bytes 4 (engine 0)

nonce-Bytes : (engine : ℕ → ℕ) → Bytes 16 (fill_random_bytes engine 16)
unfolding fill_random_bytes
nonce-Bytes engine =
    Bytes-append 8 8 _ _ (little_endian-Bytes 8 (engine 0))
      (Bytes-append 8 0 _ _ (little_endian-Bytes 8 (engine 1)) (little_endian-Bytes 0 (engine 2)))

octets-Bytes : (n v : ℕ) → Bytes n (octets n v)
unfolding octets
octets-Bytes zero v = (tt, refl)
octets-Bytes (suc n) v = let (bytes, len) = octets-Bytes n v in ((omega arith, bytes), ap suc len)

sha1-Bytes : (message : List ℕ) → Bytes 20 (sha1 message)
unfolding sha1 hash_octets
sha1-Bytes message =
    let w = hash_blocks (length (padded message) / 64) (padded message) initial in
    let word = octets 4 in
    let of = octets-Bytes 4 in
    let de = word w.d ++ word w.e in
    let cde = word w.c ++ de in
    Bytes-append 4 16 (word w.a) (word w.b ++ cde) (of w.a) (
      Bytes-append 4 12 (word w.b) cde (of w.b) (
        Bytes-append 4 8 (word w.c) de (of w.c)
          (Bytes-append 4 4 (word w.d) (word w.e) (of w.d) (of w.e))))

-- The client's key is the Base64 form of a nonce of sixteen bytes, in 24 characters.
pub create_handshake_key-decodes :
    (engine : ℕ → ℕ)
    → (try_base64_decode (create_handshake_key engine) ≡ (true, fill_random_bytes engine 16))
      × (length (fill_random_bytes engine 16) ≡ 16)
      × (length (create_handshake_key engine) ≡ 24)
unfolding create_handshake_key
create_handshake_key-decodes engine =
    let (bytes, len) = nonce-Bytes engine in
    (
      (decode-encode (fill_random_bytes engine 16) bytes).0,
      len,
      omega (arith, (base64_encode_shape (fill_random_bytes engine 16) bytes).1),
    )

-- The server's answer to any key exists, has 28 characters, and is the Base64 form of the SHA-1
-- hash of RFC 3174 of the key followed by the identifier of RFC 6455.
pub create_accept_key-decodes :
    (key : List ℕ)
    → let hash = sha1 (key ++ codes "258EAFA5-E914-47DA-95CA-C5AB0DC85B11") in
      (create_accept_key key ≡ some (base64_encode hash))
      × (try_base64_decode (base64_encode hash) ≡ (true, hash))
      × (length (base64_encode hash) ≡ 28)
unfolding create_accept_key
create_accept_key-decodes key =
    let hash = sha1 (key ++ guid) in
    let (bytes, len) = sha1-Bytes (key ++ guid) in
    (
      rw (sha1_digest_lem (key ++ guid), create_accept_key) refl,
      (decode-encode hash bytes).0,
      omega (arith, (base64_encode_shape hash bytes).1),
    )

-- The same answer by its characters.
pub create_accept_key-encodes :
    (key : List ℕ)
    → (accept : List ℕ) × (create_accept_key key ≡ some accept)
      × All IsEncoded accept
      × (length accept ≡ 28)
create_accept_key-encodes key =
    let (made, _, len) = create_accept_key-decodes key in
    (
      base64_encode (sha1 (key ++ guid)),
      made,
      (base64_encode_shape (sha1 (key ++ guid)) (sha1-Bytes (key ++ guid)).0).0,
      len,
    )
