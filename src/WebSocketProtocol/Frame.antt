-- ===== src/WebSocketProtocol/Frame.antt =====
-- The frame codec of src/WebSocketProtocol.cpp. A text or buffer is the list of its bytes.
pub mod Bytes
pub mod Layout
pub mod Fields
pub mod RoundTrip
pub mod Sound
pub mod Overloads
mod Tests
use fast_net.Prelude.{ℕ, zero, suc, ◌+◌, ◌-◌, ◌*◌, ◌%◌, ◌^◌, bit_and, bit_or, bit_xor}
use fast_net.Prelude.{Bool, true, false, not, ◌&&◌, ◌||◌, Option, none, some, List, [], ◌∷◌, ◌++◌}
use fast_net.Prelude.{ltb, leb, ◌==◌, if◌then◌else◌, is_none, is_empty}
use fast_net.Prelude.{length, get_or, take, drop, replicate, set}
use fast_net.Prelude.Bits.{shl, shr}
use fast_net.Prelude.Memory.{write_bytes}

-- `WSFrameType`
pub data FrameType : Type 0 where
  text binary close ping pong : FrameType

-- `WSFrameMetadata`
pub record FrameMetadata : Type 0 where
  pub type : FrameType
  pub final : Bool
  pub masked : Bool

-- `WSFrameMetadata{}`
abbrev pub default_metadata : FrameMetadata
default_metadata = record { type = text; final = true; masked = false }

unfoldable pub opcode_for_type : FrameType → ℕ
opcode_for_type text = 0x01
opcode_for_type binary = 0x02
opcode_for_type close = 0x08
opcode_for_type ping = 0x09
opcode_for_type pong = 0x0A

unfoldable pub frame_type_from_opcode : ℕ → Option FrameType
frame_type_from_opcode opcode =
    if opcode == 0x01
    then some text
    else if opcode == 0x02
    then some binary
    else if opcode == 0x08
    then some close
    else if opcode == 0x09
    then some ping
    else if opcode == 0x0A
    then some pong
    else none

unfoldable pub is_control_opcode : ℕ → Bool
is_control_opcode opcode = opcode == 0x08 || (opcode == 0x09 || opcode == 0x0A)

unfoldable pub is_control_frame : FrameType → Bool
is_control_frame close = true
is_control_frame ping = true
is_control_frame pong = true
is_control_frame _ = false

unfoldable pub frame_header_size : ℕ → Bool → ℕ
frame_header_size payload_length masked =
    let wide : ℕ =
      if leb 126 payload_length && leb payload_length 0xFFFF
      then 2
      else if ltb 0xFFFF payload_length
      then 8
      else 0 in
    2 + wide + (if masked then 4 else 0)

-- `count` rounds of `(payloadLength >> shift) & 0xFF`, for shift from 8 * (count - 1) down to 0.
unfoldable pub big_endian : (count payload_length : ℕ) → List ℕ
big_endian zero payload_length = []
big_endian (suc i) payload_length =
    bit_and (shr payload_length (8 * i)) 0xFF ∷ big_endian i payload_length

-- The bytes that are written at `destination`; their number is the returned offset.
unfoldable pub write_payload_length : ℕ → Bool → List ℕ
write_payload_length payload_length masked =
    let mask_bit : ℕ = if masked then 0x80 else 0x00 in
    if ltb payload_length 126
    then bit_or mask_bit payload_length % 256 ∷ []
    else if leb payload_length 0xFFFF
    then bit_or mask_bit 126 ∷ big_endian 2 payload_length
    else bit_or mask_bit 127 ∷ big_endian 8 payload_length

-- `bytes[i] ^ mask[i & 0x03]` for the bytes from index `i` on.
unfoldable pub mask_bytes : List ℕ → ℕ → List ℕ → List ℕ
mask_bytes mask i [] = []
mask_bytes mask i (b ∷ bytes) =
    bit_xor b (get_or mask (bit_and i 0x03) 0) ∷ mask_bytes mask (i + 1) bytes

-- `encodeFrame`; `mask` is what `generateMaskKey` returned, which is read only for a masked frame.
unfoldable pub encode_frame : List ℕ → FrameType → Bool → List ℕ → List ℕ
encode_frame payload type mask_payload mask =
    let payload_length = length payload in
    let frame = replicate (frame_header_size payload_length mask_payload + payload_length) 0 in
    let frame = write_bytes frame 0 (bit_or 0x80 (opcode_for_type type) ∷ []) in
    let written = write_payload_length payload_length mask_payload in
    let frame = write_bytes frame 1 written in
    let offset = 1 + length written in
    if not mask_payload
    then write_bytes frame offset payload
    else write_bytes (write_bytes frame offset mask) (offset + 4) (mask_bytes mask 0 payload)

unfoldable pub is_valid_close_payload : List ℕ → Bool
is_valid_close_payload [] = true
is_valid_close_payload (b0 ∷ []) = false
is_valid_close_payload (b0 ∷ b1 ∷ reason) =
    let code = bit_or (shl b0 8 % 2 ^ 16) b1 in
    if ltb code 1000
    then false
    else if code == 1004 || (code == 1005 || (code == 1006 || code == 1015))
    then false
    else if (leb 1016 code && leb code 1999) || (leb 2000 code && leb code 2999)
    then false
    else true

-- `payloadLength = (payloadLength << 8) | bytes[offset++]`, in 64 bits.
unfoldable pub read_big_endian : ℕ → List ℕ → ℕ
read_big_endian acc [] = acc
read_big_endian acc (b ∷ bytes) = read_big_endian (bit_or (shl acc 8 % 2 ^ 64) b) bytes

-- The payload length and the offset behind it; `none` is the early `return false`.
unfoldable pub read_payload_length : List ℕ → ℕ → Option (ℕ × ℕ)
read_payload_length bytes second_byte =
    let short = bit_and second_byte 0x7F in
    let middle = bit_or (shl (get_or bytes 2 0) 8) (get_or bytes 3 0) in
    let long = read_big_endian 0 (take 8 (drop 2 bytes)) in
    if short == 126
    then if ltb (length bytes) (2 + 2)
      then none
      else if ltb middle 126
      then none
      else some (middle, 2 + 2)
    else if short == 127
    then if ltb (length bytes) (2 + 8)
      then none
      else if leb long 0xFFFF || not (bit_and long (2 ^ 63) == 0)
      then none
      else some (long, 2 + 8)
    else some (short, 2)

-- What the checks before the payload leave: the metadata of a refused frame, or of an accepted one
-- with the payload's offset and size and the mask key.
pub data Header : Type 0 where
  refused : FrameMetadata → Header
  accepted : FrameMetadata → (offset payload_size : ℕ) → List ℕ → Header

-- The mask key, and the check that the payload is there.
unfoldable pub read_mask : List ℕ → FrameMetadata → (offset payload_length : ℕ) → Header
read_mask bytes metadata offset payload_length =
    let behind = if metadata.masked then offset + 4 else offset in
    let mask = if metadata.masked then take 4 (drop offset bytes) else replicate 4 0 in
    if metadata.masked && ltb (length bytes) (offset + 4)
    then refused metadata
    else if ltb (length bytes) behind || ltb (length bytes - behind) payload_length
    then refused metadata
    else accepted metadata behind payload_length mask

unfoldable pub read_header : List ℕ → FrameMetadata → Header
read_header bytes old =
    let first_byte = get_or bytes 0 0 in
    let second_byte = get_or bytes 1 0 in
    let fin = not (bit_and first_byte 0x80 == 0) in
    let reserved_bits = bit_and first_byte 0x70 in
    let opcode = bit_and first_byte 0x0F in
    if ltb (length bytes) 2
    then refused old
    else if not (reserved_bits == 0)
    then refused default_metadata
    else elim (frame_type_from_opcode opcode) [
      | none ↦ refused default_metadata
      | some type ↦ elim (read_payload_length bytes second_byte) [
        | none ↦ refused (record default_metadata { type = type })
        | some (payload_length, offset) ↦
            let metadata : FrameMetadata = record {
              type = type;
              final = fin;
              masked = not (bit_and second_byte 0x80 == 0);
            } in
            if is_control_opcode opcode && (not fin || ltb 125 payload_length)
            then refused metadata
            else if ltb (2 ^ 64 - 1) payload_length
            then refused metadata
            else read_mask bytes metadata offset payload_length
      ]
    ]

-- The returned flag and what the two output arguments hold then.
pub record Decoded : Type 0 where
  pub good : Bool
  pub payload : List ℕ
  pub metadata : FrameMetadata

abbrev pub is_close : FrameType → Bool
is_close close = true
is_close _ = false

abbrev pub checked_close : FrameMetadata → List ℕ → Decoded
checked_close metadata payload = record {
  good = not (is_close metadata.type && not (is_valid_close_payload payload));
  payload = payload;
  metadata = metadata;
}

-- `decodeFrame` into a string, which is assigned or filled byte by byte.
unfoldable pub decode_frame : List ℕ → FrameMetadata → Decoded
decode_frame bytes old = elim (read_header bytes old) [
  | refused metadata ↦ record { good = false; payload = []; metadata = metadata }
  | accepted metadata offset payload_size mask ↦
      let slice = take payload_size (drop offset bytes) in
      let unmasked = mask_bytes mask 0 slice in
      checked_close metadata (if not metadata.masked then slice else unmasked)
]

-- `rounds` rounds of `payload[i] = bytes[offset + i] ^ mask[i & 0x03]` from index `i` on.
unfoldable pub unmask_into : (rounds i : ℕ) → List ℕ → (offset : ℕ) → List ℕ → List ℕ → List ℕ
unmask_into zero i bytes offset mask payload = payload
unmask_into (suc rounds) i bytes offset mask payload =
    unmask_into rounds (i + 1) bytes offset mask
      (set payload i (bit_xor (get_or bytes (offset + i) 0) (get_or mask (bit_and i 0x03) 0)))

-- `decodeFrame` into a `Buffer`, which is resized first and written in place.
unfoldable pub decode_frame_buffer : List ℕ → FrameMetadata → Decoded
unfolding unmask_into
decode_frame_buffer bytes old = elim (read_header bytes old) [
  | refused metadata ↦ record { good = false; payload = []; metadata = metadata }
  | accepted metadata offset payload_size mask ↦
      let resized = replicate payload_size 0 in
      let copied =
        if not (payload_size == 0)
        then write_bytes resized 0 (take payload_size (drop offset bytes))
        else resized in
      let unmasked = unmask_into payload_size 0 bytes offset mask resized in
      checked_close metadata (if not metadata.masked then copied else unmasked)
]

-- The overload for complete frames: the flag, the payload and the type.
unfoldable pub decode_final_frame : List ℕ → FrameType → Bool × List ℕ × FrameType
decode_final_frame bytes old_type =
    let decoded = decode_frame bytes default_metadata in
    if not decoded.good
    then (false, decoded.payload, old_type)
    else if not decoded.metadata.final
    then (false, decoded.payload, old_type)
    else (true, decoded.payload, decoded.metadata.type)
