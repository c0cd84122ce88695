-- ===== src/WebSocketProtocol/Frame/Layout.antt =====
-- The encoder fills a buffer of a size that it computes first; here that buffer is a header, a mask
-- key and a payload, one behind the other, with no byte left over.
use fast_net.Prelude.{ℕ, ◌+◌, ◌-◌, ◌≤◌, ◌≡◌, refl, sym, ap, ◌∙◌, arith}
use fast_net.Prelude.{bit_or, Bool, true, false, List, [], ◌∷◌, ◌++◌, append-nil, append_assoc}
use fast_net.Prelude.{
  length, length-append, length-replicate, replicate, replicate-add, if◌then◌else◌,
}
use fast_net.Prelude.Memory.{write_bytes, write_bytes-append}
use fast_net.WebSocketProtocol.Frame.{
  FrameType, opcode_for_type, frame_header_size, write_payload_length, mask_bytes, encode_frame,
}
use fast_net.WebSocketProtocol.Frame.Bytes.{length-big_endian, length-mask_bytes}

-- `frameHeaderSize` foresees exactly the bytes that `writePayloadLength` writes, the two bytes at
-- the front of which it writes one, and the mask key.
header_size_lem :
    (n : ℕ) (masked : Bool)
    → frame_header_size n masked
      ≡ 1 + length (write_payload_length n masked) + (if masked then 4 else 0)
unfolding frame_header_size write_payload_length
header_size_lem n masked = ground (arith, length-big_endian 2 n, length-big_endian 8 n)

-- Writing into the zeros behind what is already written.
fill :
    (front new : List ℕ) (k : ℕ)
    → length new ≤ k
    → write_bytes (front ++ replicate k 0) (length front) new
      ≡ (front ++ new) ++ replicate (k - length new) 0
fill front new k h =
    ap (λ l. write_bytes (front ++ l) (length front) new)
      (replicate-add (length new) (k - length new) k 0 (omega arith))
    ∙ write_bytes-append front (replicate (length new) 0) new (replicate (k - length new) 0)
        (length front) (length-replicate {A = ℕ} (length new) 0) refl
    ∙ sym (append_assoc front new (replicate (k - length new) 0))

-- What a frame is.
unfoldable pub layout : List ℕ → FrameType → Bool → List ℕ → List ℕ
layout payload type masked mask =
    bit_or 0x80 (opcode_for_type type)
    ∷ (write_payload_length (length payload) masked
        ++ (if masked then mask ++ mask_bytes mask 0 payload else payload))

module _ (payload : List ℕ) (type : FrameType) (masked : Bool) (mask : List ℕ) where
  first : List ℕ
  first = bit_or 0x80 (opcode_for_type type) ∷ []

  written : List ℕ
  written = write_payload_length (length payload) masked

  size : ℕ
  size = frame_header_size (length payload) masked + length payload

  -- The buffer once the header bytes stand in it.
  headed :
      (left : ℕ)
      → left + 1 + length written ≡ size
      → write_bytes (write_bytes (replicate size 0) 0 first) 1 written
        ≡ (first ++ written) ++ replicate left 0
  unfolding first written size
  headed left h =
      ap (λ b. write_bytes b 1 written)
        (fill [] first size (omega (arith, header_size_lem (length payload) masked)))
      ∙ fill first written (size - 1) (omega (arith, header_size_lem (length payload) masked))
      ∙ ap (λ k. (first ++ written) ++ replicate k 0) (omega arith)

-- Filling up the last zeros.
fill_last :
    (front new : List ℕ) (k offset : ℕ)
    → length new ≡ k
    → offset ≡ length front
    → write_bytes (front ++ replicate k 0) offset new ≡ front ++ new
fill_last front new k offset h e =
    let none_left : k - length new ≡ 0 = omega arith in
    ap (λ j. write_bytes (front ++ replicate k 0) j new) e
    ∙ fill front new k (omega arith)
    ∙ ap (λ j. (front ++ new) ++ replicate j 0) none_left
    ∙ append-nil (front ++ new)

module _ (payload : List ℕ) (type : FrameType) (mask : List ℕ) where
  plain : encode_frame payload type false mask ≡ layout payload type false mask
  unfolding encode_frame layout first written size
  plain =
      let w = write_payload_length (length payload) false in
      ap (λ b. write_bytes b (1 + length w) payload)
        (headed payload type false mask (length payload)
          (omega (arith, header_size_lem (length payload) false)))
      ∙ fill_last (bit_or 0x80 (opcode_for_type type) ∷ w) payload (length payload) (1 + length w)
          refl (omega arith)

  keyed : length mask ≡ 4 → encode_frame payload type true mask ≡ layout payload type true mask
  unfolding encode_frame layout first written size
  keyed h =
      let w = write_payload_length (length payload) true in
      let front = bit_or 0x80 (opcode_for_type type) ∷ w in
      let masked = mask_bytes mask 0 payload in
      let n = length payload in
      ap (λ b. write_bytes (write_bytes b (1 + length w) mask) (1 + length w + 4) masked)
        (headed payload type true mask (4 + n) (omega (arith, header_size_lem n true)))
      ∙ ap
          (λ j.
            write_bytes (write_bytes (front ++ replicate (4 + n) 0) j mask) (1 + length w + 4)
              masked)
          (omega arith)
      ∙ ap (λ b. write_bytes b (1 + length w + 4) masked) (fill front mask (4 + n) (omega arith))
      ∙ fill_last (front ++ mask) masked (4 + n - length mask) (1 + length w + 4)
          (omega (arith, length-mask_bytes mask 0 payload))
          (omega (arith, length-append front mask))
      ∙ append_assoc front mask masked

pub encode_frame-layout :
    (payload : List ℕ) (type : FrameType) (masked : Bool) (mask : List ℕ)
    → length mask ≡ 4
    → encode_frame payload type masked mask ≡ layout payload type masked mask
encode_frame-layout payload type false mask h = plain payload type mask
encode_frame-layout payload type true mask h = keyed payload type mask h
