-- ===== src/WebSocketProtocol/Frame/Fields.antt =====
-- The header that the decoder reads from what the encoder wrote.
use fast_net.Prelude.{ℕ, ◌+◌, ◌/◌, ◌%◌, ◌^◌, ◌≤◌, ◌<◌, ◌≡◌, refl, ◌∙◌, arith}
use fast_net.Prelude.{bit_and, bit_or, Bool, true, false, not, ◌&&◌, Bool-cases, inl, inr, some}
use fast_net.Prelude.{List, [], ◌∷◌, ◌++◌, ◌==◌, ltb, leb, if◌then◌else◌}
use fast_net.Prelude.{length, length-append, take-append, drop-append, get_or, replicate}
use fast_net.Prelude.Bits.{shl, or_shl, and_mask, and_bit}
use fast_net.WebSocketProtocol.Frame.{FrameType, FrameMetadata, accepted}
use fast_net.WebSocketProtocol.Frame.{opcode_for_type, is_control_frame}
use fast_net.WebSocketProtocol.Frame.{
  big_endian, write_payload_length, read_payload_length, read_mask, read_header,
  frame_type_from_opcode, is_control_opcode,
}
use fast_net.WebSocketProtocol.Frame.Bytes.{opcode_fields, length-big_endian, read-big_endian}

abbrev mask_bit : Bool → ℕ
mask_bit m = if m then 0x80 else 0x00

-- The two fields of the second byte.
second_byte :
    (m : Bool) (n : ℕ)
    → n < 128
    → (bit_or (mask_bit m) n < 256)
      × (bit_and (bit_or (mask_bit m) n) 0x7F ≡ n)
      × ((bit_and (bit_or (mask_bit m) n) 0x80 == 0) ≡ not m)
second_byte true n h =
    ground (arith, or_shl 7 1 n h, and_mask 7 (bit_or 0x80 n), and_bit 7 (bit_or 0x80 n))
second_byte false n h =
    ground (arith, or_shl 7 0 n h, and_mask 7 (bit_or 0x00 n), and_bit 7 (bit_or 0x00 n))

-- The three forms of the length field, written and read.
module _ (n : ℕ) (m : Bool) where
  write_short : n < 126 → write_payload_length n m ≡ bit_or (mask_bit m) n ∷ []
  unfolding write_payload_length
  write_short h = ground (arith, second_byte m n)

  write_middle :
      126 ≤ n → n ≤ 0xFFFF → write_payload_length n m ≡ bit_or (mask_bit m) 126 ∷ big_endian 2 n
  unfolding write_payload_length
  write_middle h h' = ground arith

  write_long : 0xFFFF < n → write_payload_length n m ≡ bit_or (mask_bit m) 127 ∷ big_endian 8 n
  unfolding write_payload_length
  write_long h = ground arith

module _ (n b0 b1 : ℕ) (rest : List ℕ) where
  read_short : n < 126 → bit_and b1 0x7F ≡ n → read_payload_length (b0 ∷ b1 ∷ rest) b1 ≡ some (n, 2)
  unfolding read_payload_length
  read_short h e = ground arith

  middle_length :
      n ≤ 0xFFFF → bit_or (shl (bit_and (n / 2 ^ 8) 0xFF) 8) (bit_and (n / 2 ^ 0) 0xFF) ≡ n
  middle_length h =
      rw (and_mask 8 (n / 2 ^ 8), and_mask 8 (n / 2 ^ 0))
        (or_shl 8 (n / 2 ^ 8 % 256) (n / 2 ^ 0 % 256) (omega arith) ∙ omega arith)

  read_middle :
      126 ≤ n
      → n ≤ 0xFFFF
      → bit_and b1 0x7F ≡ 126
      → read_payload_length (b0 ∷ b1 ∷ (big_endian 2 n ++ rest)) b1 ≡ some (n, 4)
  unfolding read_payload_length big_endian
  read_middle h h' e = ground (arith, middle_length h')

  read_long :
      0xFFFF < n
      → n < 2 ^ 63
      → bit_and b1 0x7F ≡ 127
      → read_payload_length (b0 ∷ b1 ∷ (big_endian 8 n ++ rest)) b1 ≡ some (n, 10)
  unfolding read_payload_length
  read_long h h' e =
      rw
        (
          take-append 8 (big_endian 8 n) rest (length-big_endian 8 n),
          read-big_endian 8 0 n (omega arith) (omega arith),
        )
        (ground (arith, and_bit 63 n, length-append (big_endian 8 n) rest, length-big_endian 8 n))

-- The length field is read back, and the mask bit with it.
read-write :
    (n : ℕ) (m : Bool) (b0 : ℕ) (rest : List ℕ)
    → n < 2 ^ 63
    → (read_payload_length
          (b0 ∷ (write_payload_length n m ++ rest))
          (get_or (write_payload_length n m ++ rest) 0 0)
        ≡ some (n, 1 + length (write_payload_length n m)))
      × ((bit_and (get_or (write_payload_length n m ++ rest) 0 0) 0x80 == 0) ≡ not m)
read-write n m b0 rest h = elim (Bool-cases (ltb n 126)) [
  | inl short ↦
      let small : n < 126 = ground arith in
      let (_, value, flag) = second_byte m n (omega arith) in
      rw (write_short n m small) (read_short n b0 _ rest small value, flag)
  | inr more ↦ elim (Bool-cases (leb n 0xFFFF)) [
    | inl middle ↦
        let low : 126 ≤ n = ground arith in
        let high : n ≤ 0xFFFF = ground arith in
        let (_, value, flag) = second_byte m 126 (omega arith) in
        rw (write_middle n m low high, length-big_endian 2 n)
          (read_middle n b0 _ rest low high value, flag)
    | inr long ↦
        let low : 0xFFFF < n = ground arith in
        let (_, value, flag) = second_byte m 127 (omega arith) in
        rw (write_long n m low, length-big_endian 8 n) (read_long n b0 _ rest low h value, flag)
  ]
]

abbrev pub meta_for : FrameType → Bool → Bool → FrameMetadata
meta_for t final masked = record { type = t; final = final; masked = masked }

-- The payload of a frame, with or without a mask key, behind a header of `offset` bytes.
module _ (t : FrameType) (final : Bool) (front mask payload rest : List ℕ) where
  pub read_mask_keyed :
      length mask ≡ 4
      → read_mask
          (front ++ (mask ++ (payload ++ rest)))
          (meta_for t final true)
          (length front)
          (length payload)
        ≡ accepted (meta_for t final true) (length front + 4) (length payload) mask
  unfolding read_mask
  read_mask_keyed h =
      rw
        (
          drop-append (length front) front (mask ++ (payload ++ rest)) refl,
          take-append 4 mask (payload ++ rest) h,
        )
        (ground (
          arith,
          length-append front (mask ++ (payload ++ rest)),
          length-append mask (payload ++ rest),
          length-append payload rest,
        ))

  pub read_mask_plain :
      read_mask
        (front ++ (payload ++ rest))
        (meta_for t final false)
        (length front)
        (length payload)
      ≡ accepted (meta_for t final false) (length front) (length payload) (replicate 4 0)
  unfolding read_mask
  read_mask_plain =
      ground (arith, length-append front (payload ++ rest), length-append payload rest)

-- The checks on the first two bytes and the length field, from what they read.
read_header_passes :
    (bytes : List ℕ) (old : FrameMetadata) (t : FrameType) (m : Bool) (n offset : ℕ)
    → 2 ≤ length bytes
    → (bit_and (get_or bytes 0 0) 0x70 == 0) ≡ true
    → frame_type_from_opcode (bit_and (get_or bytes 0 0) 0x0F) ≡ some t
    → (bit_and (get_or bytes 0 0) 0x80 == 0) ≡ false
    → read_payload_length bytes (get_or bytes 1 0) ≡ some (n, offset)
    → (bit_and (get_or bytes 1 0) 0x80 == 0) ≡ not m
    → (is_control_opcode (bit_and (get_or bytes 0 0) 0x0F) && ltb 125 n) ≡ false
    → n < 2 ^ 63
    → read_header bytes old ≡ read_mask bytes (meta_for t true m) offset n
unfolding read_header
read_header_passes bytes old t true n offset h res op fin len masked ctl small = ground arith
read_header_passes bytes old t false n offset h res op fin len masked ctl small = ground arith

pub length-write_payload_length : (n : ℕ) (m : Bool) → 1 ≤ length (write_payload_length n m)
unfolding write_payload_length
length-write_payload_length n m = ground arith

pub read_header-layout :
    (t : FrameType) (m : Bool) (n : ℕ) (rest : List ℕ) (old : FrameMetadata)
    → n < 2 ^ 63
    → (is_control_frame t ≡ true → n ≤ 125)
    → let bytes = bit_or 0x80 (opcode_for_type t) ∷ (write_payload_length n m ++ rest) in
      read_header bytes old
      ≡ read_mask bytes (meta_for t true m) (1 + length (write_payload_length n m)) n
read_header-layout t m n rest old h hc =
    let b0 = bit_or 0x80 (opcode_for_type t) in
    let (type_read, final, reserved, control) = opcode_fields t in
    let (len, masked) = read-write n m b0 rest h in
    read_header_passes (b0 ∷ (write_payload_length n m ++ rest)) old t m n
      (1 + length (write_payload_length n m))
      (omega
        (arith, length-append (write_payload_length n m) rest, length-write_payload_length n m))
      reserved type_read final len masked (rw control (small_control (is_control_frame t) n hc)) h
  where
    small_control : (c : Bool) (k : ℕ) → (c ≡ true → k ≤ 125) → (c && ltb 125 k) ≡ false
    small_control true k small = let le : k ≤ 125 = small refl in ground arith
    small_control false k small = refl
