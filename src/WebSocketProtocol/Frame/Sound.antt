-- ===== src/WebSocketProtocol/Frame/Sound.antt =====
-- What the decoder guarantees of a frame that it accepts, whoever sent it.
use fast_net.Prelude.{ℕ, ◌+◌, ◌*◌, ◌%◌, ◌^◌, ◌≤◌, ◌<◌, ◌≡◌, refl, sym, ap, subst, ◌∙◌, arith}
use fast_net.Prelude.{
  bit_and, bit_or, Bool, true, false, not, ◌&&◌, ◌||◌, Option-cases, inl, inr, some,
}
use fast_net.Prelude.{List, [], ◌∷◌, All, All-take, All-drop, IsByte, ◌==◌, ltb, if◌then◌else◌}
use fast_net.Prelude.{length, length-take, length-drop, take, drop, get_or, replicate}
use fast_net.Prelude.Bits.{shl, or_shl, and_mask, and_bit}
use fast_net.WebSocketProtocol.Frame.{FrameType, FrameMetadata, Decoded, Header, accepted, refused}
use fast_net.WebSocketProtocol.Frame.{
  is_control_frame, is_close, checked_close, is_valid_close_payload, frame_header_size,
}
use fast_net.WebSocketProtocol.Frame.{
  read_big_endian, read_payload_length, read_mask, read_header, frame_type_from_opcode,
  is_control_opcode,
}
use fast_net.WebSocketProtocol.Frame.{mask_bytes, decode_frame}
use fast_net.WebSocketProtocol.Frame.Bytes.{
  get_or-IsByte, is_control_opcode-type, mask_bytes-IsByte, length-mask_bytes,
}

read_big_endian-lt :
    (acc : ℕ) (bytes : List ℕ)
    → All IsByte bytes
    → acc < 2 ^ 64
    → read_big_endian acc bytes < 2 ^ 64
unfolding read_big_endian
read_big_endian-lt acc [] h ha = ha
read_big_endian-lt acc (b ∷ bytes) h ha =
    read_big_endian-lt (bit_or (shl acc 8 % 2 ^ 64) b) bytes h.1 next
  where
    cut : shl acc 8 % 2 ^ 64 ≡ acc % 2 ^ 56 * 2 ^ 8
    cut = omega arith

    next : bit_or (shl acc 8 % 2 ^ 64) b < 2 ^ 64
    next = rw (cut, or_shl 8 (acc % 2 ^ 56) b h.0) (omega (arith, h.0))

-- The seven bits that the shortest form of a length has in the second byte.
abbrev pub length_code : ℕ → ℕ
length_code n = if ltb 0xFFFF n then 127 else if ltb 125 n then 126 else n

-- The length field has the one form that `frameHeaderSize` foresees for its value.
read_payload_length_sound :
    (bytes : List ℕ) (second n offset : ℕ)
    → All IsByte bytes
    → read_payload_length bytes second ≡ some (n, offset)
    → (offset ≡ frame_header_size n false) × (n < 2 ^ 63) × (bit_and second 0x7F ≡ length_code n)
unfolding read_payload_length frame_header_size
read_payload_length_sound bytes second n offset h e = ground (
  arith,
  and_mask 7 second,
  or_shl 8 (get_or bytes 2 0) (get_or bytes 3 0),
  get_or-IsByte bytes 2 h,
  get_or-IsByte bytes 3 h,
  and_bit 63 (read_big_endian 0 (take 8 (drop 2 bytes))),
  read_big_endian-lt 0 (take 8 (drop 2 bytes))
      (All-take IsByte 8 (drop 2 bytes) (All-drop IsByte 2 bytes h)),
)

pub read_mask_sound :
    (bytes : List ℕ) (meta got : FrameMetadata) (offset n offset' n' : ℕ) (mask : List ℕ)
    → read_mask bytes meta offset n ≡ accepted got offset' n' mask
    → (got ≡ meta)
      × (n' ≡ n)
      × (offset' ≡ offset + (if meta.masked then 4 else 0))
      × (offset' + n' ≤ length bytes)
      × (mask ≡ (if meta.masked then take 4 (drop offset bytes) else replicate 4 0))
unfolding read_mask
read_mask_sound bytes meta got offset n offset' n' mask e = ground arith

mask-IsByte :
    (m : Bool) (bytes : List ℕ) (offset : ℕ)
    → All IsByte bytes
    → All IsByte (if m then take 4 (drop offset bytes) else replicate 4 0)
mask-IsByte true bytes offset h =
    All-take IsByte 4 (drop offset bytes) (All-drop IsByte offset bytes h)
mask-IsByte false bytes offset h = omega arith

-- What an accepted header promises of the frame.
record Promises (bytes : List ℕ) (meta : FrameMetadata) (offset n : ℕ) (mask : List ℕ)
    : Type 0 where
  place : offset ≡ frame_header_size n meta.masked
  inside : offset + n ≤ length bytes
  size : n < 2 ^ 63
  form : bit_and (get_or bytes 1 0) 0x7F ≡ length_code n
  control : is_control_frame meta.type ≡ true → (meta.final ≡ true) × (n ≤ 125)
  key :
      mask
      ≡ (if meta.masked then take 4 (drop (frame_header_size n false) bytes) else replicate 4 0)

header_size-masked :
    (n : ℕ) (m : Bool) → frame_header_size n m ≡ frame_header_size n false + (if m then 4 else 0)
unfolding frame_header_size
header_size-masked n m = ground arith

abbrev pub first : List ℕ → ℕ
first bytes = get_or bytes 0 0

abbrev pub second : List ℕ → ℕ
second bytes = get_or bytes 1 0

abbrev pub fin_bit : List ℕ → Bool
fin_bit bytes = not (bit_and (first bytes) 0x80 == 0)

abbrev pub read_metadata : List ℕ → FrameType → FrameMetadata
read_metadata bytes t = record {
  type = t;
  final = fin_bit bytes;
  masked = not (bit_and (second bytes) 0x80 == 0);
}

pub read_header_inv :
    (bytes : List ℕ) (old meta : FrameMetadata) (offset n : ℕ) (mask : List ℕ)
    → read_header bytes old ≡ accepted meta offset n mask
    → (t : FrameType) × (n0 : ℕ) × (offset0 : ℕ) × (frame_type_from_opcode
          (bit_and (first bytes) 0x0F)
        ≡ some t)
      × (read_payload_length bytes (second bytes) ≡ some (n0, offset0))
      × ((is_control_opcode (bit_and (first bytes) 0x0F) && (not (fin_bit bytes) || ltb 125 n0))
          ≡ false)
      × (read_mask bytes (read_metadata bytes t) offset0 n0 ≡ accepted meta offset n mask)
unfolding read_header
read_header_inv bytes old meta offset n mask e =
    elim (Option-cases (frame_type_from_opcode (bit_and (first bytes) 0x0F))) [
      | inl bad ↦ absurd (ground arith)
      | inr (t, et) ↦ elim (Option-cases (read_payload_length bytes (second bytes))) [
        | inl bad ↦ absurd (ground arith)
        | inr ((n0, offset0), el) ↦ (t, n0, offset0, et, el, ground arith, ground arith)
      ]
    ]

control_test :
    (c fin : Bool) (n : ℕ)
    → (c && (not fin || ltb 125 n)) ≡ false
    → c ≡ true
    → (fin ≡ true) × (n ≤ 125)
control_test c fin n h e = ground arith

read_header_sound :
    (bytes : List ℕ) (old meta : FrameMetadata) (offset n : ℕ) (mask : List ℕ)
    → All IsByte bytes
    → read_header bytes old ≡ accepted meta offset n mask
    → Promises bytes meta offset n mask
read_header_sound bytes old meta offset n mask h e =
    let (t, n0, offset0, et, el, ctl, em) = read_header_inv bytes old meta offset n mask e in
    let (place0, size0, form0) = read_payload_length_sound bytes (second bytes) n0 offset0 h el in
    let (same, en, eo, fits, key) =
      read_mask_sound bytes (read_metadata bytes t) meta offset0 n0 offset n mask em in
    let m = (read_metadata bytes t).masked in
    record {
      place = rw (same, en, header_size-masked n0 m) (omega arith);
      inside = fits;
      size = omega arith;
      form = rw en form0;
      control = λ c.
          let is_control =
            is_control_opcode-type (bit_and (first bytes) 0x0F) et ∙ (rw same at c) in
          rw (same, en) (control_test _ (fin_bit bytes) n0 ctl is_control);
      key = rw same (
          key
          ∙ ap (λ k. if m then take 4 (drop k bytes) else replicate 4 0)
              (place0 ∙ ap (λ j. frame_header_size j false) (sym en)));
    }

pub length-cut :
    (n offset : ℕ) (bytes : List ℕ)
    → offset + n ≤ length bytes
    → length (take n (drop offset bytes)) ≡ n
length-cut n offset bytes h =
    omega (arith, length-take n (drop offset bytes), length-drop offset bytes)

-- What a receiver may rely on.
pub record IsAcceptable (bytes : List ℕ) (d : Decoded) : Type 0 where
  -- The second byte begins the shortest form of the payload's length.
  pub form : bit_and (get_or bytes 1 0) 0x7F ≡ length_code (length d.payload)
  -- The header of that form and the payload stand inside what was received.
  pub inside :
      frame_header_size (length d.payload) d.metadata.masked + length d.payload ≤ length bytes
  pub size : length d.payload < 2 ^ 63
  pub control :
      is_control_frame d.metadata.type ≡ true → (d.metadata.final ≡ true) × (length d.payload ≤ 125)
  pub closing : is_close d.metadata.type ≡ true → is_valid_close_payload d.payload ≡ true
  pub octets : All IsByte d.payload

checked_close_sound :
    (meta : FrameMetadata) (payload : List ℕ)
    → (checked_close meta payload).good ≡ true
    → is_close meta.type ≡ true
    → is_valid_close_payload payload ≡ true
checked_close_sound meta payload g c = ground arith

-- The payload as the decoder cuts it out.
abbrev cut_out : Bool → List ℕ → List ℕ → List ℕ
cut_out masked mask slice = if not masked then slice else mask_bytes mask 0 slice

length-cut_out : (m : Bool) (mask slice : List ℕ) → length (cut_out m mask slice) ≡ length slice
length-cut_out true mask slice = length-mask_bytes mask 0 slice
length-cut_out false mask slice = refl

cut_out-IsByte :
    (m : Bool) (mask slice : List ℕ)
    → All IsByte mask
    → All IsByte slice
    → All IsByte (cut_out m mask slice)
cut_out-IsByte true mask slice hm h = mask_bytes-IsByte mask 0 slice hm h
cut_out-IsByte false mask slice hm h = h

accepted_sound :
    (bytes : List ℕ) (meta : FrameMetadata) (offset n : ℕ) (mask : List ℕ)
    → All IsByte bytes
    → Promises bytes meta offset n mask
    → (checked_close meta (cut_out meta.masked mask (take n (drop offset bytes)))).good ≡ true
    → IsAcceptable bytes
        (checked_close meta (cut_out meta.masked mask (take n (drop offset bytes))))
accepted_sound bytes meta offset n mask h p g =
    let slice = take n (drop offset bytes) in
    let len : length (cut_out meta.masked mask slice) ≡ n =
      length-cut_out meta.masked mask slice ∙ length-cut n offset bytes p.inside in
    let key : All IsByte mask =
      subst (All IsByte) (sym p.key)
        (mask-IsByte meta.masked bytes (frame_header_size n false) h) in
    record {
      form = rw len p.form;
      inside = rw len (omega (arith, p.place, p.inside));
      size = rw len p.size;
      control = rw len p.control;
      closing = checked_close_sound meta (cut_out meta.masked mask slice) g;
      octets =
          cut_out-IsByte meta.masked mask slice key
            (All-take IsByte n (drop offset bytes) (All-drop IsByte offset bytes h));
    }

-- A frame that is accepted was received whole, the length field in its second byte begins the
-- shortest form of the payload's length, which is below 2 ^ 63; a control frame is final and holds
-- 125 bytes at most; a close frame holds a valid close payload; and the payload is made of bytes.
pub decode_frame_sound :
    (bytes : List ℕ) (old : FrameMetadata)
    → All IsByte bytes
    → (decode_frame bytes old).good ≡ true
    → IsAcceptable bytes (decode_frame bytes old)
unfolding decode_frame
decode_frame_sound bytes old h g = go (read_header bytes old) refl
  where
    go : (r : Header) → read_header bytes old ≡ r → IsAcceptable bytes (decode_frame bytes old)
    go (refused meta) e = absurd (cc (rw (e, decode_frame) at g))
    go (accepted meta offset n mask) e =
        rw (e, decode_frame)
          (accepted_sound bytes meta offset n mask h
            (read_header_sound bytes old meta offset n mask h e) (rw (e, decode_frame) at g))
