-- ===== src/WebSocketProtocol/Frame/RoundTrip.antt =====
-- Decoding what was encoded.
use fast_net.Prelude.{ℕ, ◌+◌, ◌^◌, ◌≤◌, ◌<◌, ◌≡◌, refl, sym, ap, ◌∙◌, arith}
use fast_net.Prelude.{bit_or, Bool, true, false, not, ◌&&◌}
use fast_net.Prelude.{List, ◌∷◌, ◌++◌, append_assoc, All, IsByte, if◌then◌else◌}
use fast_net.Prelude.{length, length-append, take, drop, take-append, drop-append, replicate}
use fast_net.WebSocketProtocol.Frame.{FrameType, FrameMetadata, accepted, close}
use fast_net.WebSocketProtocol.Frame.{
  opcode_for_type, is_control_frame, is_close, checked_close, is_valid_close_payload,
}
use fast_net.WebSocketProtocol.Frame.{write_payload_length, read_mask, read_header}
use fast_net.WebSocketProtocol.Frame.{mask_bytes, encode_frame, decode_frame}
use fast_net.WebSocketProtocol.Frame.Bytes.{mask-mask, length-mask_bytes}
use fast_net.WebSocketProtocol.Frame.Layout.{layout, encode_frame-layout}
use fast_net.WebSocketProtocol.Frame.Fields.{
  meta_for, read_mask_keyed, read_mask_plain, read_header-layout,
}

-- What may be sent in a frame: a control frame holds 125 bytes at most, and a close frame a valid
-- close payload.
pub record IsSendable (t : FrameType) (payload : List ℕ) : Type 0 where
  pub bytes : All IsByte payload
  pub size : length payload < 2 ^ 63
  pub control : is_control_frame t ≡ true → length payload ≤ 125
  pub closing : is_close t ≡ true → is_valid_close_payload payload ≡ true

closes :
    (t : FrameType) (payload : List ℕ)
    → (is_close t ≡ true → is_valid_close_payload payload ≡ true)
    → not (is_close t && not (is_valid_close_payload payload)) ≡ true
closes close payload h = rw (h refl) refl
closes _ payload h = refl

-- An accepted header leaves the payload to be cut out, unmasked and checked.
decode_accepted :
    (bytes : List ℕ) (old meta : FrameMetadata) (offset n : ℕ) (mask payload : List ℕ)
    → read_header bytes old ≡ accepted meta offset n mask
    → (if not meta.masked
        then take n (drop offset bytes)
        else mask_bytes mask 0 (take n (drop offset bytes)))
      ≡ payload
    → (is_close meta.type ≡ true → is_valid_close_payload payload ≡ true)
    → decode_frame bytes old ≡ record { good = true; payload = payload; metadata = meta }
unfolding decode_frame
decode_accepted bytes old meta offset n mask payload e cut valid =
    rw (e, decode_frame) (ap (checked_close meta) cut ∙ settled)
  where
    settled :
        checked_close meta payload ≡ record { good = true; payload = payload; metadata = meta }
    settled =
        ap (λ g. record { good = g; payload = payload; metadata = meta })
          (closes meta.type payload valid)

module _ (t : FrameType) (payload mask rest : List ℕ) (old : FrameMetadata)
    (s : IsSendable t payload) where
  front : Bool → List ℕ
  front m = bit_or 0x80 (opcode_for_type t) ∷ write_payload_length (length payload) m

  decode_keyed :
      All IsByte mask
      → length mask ≡ 4
      → decode_frame (encode_frame payload t true mask ++ rest) old
        ≡ record { good = true; payload = payload; metadata = meta_for t true true }
  unfolding front
  decode_keyed hm h =
      ap (λ l. decode_frame l old) whole
      ∙ decode_accepted _ old (meta_for t true true) (length (front true) + 4) (length masked) mask
          payload header cut s.closing
    where
      masked : List ℕ
      masked = mask_bytes mask 0 payload

      n : ℕ
      n = length payload

      whole : encode_frame payload t true mask ++ rest ≡ front true ++ (mask ++ (masked ++ rest))
      whole =
          ap (λ l. l ++ rest) (encode_frame-layout payload t true mask h)
          ∙ unfold layout in rw (append_assoc, append_assoc) refl

      header :
          read_header (front true ++ (mask ++ (masked ++ rest))) old
          ≡ accepted (meta_for t true true) (length (front true) + 4) (length masked) mask
      header =
          read_header-layout t true n (mask ++ (masked ++ rest)) old s.size s.control
          ∙ ap
              (λ k. read_mask (front true ++ (mask ++ (masked ++ rest))) (meta_for t true true) k n)
              (omega arith)
          ∙ ap
              (λ k.
                read_mask (front true ++ (mask ++ (masked ++ rest))) (meta_for t true true)
                  (length (front true)) k)
              (sym (length-mask_bytes mask 0 payload))
          ∙ read_mask_keyed t true (front true) mask masked rest h

      cut :
          mask_bytes mask 0 (
            take
              (length masked)
              (drop (length (front true) + 4) (front true ++ (mask ++ (masked ++ rest)))))
          ≡ payload
      cut =
          ap (λ l. mask_bytes mask 0 (take (length masked) (drop (length (front true) + 4) l)))
            (sym (append_assoc (front true) mask (masked ++ rest)))
          ∙ ap (λ l. mask_bytes mask 0 (take (length masked) l))
              (drop-append (length (front true) + 4) (front true ++ mask) (masked ++ rest)
                (omega (arith, length-append (front true) mask)))
          ∙ ap (mask_bytes mask 0) (take-append (length masked) masked rest refl)
          ∙ mask-mask mask 0 payload hm s.bytes

  decode_plain :
      length mask ≡ 4
      → decode_frame (encode_frame payload t false mask ++ rest) old
        ≡ record { good = true; payload = payload; metadata = meta_for t true false }
  unfolding front
  decode_plain h =
      ap (λ l. decode_frame l old) whole
      ∙ decode_accepted _ old (meta_for t true false) (length (front false)) (length payload)
          (replicate 4 0) payload header cut s.closing
    where
      whole : encode_frame payload t false mask ++ rest ≡ front false ++ (payload ++ rest)
      whole =
          ap (λ l. l ++ rest) (encode_frame-layout payload t false mask h)
          ∙ unfold layout in rw append_assoc refl

      header :
          read_header (front false ++ (payload ++ rest)) old
          ≡ accepted (meta_for t true false) (length (front false)) (length payload) (replicate 4 0)
      header =
          read_header-layout t false (length payload) (payload ++ rest) old s.size s.control
          ∙ ap
              (λ k.
                read_mask (front false ++ (payload ++ rest)) (meta_for t true false) k
                  (length payload))
              (omega arith)
          ∙ read_mask_plain t true (front false) mask payload rest

      cut :
          take (length payload) (drop (length (front false)) (front false ++ (payload ++ rest)))
          ≡ payload
      cut =
          ap (take (length payload))
            (drop-append (length (front false)) (front false) (payload ++ rest) refl)
          ∙ take-append (length payload) payload rest refl

-- Decoding an encoded frame, whatever follows it, gives back the payload, the type, the mask flag
-- and a final frame, for every payload that may be sent and every mask key.
pub decode_frame-encode :
    (t : FrameType) (m : Bool) (payload mask rest : List ℕ) (old : FrameMetadata)
    → IsSendable t payload
    → All IsByte mask
    → length mask ≡ 4
    → decode_frame (encode_frame payload t m mask ++ rest) old ≡ record {
      good = true;
      payload = payload;
      metadata = record { type = t; final = true; masked = m };
    }
decode_frame-encode t true payload mask rest old s hm h =
    decode_keyed t payload mask rest old s hm h
decode_frame-encode t false payload mask rest old s hm h = decode_plain t payload mask rest old s h
