-- ===== src/WebSocketProtocol/Frame/Tests.antt =====
-- Runs of the frame codec, and the theorems at concrete inputs.
use fast_net.Prelude.{ℕ, ◌≡◌, refl, ap, true, false, List, [], ◌∷◌, ◌++◌, codes, arith}
use fast_net.Prelude.Memory.{write_bytes}
use fast_net.WebSocketProtocol.Frame.{text, default_metadata}
use fast_net.WebSocketProtocol.Frame.{
  opcode_for_type, frame_type_from_opcode, is_control_opcode, is_control_frame, frame_header_size,
}
use fast_net.WebSocketProtocol.Frame.{
  write_payload_length, mask_bytes, encode_frame, is_valid_close_payload,
}
use fast_net.WebSocketProtocol.Frame.{
  read_payload_length, read_mask, read_header, decode_frame, decode_frame_buffer,
}
use fast_net.WebSocketProtocol.Frame.RoundTrip.{IsSendable, decode_frame-encode}
use fast_net.WebSocketProtocol.Frame.Sound.{IsAcceptable, decode_frame_sound}
use fast_net.WebSocketProtocol.Frame.Overloads.{decode_frame_buffer-decode_frame}

abbrev key : List ℕ
key = 0x37 ∷ 0xfa ∷ 0x21 ∷ 0x3d ∷ []

abbrev hello : List ℕ
hello = codes "Hello"

-- The masked text frame of RFC 6455, section 5.7.
abbrev masked_hello : List ℕ
masked_hello = 0x81 ∷ 0x85 ∷ (key ++ (0x7f ∷ 0x9f ∷ 0x4d ∷ 0x51 ∷ 0x58 ∷ []))

encode_hello : encode_frame hello text true key ≡ masked_hello
unfolding encode_frame frame_header_size opcode_for_type write_payload_length mask_bytes write_bytes
encode_hello = refl

decode_hello : decode_frame masked_hello default_metadata ≡ record {
  good = true;
  payload = hello;
  metadata = record { type = text; final = true; masked = true };
}
unfolding decode_frame read_header read_payload_length read_mask frame_type_from_opcode
    is_control_opcode mask_bytes
decode_hello = refl

-- A length that would have fitted the shorter form is refused.
decode_padded_length : (decode_frame (0x82 ∷ 126 ∷ 0 ∷ 1 ∷ 7 ∷ []) default_metadata).good ≡ false
unfolding decode_frame read_header read_payload_length read_mask frame_type_from_opcode
    is_control_opcode mask_bytes
decode_padded_length = refl

decode_reserved_close_code :
    (decode_frame (0x88 ∷ 2 ∷ 0x03 ∷ 0xee ∷ []) default_metadata).good ≡ false
unfolding decode_frame read_header read_payload_length read_mask frame_type_from_opcode
    is_control_opcode mask_bytes is_valid_close_payload
decode_reserved_close_code = refl

hello-IsSendable : IsSendable text hello
unfolding is_control_frame
hello-IsSendable = record {
  bytes = omega arith;
  size = omega arith;
  control = λ e. absurd (cc);
  closing = λ e. absurd (cc);
}

decode_frame-encode_example :
    decode_frame (encode_frame hello text true key ++ (0x89 ∷ [])) default_metadata ≡ record {
      good = true;
      payload = hello;
      metadata = record { type = text; final = true; masked = true };
    }
decode_frame-encode_example =
    decode_frame-encode text true hello key (0x89 ∷ []) default_metadata hello-IsSendable
      (omega arith) refl

decode_frame_buffer-decode_frame_example :
    decode_frame_buffer masked_hello default_metadata ≡ decode_frame masked_hello default_metadata
decode_frame_buffer-decode_frame_example =
    decode_frame_buffer-decode_frame masked_hello default_metadata

decode_frame_sound_example : IsAcceptable masked_hello (decode_frame masked_hello default_metadata)
decode_frame_sound_example =
    decode_frame_sound masked_hello default_metadata (omega arith) (ap (λ d. d.good) decode_hello)
