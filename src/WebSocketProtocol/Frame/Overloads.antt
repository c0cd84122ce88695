-- ===== src/WebSocketProtocol/Frame/Overloads.antt =====
-- The overloads of `decodeFrame`, which the source writes out one by one, agree.
use fast_net.Prelude.{ℕ, zero, suc, ◌+◌, ◌≤◌, ◌≡◌, refl, sym, ap, ◌∙◌, arith, bit_and, bit_xor}
use fast_net.Prelude.{Bool, true, not, List, [], ◌∷◌, ◌++◌, append_assoc, All, IsByte}
use fast_net.Prelude.{
  length, length-append, length-replicate, take, drop, get_or, set, replicate, take-drop-suc, ◌==◌,
  ==_ne, if◌then◌else◌,
}
use fast_net.Prelude.Memory.{write_bytes, write_all, set-append}
use fast_net.WebSocketProtocol.Frame.{
  FrameType, FrameMetadata, Header, accepted, refused, default_metadata,
}
use fast_net.WebSocketProtocol.Frame.{
  read_header, mask_bytes, encode_frame, decode_frame, unmask_into, decode_frame_buffer,
  decode_final_frame,
}
use fast_net.WebSocketProtocol.Frame.Sound.{
  read_header_inv, read_mask_sound, read_metadata, length-cut,
}
use fast_net.WebSocketProtocol.Frame.RoundTrip.{IsSendable, decode_frame-encode}

-- Unmasking in place, behind the `front` that is done.
unmask_into_lem :
    (n i : ℕ) (bytes : List ℕ) (offset : ℕ) (mask front : List ℕ)
    → i ≡ length front
    → offset + i + n ≤ length bytes
    → unmask_into n i bytes offset mask (front ++ replicate n 0)
      ≡ front ++ mask_bytes mask i (take n (drop (offset + i) bytes))
unfolding unmask_into mask_bytes
unmask_into_lem zero i bytes offset mask front e h = refl
unmask_into_lem (suc n) i bytes offset mask front e h =
    let b = bit_xor (get_or bytes (offset + i) 0) (get_or mask (bit_and i 0x03) 0) in
    ap (λ l. unmask_into n (i + 1) bytes offset mask l)
      (ap (λ k. set (front ++ (0 ∷ replicate n 0)) k b) e
        ∙ set-append front 0 b (replicate n 0)
        ∙ sym (append_assoc front (b ∷ []) (replicate n 0)))
    ∙ unmask_into_lem n (i + 1) bytes offset mask (front ++ (b ∷ []))
        (omega (arith, length-append front (b ∷ []))) (omega arith)
    ∙ append_assoc front (b ∷ []) _
    ∙ ap (λ k. front ++ (b ∷ mask_bytes mask (i + 1) (take n (drop k bytes)))) (omega arith)
    ∙ ap (λ l. front ++ mask_bytes mask i l)
        (sym (take-drop-suc 0 n (offset + i) bytes (omega arith)))

copied_lem :
    (n : ℕ) (slice : List ℕ)
    → length slice ≡ n
    → (if not (n == 0) then write_bytes (replicate n 0) 0 slice else replicate n 0) ≡ slice
copied_lem zero [] h = refl
copied_lem zero (b ∷ slice) h = absurd (omega arith)
copied_lem (suc n) slice h =
    rw (==_ne (suc n) 0 (omega arith))
      (write_all (replicate (suc n) 0) slice (omega (arith, length-replicate {A = ℕ} (suc n) 0)))

-- Decoding into a buffer that is resized and written in place gives, on every input, the flag, the
-- payload and the metadata that decoding into a string gives.
pub decode_frame_buffer-decode_frame :
    (bytes : List ℕ) (old : FrameMetadata) → decode_frame_buffer bytes old ≡ decode_frame bytes old
unfolding decode_frame_buffer decode_frame
decode_frame_buffer-decode_frame bytes old = go (read_header bytes old) refl
  where
    go :
        (r : Header)
        → read_header bytes old ≡ r
        → decode_frame_buffer bytes old ≡ decode_frame bytes old
    go (refused meta) e = rw (e, decode_frame, decode_frame_buffer) refl
    go (accepted meta offset n mask) e =
        let none_more : offset + 0 ≡ offset = omega arith in
        let (t, n0, offset0, et, el, ctl, em) = read_header_inv bytes old meta offset n mask e in
        let (same, en, eo, fits, key) =
          read_mask_sound bytes (read_metadata bytes t) meta offset0 n0 offset n mask em in
        rw (e, decode_frame, decode_frame_buffer)
          (rw
            (
              copied_lem n (take n (drop offset bytes)) (length-cut n offset bytes fits),
              unmask_into_lem n 0 bytes offset mask [] refl (omega arith),
              none_more,
            )
            refl)

-- An encoded frame, whatever follows it, is decoded by the overload for complete frames to its
-- payload and type.
pub decode_final_frame-encode :
    (t old : FrameType) (m : Bool) (payload mask rest : List ℕ)
    → IsSendable t payload
    → All IsByte mask
    → length mask ≡ 4
    → decode_final_frame (encode_frame payload t m mask ++ rest) old ≡ (true, payload, t)
unfolding decode_final_frame
decode_final_frame-encode t old m payload mask rest s hm h =
    rw (decode_frame-encode t m payload mask rest default_metadata s hm h) refl
