-- ===== src/WebSocketProtocol/Frame/Bytes.antt =====
-- The bit fields of a frame's bytes as arithmetic, and lengths written and read big endian.
use fast_net.Prelude.{ℕ, zero, suc, ◌+◌, ◌*◌, ◌/◌, ◌%◌, ◌^◌, ◌<◌, ◌≡◌, refl, sym, ap, ◌∙◌, arith}
use fast_net.Prelude.{bit_and, bit_or, true, false, some, List, [], ◌∷◌}
use fast_net.Prelude.{IsByte, All, length, get_or, ◌==◌}
use fast_net.Prelude.Bits.{shl, shr, or_shl, and_mask, xor-xor, xor-lt}
use native.Mathlib.Numerals.{towards_suc}
use native.Mathlib.Nat.{div-div-eq-div-mul, div-mul-le_self, div-le_self}
use fast_net.WebSocketProtocol.Frame.{FrameType, text, binary, close, ping, pong, opcode_for_type}
use fast_net.WebSocketProtocol.Frame.{frame_type_from_opcode, is_control_opcode, is_control_frame}
use fast_net.WebSocketProtocol.Frame.{big_endian, read_big_endian, mask_bytes}

-- The type survives the first byte of a frame, whose other fields say: final, no reserved bits.
pub opcode_fields :
    (t : FrameType)
    → let b = bit_or 0x80 (opcode_for_type t) in
      (frame_type_from_opcode (bit_and b 0x0F) ≡ some t)
      × ((bit_and b 0x80 == 0) ≡ false)
      × ((bit_and b 0x70 == 0) ≡ true)
      × (is_control_opcode (bit_and b 0x0F) ≡ is_control_frame t)
unfolding opcode_for_type frame_type_from_opcode is_control_opcode is_control_frame
opcode_fields text = (refl, refl, refl, refl)
opcode_fields binary = (refl, refl, refl, refl)
opcode_fields close = (refl, refl, refl, refl)
opcode_fields ping = (refl, refl, refl, refl)
opcode_fields pong = (refl, refl, refl, refl)

pub is_control_opcode-type :
    (opcode : ℕ) {t : FrameType}
    → frame_type_from_opcode opcode ≡ some t
    → is_control_opcode opcode ≡ is_control_frame t
unfolding frame_type_from_opcode is_control_opcode is_control_frame
is_control_opcode-type opcode h = ground arith

pub length-big_endian : (n v : ℕ) → length (big_endian n v) ≡ n
unfolding big_endian
length-big_endian zero v = refl
length-big_endian (suc n) v = ap suc (length-big_endian n v)

pub big_endian-IsByte : (n v : ℕ) → All IsByte (big_endian n v)
unfolding big_endian
big_endian-IsByte zero v = tt
big_endian-IsByte (suc n) v = (omega (arith, and_mask 8 (shr v (8 * n))), big_endian-IsByte n v)

eight_more : (n : ℕ) → 2 ^ (8 * suc n) ≡ 2 ^ (8 * n) * 256
eight_more n = ap (λ k. 2 ^ k) (omega arith) ∙ more (8 * n)
  where
    more : (s : ℕ) → 2 ^ (s + 8) ≡ 2 ^ s * 256
    more s = simp towards_suc (omega arith)

-- One byte of a length: `q` is what is read when it has been added.
read_byte : (q : ℕ) → q < 2 ^ 64 → bit_or (shl (q / 256) 8 % 2 ^ 64) (bit_and q 0xFF) ≡ q
read_byte q h = rw (and_mask 8 q, small) (or_shl 8 (q / 256) (q % 256) (omega arith) ∙ omega arith)
  where
    small : shl (q / 256) 8 % 2 ^ 64 ≡ q / 256 * 2 ^ 8
    small = omega arith

-- The last `n` bytes of a 64-bit length, read behind the ones before them.
pub read-big_endian :
    (n acc v : ℕ) → v < 2 ^ 64 → acc ≡ v / 2 ^ (8 * n) → read_big_endian acc (big_endian n v) ≡ v
unfolding read_big_endian big_endian
read-big_endian zero acc v h e = omega arith
read-big_endian (suc n) acc v h e =
    ap (λ a. read_big_endian a (big_endian (suc n) v)) e'
    ∙ ap (λ a. read_big_endian a (big_endian n v)) (read_byte (v / 2 ^ (8 * n)) small)
    ∙ read-big_endian n (v / 2 ^ (8 * n)) v h refl
  where
    e' : acc ≡ v / 2 ^ (8 * n) / 256
    e' = e ∙ ap (λ k. v / k) (eight_more n) ∙ sym (div-div-eq-div-mul v (2 ^ (8 * n)) 256)

    small : v / 2 ^ (8 * n) < 2 ^ 64
    small = omega (arith, div-mul-le_self v (2 ^ (8 * n)), div-le_self v (2 ^ (8 * n)))

-- A key masks each byte to a byte, and undoes itself.
pub get_or-IsByte : (mask : List ℕ) (i : ℕ) → All IsByte mask → IsByte (get_or mask i 0)
get_or-IsByte [] i h = omega arith
get_or-IsByte (k ∷ mask) zero h = h.0
get_or-IsByte (k ∷ mask) (suc i) h = get_or-IsByte mask i h.1

pub mask-mask :
    (mask : List ℕ) (i : ℕ) (bytes : List ℕ)
    → All IsByte mask
    → All IsByte bytes
    → mask_bytes mask i (mask_bytes mask i bytes) ≡ bytes
unfolding mask_bytes
mask-mask mask i [] hm h = refl
mask-mask mask i (b ∷ bytes) hm h =
    rw (xor-xor 8 b (get_or mask (bit_and i 0x03) 0) h.0 (get_or-IsByte mask (bit_and i 0x03) hm))
      (ap (λ l. b ∷ l) (mask-mask mask (i + 1) bytes hm h.1))

pub mask_bytes-IsByte :
    (mask : List ℕ) (i : ℕ) (bytes : List ℕ)
    → All IsByte mask
    → All IsByte bytes
    → All IsByte (mask_bytes mask i bytes)
unfolding mask_bytes
mask_bytes-IsByte mask i [] hm h = tt
mask_bytes-IsByte mask i (b ∷ bytes) hm h = (
  xor-lt 8 b _ h.0 (get_or-IsByte mask (bit_and i 0x03) hm),
  mask_bytes-IsByte mask (i + 1) bytes hm h.1,
)

pub length-mask_bytes :
    (mask : List ℕ) (i : ℕ) (bytes : List ℕ) → length (mask_bytes mask i bytes) ≡ length bytes
unfolding mask_bytes
length-mask_bytes mask i [] = refl
length-mask_bytes mask i (b ∷ bytes) = ap suc (length-mask_bytes mask (i + 1) bytes)
