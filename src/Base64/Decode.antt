-- ===== src/Base64/Decode.antt =====
-- The decoder on the four characters of a group, and the two ways it treats white space.
use fast_net.Prelude.{ℕ, ◌+◌, ◌*◌, ◌/◌, ◌%◌, ◌<◌, ◌≡◌, refl, arith}
use fast_net.Prelude.{Bool, true, List, [], ◌∷◌, if◌then◌else◌}
use fast_net.Prelude.Bits.{or_shl, and_mask}
use fast_net.Base64.{symbol, first_octet, second_octet, third_octet, decode_quartet}
use fast_net.Base64.{is_ignored_whitespace, normalize_base64, try_base64_decode}
use fast_net.Base64.Alphabet.{symbol_lem}

pub first_octet_lem : (v0 v1 : ℕ) → v0 < 64 → v1 < 64 → first_octet v0 v1 ≡ v0 * 4 + v1 / 16
first_octet_lem v0 v1 h0 h1 = omega (arith, or_shl 2 v0 (v1 / 16) (omega arith))

pub second_octet_lem : (v1 v2 : ℕ) → v1 < 64 → v2 < 64 → second_octet v1 v2 ≡ v1 % 16 * 16 + v2 / 4
second_octet_lem v1 v2 h1 h2 =
    rw (and_mask 4 v1) (omega (arith, or_shl 4 (v1 % 16) (v2 / 4) (omega arith)))

pub third_octet_lem : (v2 v3 : ℕ) → v2 < 64 → v3 < 64 → third_octet v2 v3 ≡ v2 % 4 * 64 + v3
third_octet_lem v2 v3 h2 h3 = rw (and_mask 2 v2) (omega (arith, or_shl 6 (v2 % 4) v3 (omega arith)))

module _ (last : Bool) (s0 s1 s2 s3 : ℕ) (h0 : s0 < 64) (h1 : s1 < 64) where
  pub decode_three :
      s2 < 64
      → s3 < 64
      → decode_quartet last (symbol s0) (symbol s1) (symbol s2) (symbol s3)
        ≡ (true, first_octet s0 s1 ∷ second_octet s1 s2 ∷ third_octet s2 s3 ∷ [])
  unfolding decode_quartet
  decode_three h2 h3 =
      ground (arith, symbol_lem s0 h0, symbol_lem s1 h1, symbol_lem s2 h2, symbol_lem s3 h3)

module _ (s0 s1 s2 : ℕ) (h0 : s0 < 64) (h1 : s1 < 64) where
  pub decode_two :
      s2 < 64
      → decode_quartet true (symbol s0) (symbol s1) (symbol s2) b'='
        ≡ (true, first_octet s0 s1 ∷ second_octet s1 s2 ∷ [])
  unfolding decode_quartet
  decode_two h2 = ground (arith, symbol_lem s0 h0, symbol_lem s1 h1, symbol_lem s2 h2)

module _ (s0 s1 : ℕ) (h0 : s0 < 64) (h1 : s1 < 64) where
  pub decode_one :
      decode_quartet true (symbol s0) (symbol s1) b'=' b'=' ≡ (true, first_octet s0 s1 ∷ [])
  unfolding decode_quartet
  decode_one = ground (arith, symbol_lem s0 h0, symbol_lem s1 h1)

-- A text without its white space.
unfoldable pub strip : List ℕ → List ℕ
strip [] = []
strip (ch ∷ rest) = if is_ignored_whitespace ch then strip rest else ch ∷ strip rest

normalize-strip : (s : List ℕ) → normalize_base64 (strip s) ≡ normalize_base64 s
unfolding normalize_base64 strip
normalize-strip [] = refl
normalize-strip (ch ∷ rest) = ground (arith, normalize-strip rest)

-- Decoding does not see white space, wherever it stands in the text.
pub try_decode-strip : (s : List ℕ) → try_base64_decode (strip s) ≡ try_base64_decode s
unfolding try_base64_decode
try_decode-strip s = rw (normalize-strip s, try_base64_decode) refl
