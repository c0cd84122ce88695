-- ===== src/Base64/Sound.antt =====
-- What an accepted text decodes to: bytes, as many as the decoder reserved room for.
use fast_net.Prelude.{ℕ, suc, ◌+◌, ◌-◌, ◌*◌, ◌/◌, ◌%◌, ◌≤◌, ◌≡◌, refl, ap, arith}
use fast_net.Prelude.{
  Bool, true, false, Bool-cases, ==_iff, Option-cases, inl, inr, some, List, [], ◌∷◌, ◌++◌,
}
use fast_net.Prelude.{IsByte, All, All-append, length, length-append, leb, ◌==◌, if◌then◌else◌}
use fast_net.Base64.{decode_quartet, decode_quartets, decode_normalized, padding, reserved}
use fast_net.Base64.{
  normalize_base64, try_base64_decode, table_at, base64_decode_table, is_ignored_whitespace,
}
use fast_net.Prelude.{
  zero, sym, ◌∙◌, ltb, none, Option, is_none, not, ◌&&◌, ◌||◌, get_or, holds_below,
  test_of_holds_below,
}

module _ (last : Bool) (c0 c1 c2 c3 : ℕ) where
  quartet-IsByte : All IsByte (decode_quartet last c0 c1 c2 c3).1
  unfolding decode_quartet
  quartet-IsByte = ground arith

  -- An accepted quartet gives three bytes less its padding, which only the last one may have.
  length-quartet :
      (decode_quartet last c0 c1 c2 c3).0 ≡ true
      → (length (decode_quartet last c0 c1 c2 c3).1
            + (if c3 == b'=' then if c2 == b'=' then 2 else 1 else 0)
          ≡ 3)
  unfolding decode_quartet
  length-quartet h = ground arith

  quartet_inner :
      last ≡ false
      → (decode_quartet last c0 c1 c2 c3).0 ≡ true
      → length (decode_quartet last c0 c1 c2 c3).1 ≡ 3
  unfolding decode_quartet
  quartet_inner hl h = ground arith

padding-skip :
    (c0 c1 c2 c3 : ℕ) (r : List ℕ) → 2 ≤ length r → padding (c0 ∷ c1 ∷ c2 ∷ c3 ∷ r) ≡ padding r
unfolding padding
padding-skip c0 c1 c2 c3 r h = rw (one, two, deep, shallow) refl
  where
    one : length (c0 ∷ c1 ∷ c2 ∷ c3 ∷ r) - 1 ≡ suc (suc (suc (suc (length r - 1))))
    one = omega arith

    two : length (c0 ∷ c1 ∷ c2 ∷ c3 ∷ r) - 2 ≡ suc (suc (suc (suc (length r - 2))))
    two = omega arith

    deep : leb 2 (length (c0 ∷ c1 ∷ c2 ∷ c3 ∷ r)) ≡ true
    deep = ground arith

    shallow : leb 2 (length r) ≡ true
    shallow = ground arith

decode_quartets-IsByte : (s out : List ℕ) → All IsByte out → All IsByte (decode_quartets s out).1
unfolding decode_quartets
decode_quartets-IsByte (c0 ∷ c1 ∷ c2 ∷ c3 ∷ rest) out h =
    let last = ltb (length rest) 4 in
    let pushed = (decode_quartet last c0 c1 c2 c3).1 in
    let kept = All-append IsByte out pushed h (quartet-IsByte last c0 c1 c2 c3) in
    elim (Bool-cases (decode_quartet last c0 c1 c2 c3).0) [
      | inl good ↦ rw good (decode_quartets-IsByte rest (out ++ pushed) kept)
      | inr bad ↦ rw bad kept
    ]
decode_quartets-IsByte _ out h = h

length-decode_quartets :
    (s out : List ℕ)
    → length s % 4 ≡ 0
    → (decode_quartets s out).0 ≡ true
    → length (decode_quartets s out).1 + padding s ≡ length out + length s / 4 * 3
unfolding decode_quartets
length-decode_quartets [] out m h = unfold padding in omega arith
length-decode_quartets (c0 ∷ []) out m h = absurd (omega arith)
length-decode_quartets (c0 ∷ c1 ∷ []) out m h = absurd (omega arith)
length-decode_quartets (c0 ∷ c1 ∷ c2 ∷ []) out m h = absurd (omega arith)
length-decode_quartets (c0 ∷ c1 ∷ c2 ∷ c3 ∷ []) out m h =
    unfold padding in
    ground (
      arith,
      length-quartet true c0 c1 c2 c3,
      length-append out (decode_quartet true c0 c1 c2 c3).1,
    )
length-decode_quartets (c0 ∷ c1 ∷ c2 ∷ c3 ∷ r0 ∷ rest) out m h =
    let last = ltb (length (r0 ∷ rest)) 4 in
    let pushed = (decode_quartet last c0 c1 c2 c3).1 in
    ground (
      arith,
      quartet_inner last c0 c1 c2 c3,
      length-append out pushed,
      padding-skip c0 c1 c2 c3 (r0 ∷ rest),
      length-decode_quartets (r0 ∷ rest) (out ++ pushed),
    )

decode_normalized_sound :
    (s : List ℕ)
    → (decode_normalized s).0 ≡ true
    → All IsByte (decode_normalized s).1
      × (length s % 4 ≡ 0)
      × (length (decode_normalized s).1 ≡ reserved s)
unfolding decode_normalized
decode_normalized_sound [] h = (tt, refl, unfold reserved in refl)
decode_normalized_sound (c ∷ s) h = elim (Bool-cases (length (c ∷ s) % 4 == 0)) [
  | inl whole ↦
      let e : length (c ∷ s) % 4 ≡ 0 = (==_iff _ 0).0 whole in
      rw whole (
        decode_quartets-IsByte (c ∷ s) [] tt,
        e,
        unfold reserved in omega (arith, length-decode_quartets (c ∷ s) [] e (rw whole at h)),
      )
  | inr bad ↦ absurd (cc (rw bad at h))
]

-- The characters of Base64: the letters, the digits, plus, slash and the padding.
abbrev pub is_base64_character : ℕ → Bool
is_base64_character c =
    (leb b'A' c && leb c b'Z')
    || ((leb b'a' c && leb c b'z')
        || ((leb b'0' c && leb c b'9') || (c == b'+' || (c == b'/' || c == b'='))))

-- Space, and the control characters from the tab to the carriage return.
abbrev pub is_blank : ℕ → Bool
is_blank c = c == b' ' || (c == 9 || (c == 10 || (c == 11 || (c == 12 || c == 13))))

unfoldable pub without_blanks : List ℕ → List ℕ
without_blanks [] = []
without_blanks (c ∷ text) = if is_blank c then without_blanks text else c ∷ without_blanks text

is_ignored_whitespace-is_blank : (c : ℕ) → is_ignored_whitespace c ≡ is_blank c
unfolding is_ignored_whitespace
is_ignored_whitespace-is_blank c = ground arith

abbrev is_checked : ℕ → Bool
is_checked c = is_none (table_at c) || is_base64_character c

table_checked : holds_below is_checked 256 ≡ true
unfolding holds_below table_at
table_checked = refl

get_or-past : (l : List (Option ℕ)) (i : ℕ) → length l ≤ i → get_or l i none ≡ none
get_or-past [] i h = refl
get_or-past (x ∷ l) zero h = absurd (omega arith)
get_or-past (x ∷ l) (suc i) h = get_or-past l i (omega arith)

length-table : length base64_decode_table ≡ 256
unfolding base64_decode_table
length-table = refl

is_checked_always : (c : ℕ) → is_checked c ≡ true
is_checked_always c = elim (Bool-cases (ltb c 256)) [
  | inl small ↦ test_of_holds_below is_checked c 256 (ground arith) table_checked
  | inr large ↦
      let past : table_at c ≡ none =
        unfold table_at in get_or-past base64_decode_table c (ground (arith, length-table)) in
      rw past refl
]

-- What is left of a text without its white space, and that it has only characters of Base64.
normalize_base64_sound :
    (s normalized : List ℕ)
    → normalize_base64 s ≡ some normalized
    → (normalized ≡ without_blanks s) × All (λ c. is_base64_character c ≡ true) (without_blanks s)
unfolding normalize_base64 without_blanks
normalize_base64_sound [] n h = (cc (h), tt)
normalize_base64_sound (c ∷ rest) n h = elim (Option-cases (normalize_base64 rest)) [
  | inl bad ↦ absurd (ground (arith, bad))
  | inr (m, e) ↦
      let (same, known) = normalize_base64_sound rest m e in
      elim (Bool-cases (is_ignored_whitespace c)) [
        | inl space ↦
            let there : m ≡ n = cc (rw (space, e) at h) in
            rw (sym (is_ignored_whitespace-is_blank c) ∙ space) (sym there ∙ same, known)
        | inr solid ↦ elim (Bool-cases (not (c == b'=') && is_none (table_at c))) [
          | inl unknown ↦ absurd (cc (rw (solid, unknown) at h))
          | inr fine ↦
              let there : c ∷ m ≡ n = cc (rw (solid, fine, e) at h) in
              rw (sym (is_ignored_whitespace-is_blank c) ∙ solid) (
                sym there ∙ ap (λ l. c ∷ l) same,
                (ground (arith, fine, is_checked_always c), known),
              )
        ]
      ]
]

-- A text that is accepted has, once its white space is gone, only letters, digits, plus, slash and
-- padding, in whole groups of four, and decodes to bytes, exactly as many as the decoder reserved
-- room for.
pub try_base64_decode_sound :
    (encoded out : List ℕ)
    → try_base64_decode encoded ≡ (true, out)
    → All (λ c. is_base64_character c ≡ true) (without_blanks encoded)
      × All IsByte out
      × (length (without_blanks encoded) % 4 ≡ 0)
      × (length out ≡ reserved (without_blanks encoded))
unfolding try_base64_decode
try_base64_decode_sound encoded out h = elim (Option-cases (normalize_base64 encoded)) [
  | inl bad ↦ absurd (cc (rw (bad, try_base64_decode) at h))
  | inr (n, e) ↦
      let run : decode_normalized n ≡ (true, out) = rw (e, try_base64_decode) at h in
      let (bytes, whole, size) = decode_normalized_sound n (ap (λ r. r.0) run) in
      let (same, known) = normalize_base64_sound encoded n e in
      (known, rw run at bytes, rw same at whole, rw (run, same) at size)
]
