-- ===== src/HttpParser/Numbers/Hex.antt =====
-- `parseHexSize` and `std::to_chars` of src/HttpParser.cpp, on hexadecimal digits.
use fast_net.Prelude.{
  ℕ, zero, suc, ◌+◌, ◌-◌, ◌*◌, ◌/◌, ◌%◌, ◌^◌, ◌<◌, ◌≤◌, ◌≡◌, refl, ap, ◌∙◌, Bool, true, false, not,
  ◌&&◌, arith,
}
use fast_net.Prelude.{none, some, List, [], ◌∷◌}
use fast_net.Prelude.{ltb, ◌==◌, get_or, Bool-cases, inl, inr, holds_below, test_of_holds_below}
use fast_net.HttpParser.Text.{all, is_space, trim}
use fast_net.HttpParser.Text.Laws.{trim_clean, all_imp}
use fast_net.HttpParser.Numbers.{
  size_max, hex_digit_value, hex_loop, parse_hex_size, to_chars_onto, digit_characters, digit_fuel,
  append_unsigned_hex,
}
use fast_net.HttpParser.Numbers.Decimal.{to_chars_onto-written}

-- A character of a size line: it ends no line, begins no extension and is no space.
unfoldable pub is_size_character : ℕ → Bool
is_size_character c = not (is_space c) && (not (13 == c) && not (b';' == c))

digit_table :
    holds_below
      (λ n.
        is_size_character (get_or digit_characters n 0)
        && elim (hex_digit_value (get_or digit_characters n 0)) as (λ _. Bool) [
          | none ↦ false
          | some d ↦ d == n
        ])
      16
    ≡ true
unfolding holds_below is_size_character is_space hex_digit_value
digit_table = refl

abbrev digit : ℕ → ℕ
digit n = get_or digit_characters n 0

digit_value : (n : ℕ) → n < 16 → hex_digit_value (digit n) ≡ some n
digit_value n h = let t = test_of_holds_below _ n 16 h digit_table in ground (arith, t)

digit_clean : (n : ℕ) → n < 16 → is_size_character (digit n) ≡ true
digit_clean n h = let t = test_of_holds_below _ n 16 h digit_table in ground (arith, t)

pub all_clean-to_chars_onto :
    (fuel n : ℕ) (acc : List ℕ)
    → all is_size_character acc ≡ true
    → all is_size_character (to_chars_onto fuel 16 n acc) ≡ true
unfolding to_chars_onto
all_clean-to_chars_onto zero n acc h = h
all_clean-to_chars_onto (suc fuel) n acc h =
    let clean = digit_clean (n % 16) (omega arith) in
    let written : all is_size_character (digit (n % 16) ∷ acc) ≡ true = rw (clean, h) refl in
    elim (Bool-cases (ltb n 16)) [
      | inl small ↦ rw (to_chars_onto, small) written
      | inr big ↦
          rw (to_chars_onto, big)
            (all_clean-to_chars_onto fuel (n / 16) (digit (n % 16) ∷ acc) written)
    ]

-- One digit more, where the number stays below the limit.
hex_loop-cons :
    (value n : ℕ) (rest : List ℕ)
    → n < 16
    → value * 16 + n ≤ size_max
    → hex_loop value (digit n ∷ rest) ≡ hex_loop (value * 16 + n) rest
unfolding hex_loop
hex_loop-cons value n rest small h =
    let under : ltb ((size_max - n) / 16) value ≡ false = ground arith in
    rw (hex_loop, digit_value n small, under) refl

hex_loop-to_chars_onto :
    (fuel n : ℕ) (acc : List ℕ)
    → n < 16 ^ fuel
    → n ≤ size_max
    → hex_loop 0 (to_chars_onto fuel 16 n acc) ≡ hex_loop n acc
unfolding to_chars_onto
hex_loop-to_chars_onto zero n acc h k = ap (λ m. hex_loop m acc) (omega arith)
hex_loop-to_chars_onto (suc fuel) n acc h k = elim (Bool-cases (ltb n 16)) [
  | inl small ↦
      let e : 0 * 16 + n % 16 ≡ n = ground arith in
      rw (to_chars_onto, small)
        (hex_loop-cons 0 (n % 16) acc (omega arith) (omega arith) ∙ ap (λ m. hex_loop m acc) e)
  | inr big ↦
      let e : n / 16 * 16 + n % 16 ≡ n = omega arith in
      rw (to_chars_onto, big)
        (hex_loop-to_chars_onto fuel (n / 16) (digit (n % 16) ∷ acc) (ground arith) (omega arith)
          ∙ hex_loop-cons (n / 16) (n % 16) acc (omega arith) (omega arith)
          ∙ ap (λ m. hex_loop m acc) e)
]

pub solid : (c : ℕ) → is_size_character c ≡ true → not (is_space c) ≡ true
unfolding is_size_character
solid c e = ground arith

pub no_line_end : (c : ℕ) → is_size_character c ≡ true → not (13 == c) ≡ true
unfolding is_size_character
no_line_end c e = ground arith

pub no_extension : (c : ℕ) → is_size_character c ≡ true → not (b';' == c) ≡ true
unfolding is_size_character
no_extension c e = ground arith

-- Parsing the hexadecimal digits of a number below 2 ^ 64 gives the number back.
pub parse_hex_size-append_unsigned_hex :
    (n : ℕ) → n < 2 ^ 64 → parse_hex_size (append_unsigned_hex n) ≡ some n
unfolding parse_hex_size append_unsigned_hex
parse_hex_size-append_unsigned_hex n h =
    let text = to_chars_onto digit_fuel 16 n [] in
    let clean = all_clean-to_chars_onto digit_fuel n [] refl in
    let trimmed : trim text ≡ text =
      trim_clean text (all_imp is_size_character (λ c. not (is_space c)) text solid clean) in
    rw (parse_hex_size, trimmed, to_chars_onto-written 19 16 n [])
      (hex_loop-to_chars_onto digit_fuel n [] (omega arith) (omega arith) ∙ unfold hex_loop in refl)
