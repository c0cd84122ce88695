-- ===== src/HttpParser/Numbers/Decimal.antt =====
-- `parseUnsignedDecimal` and `std::to_chars` of src/HttpParser.cpp, on decimal digits.
use fast_net.Prelude.{
  ℕ, zero, suc, ◌+◌, ◌-◌, ◌*◌, ◌/◌, ◌%◌, ◌^◌, ◌<◌, ◌≤◌, ◌≡◌, refl, ap, ◌∙◌, true, false, ◌&&◌,
  arith,
}
use fast_net.Prelude.{Option, none, some, List, [], ◌∷◌, is_empty, length}
use fast_net.Prelude.{
  ltb, leb, ◌==◌, if◌then◌else◌, get_or, Bool-cases, inl, inr, holds_below, test_of_holds_below,
}
use fast_net.HttpParser.Text.{is_digit, all}
use fast_net.HttpParser.Numbers.{
  size_max, decimal_loop, parse_unsigned_decimal, to_chars_onto, digit_characters, digit_fuel,
  append_unsigned_decimal, count_digits, decimal_digit_count,
}

-- The number that digits stand for, with those before them.
unfoldable pub decimal_value : ℕ → List ℕ → ℕ
decimal_value value [] = value
decimal_value value (ch ∷ digits) = decimal_value (value * 10 + (ch - b'0')) digits

le-decimal_value : (value : ℕ) (digits : List ℕ) → value ≤ decimal_value value digits
unfolding decimal_value
le-decimal_value value [] = omega arith
le-decimal_value value (ch ∷ digits) =
    omega (arith, le-decimal_value (value * 10 + (ch - b'0')) digits)

-- What the parser means: a number of digits only that a `size_t` holds.
unfoldable pub meant_decimal : ℕ → List ℕ → Option ℕ
unfolding decimal_value
meant_decimal value digits =
    if all is_digit digits && leb (decimal_value value digits) size_max
    then some (decimal_value value digits)
    else none

decimal_loop_lem :
    (value : ℕ) (digits : List ℕ)
    → value ≤ size_max
    → decimal_loop value digits ≡ meant_decimal value digits
unfolding decimal_loop meant_decimal
decimal_loop_lem value [] h = ground arith
decimal_loop_lem value (ch ∷ digits) h =
    let next : ℕ = value * 10 + (ch - b'0') in
    let grown = le-decimal_value next digits in
    elim (Bool-cases (is_digit ch)) [
      | inr other ↦ rw (decimal_loop, meant_decimal, other) refl
      | inl digit ↦
          let small : ch - b'0' ≤ 9 = unfold is_digit in ground arith in
          elim (Bool-cases (ltb ((size_max - (ch - b'0')) / 10) value)) [
            | inl over ↦
                let past : leb (decimal_value next digits) size_max ≡ false =
                  ground (arith, grown) in
                rw (decimal_loop, meant_decimal, digit, over, decimal_value, past) (ground arith)
            | inr under ↦
                rw (decimal_loop, meant_decimal, digit, under)
                  (decimal_loop_lem next digits (ground arith))
          ]
    ]

-- Parsing with the overflow check gives the value of the text, computed without bound, exactly
-- when the text is not empty, has only digits and its value is at most 2 ^ 64 - 1.
pub parse_unsigned_decimal_lem :
    (value : List ℕ)
    → parse_unsigned_decimal value ≡ (if is_empty value then none else meant_decimal 0 value)
unfolding parse_unsigned_decimal
parse_unsigned_decimal_lem value =
    ap (λ (r : Option ℕ). if is_empty value then none else r)
      (decimal_loop_lem 0 value (omega arith))

digit_table :
    holds_below
      (λ n. get_or digit_characters n 0 - b'0' == n && is_digit (get_or digit_characters n 0))
      10
    ≡ true
unfolding holds_below is_digit
digit_table = refl

digit_lem :
    (n : ℕ)
    → n < 10
    → (get_or digit_characters n 0 - b'0' ≡ n) × (is_digit (get_or digit_characters n 0) ≡ true)
digit_lem n h =
    let t = test_of_holds_below _ n 10 h digit_table in (ground (arith, t), ground (arith, t))

decimal_value-to_chars_onto :
    (fuel n : ℕ) (acc : List ℕ)
    → n < 10 ^ fuel
    → decimal_value 0 (to_chars_onto fuel 10 n acc) ≡ decimal_value n acc
unfolding to_chars_onto decimal_value
decimal_value-to_chars_onto zero n acc h = ap (λ k. decimal_value k acc) (omega arith)
decimal_value-to_chars_onto (suc fuel) n acc h =
    let (value, _) = digit_lem (n % 10) (omega arith) in
    let last = get_or digit_characters (n % 10) 0 in
    elim (Bool-cases (ltb n 10)) [
      | inl small ↦
          rw (to_chars_onto, small) (ap (λ k. decimal_value k acc) (ground (arith, value)))
      | inr big ↦
          rw (to_chars_onto, big)
            (decimal_value-to_chars_onto fuel (n / 10) (last ∷ acc) (ground arith)
              ∙ ap (λ k. decimal_value k acc) (omega (arith, value)))
    ]

pub all_digits-to_chars_onto :
    (fuel n : ℕ) (acc : List ℕ)
    → all is_digit acc ≡ true
    → all is_digit (to_chars_onto fuel 10 n acc) ≡ true
unfolding to_chars_onto
all_digits-to_chars_onto zero n acc h = h
all_digits-to_chars_onto (suc fuel) n acc h =
    let (_, digit) = digit_lem (n % 10) (omega arith) in
    let last = get_or digit_characters (n % 10) 0 in
    let written : all is_digit (last ∷ acc) ≡ true = rw (digit, h) refl in
    elim (Bool-cases (ltb n 10)) [
      | inl small ↦ rw (to_chars_onto, small) written
      | inr big ↦
          rw (to_chars_onto, big) (all_digits-to_chars_onto fuel (n / 10) (last ∷ acc) written)
    ]

-- Each digit is counted once.
length-to_chars_onto :
    (fuel n count : ℕ) (acc : List ℕ)
    → n < 10 ^ suc fuel
    → length (to_chars_onto (suc fuel) 10 n acc) + count
      ≡ count_digits (suc fuel) 10 n count + length acc + 1
unfolding to_chars_onto count_digits
length-to_chars_onto zero n count acc h = ground arith
length-to_chars_onto (suc fuel) n count acc h =
    let last = get_or digit_characters (n % 10) 0 in
    elim (Bool-cases (ltb n 10)) [
      | inl small ↦
          let stop : leb 10 n ≡ false = ground arith in
          rw (to_chars_onto, small, count_digits, stop) (omega arith)
      | inr big ↦
          let go : leb 10 n ≡ true = ground arith in
          let ih = length-to_chars_onto fuel (n / 10) (count + 1) (last ∷ acc) (omega arith) in
          rw (to_chars_onto, big, count_digits, go) (omega (arith, ih))
    ]

pub length-le-to_chars_onto :
    (fuel base n : ℕ) (acc : List ℕ) → length acc ≤ length (to_chars_onto fuel base n acc)
unfolding to_chars_onto
length-le-to_chars_onto zero base n acc = omega arith
length-le-to_chars_onto (suc fuel) base n acc = ground (
  arith,
  length-le-to_chars_onto fuel base (n / base) (get_or digit_characters (n % base) 0 ∷ acc),
)

pub to_chars_onto_bound :
    (fuel base n : ℕ) (acc : List ℕ) → length (to_chars_onto fuel base n acc) ≤ fuel + length acc
unfolding to_chars_onto
to_chars_onto_bound zero base n acc = omega arith
to_chars_onto_bound (suc fuel) base n acc =
    ground
      (arith, to_chars_onto_bound fuel base (n / base) (get_or digit_characters (n % base) 0 ∷ acc))

pub to_chars_onto-written :
    (fuel base n : ℕ) (acc : List ℕ) → is_empty (to_chars_onto (suc fuel) base n acc) ≡ false
unfolding to_chars_onto
to_chars_onto-written fuel base n acc =
    let written = get_or digit_characters (n % base) 0 ∷ acc in
    let more = length-le-to_chars_onto fuel base (n / base) written in
    elim (Bool-cases (ltb n base)) [
      | inl small ↦ rw (to_chars_onto, small) refl
      | inr big ↦ rw (to_chars_onto, big) (full _ (omega (arith, more)))
    ]
  where
    full : (xs : List ℕ) → 0 < length xs → is_empty xs ≡ false
    full [] h = absurd (omega arith)
    full (x ∷ xs) h = refl

-- Parsing the decimal digits of a number below 2 ^ 64 gives the number back, and the digit
-- count is their number.
pub parse-append_unsigned_decimal :
    (n : ℕ)
    → n < 2 ^ 64
    → (parse_unsigned_decimal (append_unsigned_decimal n) ≡ some n)
      × (length (append_unsigned_decimal n) ≡ decimal_digit_count n)
unfolding append_unsigned_decimal decimal_digit_count decimal_value meant_decimal
parse-append_unsigned_decimal n h =
    let text = to_chars_onto digit_fuel 10 n [] in
    let count : length text + 1 ≡ count_digits digit_fuel 10 n 1 + 0 + 1 =
      length-to_chars_onto 19 n 1 [] (omega arith) in
    let value : decimal_value 0 text ≡ n =
      decimal_value-to_chars_onto digit_fuel n [] (omega arith) in
    let digits = all_digits-to_chars_onto digit_fuel n [] refl in
    let below : leb n size_max ≡ true = ground arith in
    (
      rw
          (
            parse_unsigned_decimal_lem text,
            to_chars_onto-written 19 10 n [],
            meant_decimal,
            digits,
            value,
            below,
          )
          refl,
      omega (arith, count),
    )
