-- ===== src/HttpParser/Numbers.antt =====
-- The numbers in src/HttpParser.cpp: parsing with overflow checks, `std::to_chars`, digit counts.
pub mod Decimal
pub mod Hex
use fast_net.Prelude.{ℤ, pos, negsuc}
use fast_net.Prelude.{
  ℕ, zero, suc, ◌+◌, ◌-◌, ◌*◌, ◌/◌, ◌%◌, ◌^◌, Bool, true, false, not, ◌&&◌, ◌||◌,
}
use fast_net.Prelude.{Option, none, some, List, [], ◌∷◌, codes, is_empty}
use fast_net.Prelude.{ltb, leb, ◌==◌, if◌then◌else◌, get_or}
use fast_net.HttpParser.Text.{is_digit, trim}

-- `std::numeric_limits<size_t>::max()`
abbrev pub size_max : ℕ
size_max = 2 ^ 64 - 1

unfoldable pub decimal_loop : ℕ → List ℕ → Option ℕ
unfolding is_digit
decimal_loop result [] = some result
decimal_loop result (ch ∷ value) =
    let digit = ch - b'0' in
    let rest = decimal_loop (result * 10 + digit) value in
    if not (is_digit ch) then none else if ltb ((size_max - digit) / 10) result then none else rest

unfoldable pub parse_unsigned_decimal : List ℕ → Option ℕ
unfolding decimal_loop
parse_unsigned_decimal value = if is_empty value then none else decimal_loop 0 value

-- `none` is the -1 of `hexDigitValue`.
unfoldable pub hex_digit_value : ℕ → Option ℕ
hex_digit_value ch =
    if leb b'0' ch && leb ch b'9'
    then some (ch - b'0')
    else if leb b'A' ch && leb ch b'F'
    then some (ch - b'A' + 10)
    else if leb b'a' ch && leb ch b'f'
    then some (ch - b'a' + 10)
    else none

unfoldable pub hex_loop : ℕ → List ℕ → Option ℕ
unfolding hex_digit_value
hex_loop result [] = some result
hex_loop result (ch ∷ value) = elim (hex_digit_value ch) [
  | none ↦ none
  | some digit ↦
      if ltb ((size_max - digit) / 16) result then none else hex_loop (result * 16 + digit) value
]

unfoldable pub parse_hex_size : List ℕ → Option ℕ
unfolding hex_loop trim
parse_hex_size text = let value = trim text in if is_empty value then none else hex_loop 0 value

abbrev pub digit_characters : List ℕ
digit_characters = codes "0123456789abcdef"

-- `std::to_chars`, the last digit first, on fuel.
unfoldable pub to_chars_onto : ℕ → (base value : ℕ) → List ℕ → List ℕ
to_chars_onto zero base value acc = acc
to_chars_onto (suc fuel) base value acc =
    let written = get_or digit_characters (value % base) 0 ∷ acc in
    let more = to_chars_onto fuel base (value / base) written in
    if ltb value base then written else more

-- A `size_t` has 20 decimal digits at most.
abbrev pub digit_fuel : ℕ
digit_fuel = 20

unfoldable pub append_unsigned_decimal : ℕ → List ℕ
unfolding to_chars_onto
append_unsigned_decimal value = to_chars_onto digit_fuel 10 value []

unfoldable pub append_unsigned_hex : ℕ → List ℕ
unfolding to_chars_onto
append_unsigned_hex value = to_chars_onto digit_fuel 16 value []

-- The value is an `int`.
unfoldable pub append_signed_decimal : ℤ → List ℕ
unfolding append_unsigned_decimal
append_signed_decimal (pos n) = append_unsigned_decimal n
append_signed_decimal (negsuc n) = b'-' ∷ append_unsigned_decimal (n + 1)

-- The loop of the digit counts.
unfoldable pub count_digits : ℕ → (base value digits : ℕ) → ℕ
count_digits zero base value digits = digits
count_digits (suc fuel) base value digits =
    let more = count_digits fuel base (value / base) (digits + 1) in
    if leb base value then more else digits

unfoldable pub decimal_digit_count : ℕ → ℕ
unfolding count_digits
decimal_digit_count value = count_digits digit_fuel 10 value 1

unfoldable pub signed_digit_count : ℤ → ℕ
unfolding count_digits
signed_digit_count (pos n) = count_digits digit_fuel 10 n 1
signed_digit_count (negsuc n) = count_digits digit_fuel 10 (n + 1) 2

unfoldable pub hex_digit_count : ℕ → ℕ
unfolding count_digits
hex_digit_count value = count_digits digit_fuel 16 value 1
