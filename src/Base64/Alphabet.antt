-- ===== src/Base64/Alphabet.antt =====
-- The alphabet and the table that inverts it.
use fast_net.Prelude.{ℕ, zero, suc, ◌<◌, ◌≡◌, refl, Bool, true, false, not, ◌&&◌}
use fast_net.Prelude.{
  Option, none, some, List, [], ◌∷◌, get_or, ◌==◌, ltb, holds_below, test_of_holds_below, arith,
}
use fast_net.Base64.{symbol, base64_decode_table, table_at, is_ignored_whitespace}

abbrev same_entry : Option ℕ → ℕ → Bool
same_entry none i = false
same_entry (some j) i = j == i

same_entry→eq : (o : Option ℕ) (i : ℕ) → same_entry o i ≡ true → o ≡ some i
same_entry→eq o i h = ground arith

abbrev checked : ℕ → Bool
checked i =
    same_entry (table_at (symbol i)) i
    && (not (symbol i == b'=') && not (is_ignored_whitespace (symbol i)))

symbols_table : holds_below checked 64 ≡ true
unfolding holds_below table_at is_ignored_whitespace
symbols_table = refl

-- A symbol of the alphabet is found in the table, and is neither padding nor white space.
pub symbol_lem :
    (i : ℕ)
    → i < 64
    → (table_at (symbol i) ≡ some i)
      × ((symbol i == b'=') ≡ false)
      × (is_ignored_whitespace (symbol i) ≡ false)
symbol_lem i h =
    ground (
      arith,
      same_entry→eq (table_at (symbol i)) i,
      test_of_holds_below checked i 64 h symbols_table,
    )

valid_entries : List (Option ℕ) → Bool
valid_entries [] = true
valid_entries (none ∷ os) = valid_entries os
valid_entries (some v ∷ os) = ltb v 64 && valid_entries os

get_or-lt :
    (os : List (Option ℕ)) (i v : ℕ) → valid_entries os ≡ true → get_or os i none ≡ some v → v < 64
unfolding valid_entries
get_or-lt [] i v h e = cc
get_or-lt (none ∷ os) zero v h e = cc
get_or-lt (none ∷ os) (suc i) v h e = get_or-lt os i v h e
get_or-lt (some w ∷ os) zero v h e = ground arith
get_or-lt (some w ∷ os) (suc i) v h e = get_or-lt os i v (ground arith) e

-- What the table gives is a six-bit value.
pub table_at-lt : (c v : ℕ) → table_at c ≡ some v → v < 64
unfolding table_at valid_entries
table_at-lt c v e = get_or-lt base64_decode_table c v refl e
