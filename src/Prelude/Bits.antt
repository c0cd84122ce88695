-- ===== src/Prelude/Bits.antt =====
-- Shifts and masks of the source as arithmetic, at every width.
use Prim.Native.Nat.{ℕ, zero, suc, ◌+◌, ◌-◌, ◌*◌, ◌/◌, ◌%◌, ◌^◌, ◌≤◌, ◌<◌, min, max, digits, differ}
use Prim.Native.Nat.{bit_and, bit_or, bit_xor, bit_and-bitwise, bit_or-bitwise, bit_xor-bitwise}
use mathlib.Core.Path.{◌≡◌, refl, ap}
use native.Mathlib.Nat.{pow-suc, one-le-pow, div-div-eq-div-mul}
use native.Mathlib.Omega.{arith}

-- `x << k` before it is cut to a word, and `x >> k`.
abbrev pub shl : ℕ → ℕ → ℕ
shl x k = x * 2 ^ k

abbrev pub shr : ℕ → ℕ → ℕ
shr x k = x / 2 ^ k

module _ (z : ℕ → ℕ) (f : ℕ → ℕ → ℕ) where
  -- Any two counts of digits that reach the first number give the same answer.
  digits_enough : (m n a b : ℕ) → a ≤ m → a ≤ n → digits z f m a b ≡ digits z f n a b
  digits_enough zero zero a b hm hn = refl
  digits_enough zero (suc n) zero b hm hn = refl
  digits_enough (suc m) zero zero b hm hn = refl
  digits_enough (suc m) (suc n) zero b hm hn = refl
  digits_enough zero (suc n) (suc a) b hm hn = absurd (omega arith)
  digits_enough (suc m) zero (suc a) b hm hn = absurd (omega arith)
  digits_enough (suc m) (suc n) (suc a) b hm hn =
      ap (λ (t : ℕ). t * 2 + f (suc a % 2) (b % 2))
        (digits_enough m n (suc a / 2) (b / 2) (omega arith) (omega arith))

  -- One round of the digit recursion on any numbers, if a first number that has run out is no case
  -- of its own.
  digits_round :
      ((y : ℕ) → z y ≡ z (y / 2) * 2 + f 0 (y % 2))
      → (a b : ℕ) → digits z f a a b ≡ digits z f (a / 2) (a / 2) (b / 2) * 2 + f (a % 2) (b % 2)
  digits_round out zero b = out b
  digits_round out (suc a) b =
      ap (λ (t : ℕ). t * 2 + f (suc a % 2) (b % 2))
        (digits_enough a (suc a / 2) (suc a / 2) (b / 2) (omega arith) (omega arith))

or_round : (a b : ℕ) → bit_or a b ≡ bit_or (a / 2) (b / 2) * 2 + max (a % 2) (b % 2)
or_round a b = simp bit_or-bitwise (digits_round (λ y. y) max (λ y. omega arith) a b)

and_round : (a b : ℕ) → bit_and a b ≡ bit_and (a / 2) (b / 2) * 2 + min (a % 2) (b % 2)
and_round a b = simp bit_and-bitwise (digits_round (λ y. 0) min (λ y. omega arith) a b)

xor_round : (a b : ℕ) → bit_xor a b ≡ bit_xor (a / 2) (b / 2) * 2 + differ (a % 2) (b % 2)
xor_round a b = simp bit_xor-bitwise (digits_round (λ y. y) differ (λ y. omega arith) a b)

or_zero_bound : (n a : ℕ) → a ≤ n → bit_or a 0 ≡ a
or_zero_bound n zero h = refl
or_zero_bound zero (suc a) h = absurd (omega arith)
or_zero_bound (suc n) (suc a) h =
    omega (arith, or_round (suc a) 0, or_zero_bound n (suc a / 2) (omega arith))

and_zero_bound : (n a : ℕ) → a ≤ n → bit_and a 0 ≡ 0
and_zero_bound n zero h = refl
and_zero_bound zero (suc a) h = absurd (omega arith)
and_zero_bound (suc n) (suc a) h =
    omega (arith, and_round (suc a) 0, and_zero_bound n (suc a / 2) (omega arith))

double_pow : (q k : ℕ) → q * 2 ^ suc k ≡ 2 * (q * 2 ^ k)
double_pow q k = omega (arith, ap (λ (t : ℕ). q * t) (pow-suc 2 k))

-- `(q << k) | r` is a sum where `r` fits in the `k` bits below.
pub or_shl : (k q r : ℕ) → r < 2 ^ k → bit_or (q * 2 ^ k) r ≡ q * 2 ^ k + r
or_shl zero q r h = ground (arith, or_zero_bound (q * 1) (q * 1))
or_shl (suc k) q r h =
    ground (arith, or_round (q * 2 ^ suc k) r, double_pow q k, or_shl k q (r / 2) (omega arith))

-- A mask of the `k` low bits is the remainder by `2 ^ k`.
and_low : (k q r : ℕ) → r < 2 ^ k → bit_and (q * 2 ^ k + r) (2 ^ k - 1) ≡ r
and_low zero q r h = ground (arith, and_zero_bound (q * 1 + r) (q * 1 + r))
and_low (suc k) q r h = ground (
  arith,
  and_round (q * 2 ^ suc k + r) (2 ^ suc k - 1),
  double_pow q k,
  pow-suc 2 k,
  and_low k q (r / 2) (omega arith),
)

pub and_mask : (k a : ℕ) → bit_and a (2 ^ k - 1) ≡ a % 2 ^ k
and_mask k a = ground (arith, one-le-pow k 2, and_low k (a / 2 ^ k) (a % 2 ^ k))

-- One bit of a number, where it stands.
pub and_bit : (k a : ℕ) → bit_and a (2 ^ k) ≡ a / 2 ^ k % 2 * 2 ^ k
and_bit zero a = omega (arith, and_mask 1 a)
and_bit (suc k) a = ground (
  arith,
  and_round a (2 ^ suc k),
  pow-suc 2 k,
  and_bit k (a / 2),
  div-div-eq-div-mul a 2 (2 ^ k),
  double_pow (a / 2 / 2 ^ k % 2) k,
)

differ_twice : (x y : ℕ) → x < 2 → y < 2 → (differ (differ x y) y ≡ x) × (differ x y < 2)
differ_twice zero zero hx hy = omega arith
differ_twice zero (suc zero) hx hy = omega arith
differ_twice (suc zero) zero hx hy = omega arith
differ_twice (suc zero) (suc zero) hx hy = omega arith
differ_twice zero (suc (suc y)) hx hy = absurd (omega arith)
differ_twice (suc zero) (suc (suc y)) hx hy = absurd (omega arith)
differ_twice (suc (suc x)) y hx hy = absurd (omega arith)

-- The parts of one digit step: the halves and the lowest digit of `a ^ b`.
xor_parts :
    (a b : ℕ)
    → (bit_xor a b / 2 ≡ bit_xor (a / 2) (b / 2)) × (bit_xor a b % 2 ≡ differ (a % 2) (b % 2))
xor_parts a b =
    omega (arith, xor_round a b, (differ_twice (a % 2) (b % 2) (omega arith) (omega arith)).1)

-- Masking a `k`-bit word twice with the same key gives it back.
pub xor-xor : (k a b : ℕ) → a < 2 ^ k → b < 2 ^ k → bit_xor (bit_xor a b) b ≡ a
xor-xor zero a b ha hb =
    let ea : a ≡ 0 = omega arith in let eb : b ≡ 0 = omega arith in rw (ea, eb) refl
xor-xor (suc k) a b ha hb = ground (
  arith,
  xor_round (bit_xor a b) b,
  xor_parts a b,
  pow-suc 2 k,
  xor-xor k (a / 2) (b / 2),
  differ_twice (a % 2) (b % 2),
)

-- An exclusive or of two `k`-bit words is a `k`-bit word.
pub xor-lt : (k a b : ℕ) → a < 2 ^ k → b < 2 ^ k → bit_xor a b < 2 ^ k
xor-lt zero a b ha hb =
    let ea : a ≡ 0 = omega arith in let eb : b ≡ 0 = omega arith in rw (ea, eb) (omega arith)
xor-lt (suc k) a b ha hb = omega (
  arith,
  xor_parts a b,
  pow-suc 2 k,
  xor-lt k (a / 2) (b / 2) (omega (arith, pow-suc 2 k)) (omega (arith, pow-suc 2 k)),
)
