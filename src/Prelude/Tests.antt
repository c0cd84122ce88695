-- ===== src/Prelude/Tests.antt =====
-- Boolean tests on the native numbers, the conditional, and case lemmas.
use Prim.Native.Nat.{ℕ, zero, suc, ◌≤◌, ◌<◌, compare, Ordering}
use mathlib.Core.Path.{◌≡◌, refl, ap}
use mathlib.Core.Logic.{◌↔◌, ◌≢◌, ◌⊎◌, inl, inr}
use mathlib.Core.Bool.{Bool, true, false, ◌&&◌}
use mathlib.Core.Option.{Option, none, some}
use native.Mathlib.Omega.{arith}

abbrev pub ltb : ℕ → ℕ → Bool
ltb a b = elim (compare a b) [ Ordering.lt ↦ true | _ ↦ false ]

abbrev pub leb : ℕ → ℕ → Bool
leb a b = elim (compare a b) [ Ordering.gt ↦ false | _ ↦ true ]

infix 50 ◌==◌
abbrev pub ◌==◌ : ℕ → ℕ → Bool
a == b = elim (compare a b) [ Ordering.eq ↦ true | _ ↦ false ]

infix 1 if◌then◌else◌
abbrev pub if◌then◌else◌ {ℓ} : {A : Type ℓ} → Bool → A → A → A
if true then x else y = x
if false then x else y = y

pub ltb→lt : (a b : ℕ) → ltb a b ≡ true → a < b
ltb→lt a b h = ground arith

pub lt→ltb : (a b : ℕ) → a < b → ltb a b ≡ true
lt→ltb a b h = ground arith

pub leb→le : (a b : ℕ) → leb a b ≡ true → a ≤ b
leb→le a b h = ground arith

pub ==_iff : (a b : ℕ) → ((a == b) ≡ true) ↔ (a ≡ b)
==_iff a b = ground arith

pub ==_ne : (a b : ℕ) → a ≢ b → (a == b) ≡ false
==_ne a b h = ground arith

pub Bool-cases : (b : Bool) → (b ≡ true) ⊎ (b ≡ false)
Bool-cases true = inl refl
Bool-cases false = inr refl

pub Option-cases {ℓ} : {A : Type ℓ} (o : Option A) → (o ≡ none) ⊎ ((a : A) × (o ≡ some a))
Option-cases none = inl refl
Option-cases (some a) = inr (a, refl)

-- A property of the numbers below a bound, checked by evaluation.
unfoldable pub holds_below : (ℕ → Bool) → ℕ → Bool
holds_below test zero = true
holds_below test (suc bound) = holds_below test bound && test bound

pub test_of_holds_below :
    (test : ℕ → Bool) (i : ℕ) (bound : ℕ)
    → i < bound
    → holds_below test bound ≡ true
    → test i ≡ true
unfolding holds_below
test_of_holds_below test i zero below all = absurd (omega arith)
test_of_holds_below test i (suc bound) below all = ground (arith, test_of_holds_below test i bound)

pub if_true {ℓ} : {A : Type ℓ} {t : Bool} → (x y : A) → t ≡ true → (if t then x else y) ≡ x
if_true x y e = ap (λ t. if t then x else y) e

pub if_false {ℓ} : {A : Type ℓ} {t : Bool} → (x y : A) → t ≡ false → (if t then x else y) ≡ y
if_false x y e = ap (λ t. if t then x else y) e

-- What follows a refused guard has not been reached.
pub guard_passed {ℓ} :
    {A : Type ℓ} (t : Bool) (r : Option A) {a : A}
    → (if t then none else r) ≡ some a
    → (t ≡ false) × (r ≡ some a)
guard_passed true r h = absurd (cc (h))
guard_passed false r h = (refl, h)
