-- ===== src/SpinLock/Exclusion.antt =====
-- Mutual exclusion of the lock of include/FastNet/SpinLock.h.
use fast_net.Prelude.{ℕ, ◌+◌, ◌≡◌, ◌⊎◌, inl, inr, refl, ap, subst, Bool, true, false, arith}
use fast_net.Prelude.{Option, none, some, List, [], ◌∷◌, ◌==◌, if◌then◌else◌}
use fast_net.SpinLock.Lock.{
  Caller, Caller.locks, Caller.tries, Position, Position.outside, Position.tests, Position.claims,
  Position.waits, Position.holds, SpinLock, new_lock, move, refused, advance, enter, unlock, Action,
  Action.calls_lock, Action.calls_try_lock, Action.advances, Action.unlocks, step, run,
}

abbrev pub is_holding : Position → Bool
is_holding outside = false
is_holding (tests c) = false
is_holding (claims c) = false
is_holding (waits spin) = false
is_holding holds = true

abbrev pub IsFree : SpinLock → Type 0
IsFree s = (s.locked ≡ false) × ((i : ℕ) → is_holding (s.position i) ≡ false)

abbrev pub IsHeld : SpinLock → Type 0
IsHeld s = (h : ℕ) × (s.locked ≡ true) × ((i : ℕ) → is_holding (s.position i) ≡ (i == h))

-- Free, or held by just one thread.
abbrev pub IsExclusive : SpinLock → Type 0
IsExclusive s = IsFree s ⊎ IsHeld s

abbrev Kept : Option SpinLock → Type 0
Kept none = Unit {0}
Kept (some s) = IsExclusive s

refused-is_holding : (c : Caller) → is_holding (refused c) ≡ false
unfolding refused
refused-is_holding (locks spin) = ground arith
refused-is_holding tries = refl

-- A thread that does not hold the lock moves to where it does not hold it either.
move-IsExclusive :
    (i : ℕ) (p : Position) (s : SpinLock)
    → is_holding (s.position i) ≡ false
    → is_holding p ≡ false
    → IsExclusive s
    → IsExclusive (move i p s)
move-IsExclusive i p s h k (inl f) = inl (f.0, λ j. ground (arith, f.1 j))
move-IsExclusive i p s h k (inr f) = inr (f.0, f.1, λ j. ground (arith, f.2 j, f.2 i))

advance-Kept :
    (p : Position) (i : ℕ) (s : SpinLock) → s.position i ≡ p → IsExclusive s → Kept (advance p i s)
unfolding advance
advance-Kept outside i s e x = tt
advance-Kept (tests c) i s e x =
    move-IsExclusive i (if s.locked then refused c else claims c) s (ap is_holding e)
      (ground (arith, refused-is_holding c)) x
advance-Kept (claims c) i s e (inl f) = inr (i, refl, λ j. ground (arith, f.0, f.1 j))
advance-Kept (claims c) i s e (inr f) =
    inr (f.0, refl, λ j. ground (arith, f.1, f.2 j, f.2 i, ap is_holding e, refused-is_holding c))
advance-Kept (waits spin) i s e x =
    move-IsExclusive i (if s.locked then waits spin else tests (locks (spin + 1))) s
      (ap is_holding e) (ground arith) x
advance-Kept holds i s e x = tt

enter-Kept :
    (p : Position) (c : Caller) (i : ℕ) (s : SpinLock)
    → s.position i ≡ p
    → IsExclusive s
    → Kept (enter p c i s)
unfolding enter
enter-Kept outside c i s e x = move-IsExclusive i (tests c) s (ap is_holding e) refl x
enter-Kept (tests d) c i s e x = tt
enter-Kept (claims d) c i s e x = tt
enter-Kept (waits spin) c i s e x = tt
enter-Kept holds c i s e x = tt

unlock-Kept :
    (p : Position) (i : ℕ) (s : SpinLock) → s.position i ≡ p → IsExclusive s → Kept (unlock p i s)
unfolding unlock
unlock-Kept outside i s e x = tt
unlock-Kept (tests d) i s e x = tt
unlock-Kept (claims d) i s e x = tt
unlock-Kept (waits spin) i s e x = tt
unlock-Kept holds i s e (inl f) = absurd (ground (arith, f.1 i, ap is_holding e))
unlock-Kept holds i s e (inr f) = inl (refl, λ j. ground (arith, f.2 j, f.2 i, ap is_holding e))

step-Kept : (a : Action) (s : SpinLock) → IsExclusive s → Kept (step a s)
unfolding step
step-Kept (calls_lock i) s x = enter-Kept (s.position i) (locks 0) i s refl x
step-Kept (calls_try_lock i) s x = enter-Kept (s.position i) tries i s refl x
step-Kept (advances i) s x = advance-Kept (s.position i) i s refl x
step-Kept (unlocks i) s x = unlock-Kept (s.position i) i s refl x

Kept-then :
    (o : Option SpinLock) (f : SpinLock → Option SpinLock)
    → Kept o
    → ((s : SpinLock) → IsExclusive s → Kept (f s))
    → Kept (elim o as (λ _. Option SpinLock) [ none ↦ none | some s ↦ f s ])
Kept-then none f k h = tt
Kept-then (some s) f k h = h s k

run-Kept : (actions : List Action) (s : SpinLock) → IsExclusive s → Kept (run actions s)
unfolding run
run-Kept [] s x = x
run-Kept (a ∷ actions) s x = Kept-then (step a s) (run actions) (step-Kept a s x) (run-Kept actions)

-- After any interleaving of the steps of any number of threads on a new lock, either it is free and
-- no thread is in a critical section, or it is taken and exactly one thread is.
pub run-IsExclusive :
    (actions : List Action) (s : SpinLock) → run actions new_lock ≡ some s → IsExclusive s
run-IsExclusive actions s h = subst Kept h (run-Kept actions new_lock (inl (refl, λ i. refl)))
