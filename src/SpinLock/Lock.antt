-- ===== src/SpinLock/Lock.antt =====
-- The lock of include/FastNet/SpinLock.h and the steps of the threads that use it, each up to its
-- next access to `locked_`. A thread unlocks only what it holds.
use fast_net.Prelude.{ℕ, ◌+◌, Bool, true, false, Option, none, some, List, [], ◌∷◌}
use fast_net.Prelude.{ltb, ◌==◌, if◌then◌else◌}

-- The call of `tryAcquire`: from `lock`, with its count of spins, or from `try_lock`.
pub data Caller : Type 0 where
  locks : ℕ → Caller
  tries : Caller

-- Before the load of `tryAcquire`, before its exchange, in the loop that waits, or in the critical
-- section.
pub data Position : Type 0 where
  outside : Position
  tests : Caller → Position
  claims : Caller → Position
  waits : ℕ → Position
  holds : Position

pub record SpinLock : Type 0 where
  pub locked : Bool
  pub position : ℕ → Position

abbrev pub max_spin_count : ℕ
max_spin_count = 64

abbrev pub new_lock : SpinLock
new_lock = record { locked = false; position = λ i. outside }

abbrev pub move : ℕ → Position → SpinLock → SpinLock
move i p s = record s { position = λ j. if j == i then p else s.position j }

-- Where a caller is once `tryAcquire` has returned false.
unfoldable pub refused : Caller → Position
refused (locks spin) = if ltb spin max_spin_count then waits spin else tests (locks spin)
refused tries = outside

unfoldable pub advance : Position → ℕ → SpinLock → Option SpinLock
unfolding refused
advance outside i s = none
advance (tests c) i s = some (move i (if s.locked then refused c else claims c) s)
advance (claims c) i s =
    some (record (move i (if s.locked then refused c else holds) s) { locked = true })
advance (waits spin) i s =
    some (move i (if s.locked then waits spin else tests (locks (spin + 1))) s)
advance holds i s = none

unfoldable pub enter : Position → Caller → ℕ → SpinLock → Option SpinLock
enter outside c i s = some (move i (tests c) s)
enter (tests d) c i s = none
enter (claims d) c i s = none
enter (waits spin) c i s = none
enter holds c i s = none

unfoldable pub unlock : Position → ℕ → SpinLock → Option SpinLock
unlock outside i s = none
unlock (tests d) i s = none
unlock (claims d) i s = none
unlock (waits spin) i s = none
unlock holds i s = some (record (move i outside s) { locked = false })

-- A thread calls `lock` or `try_lock`, makes its next step in the call, or calls `unlock`.
pub data Action : Type 0 where
  calls_lock : ℕ → Action
  calls_try_lock : ℕ → Action
  advances : ℕ → Action
  unlocks : ℕ → Action

unfoldable pub step : Action → SpinLock → Option SpinLock
step (calls_lock i) s = enter (s.position i) (locks 0) i s
step (calls_try_lock i) s = enter (s.position i) tries i s
step (advances i) s = advance (s.position i) i s
step (unlocks i) s = unlock (s.position i) i s

unfoldable pub run : List Action → SpinLock → Option SpinLock
run [] s = some s
run (a ∷ actions) s = elim (step a s) as (λ _. Option SpinLock) [
  | none ↦ none
  | some s ↦ run actions s
]
