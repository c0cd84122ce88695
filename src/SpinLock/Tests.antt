-- ===== src/SpinLock/Tests.antt =====
-- Threads that race for the lock.
use fast_net.Prelude.{◌≡◌, refl, none, some, List, [], ◌∷◌}
use fast_net.SpinLock.Lock.{
  Position.waits, Position.outside, Position.holds, SpinLock, new_lock, advance, enter, unlock,
  refused, Action, Action.calls_lock, Action.calls_try_lock, Action.advances, step, run,
}
use fast_net.SpinLock.Exclusion.{IsExclusive, run-IsExclusive}

-- All three see the lock free, and the second is the first to exchange.
abbrev race : List Action
race =
    calls_lock 0
    ∷ calls_try_lock 1
    ∷ calls_try_lock 2
    ∷ advances 0
    ∷ advances 1
    ∷ advances 2
    ∷ advances 1
    ∷ advances 0
    ∷ advances 2
    ∷ advances 0
    ∷ []

abbrev reached : SpinLock
reached = elim (run race new_lock) [ none ↦ new_lock | some s ↦ s ]

run-race :
    (run race new_lock ≡ some reached)
    × (reached.position 0 ≡ waits 0)
    × (reached.position 1 ≡ holds)
    × (reached.position 2 ≡ outside)
unfolding run step advance enter unlock refused
run-race = (refl, refl, refl, refl)

run-IsExclusive_example : IsExclusive reached
run-IsExclusive_example = run-IsExclusive race reached run-race.0
