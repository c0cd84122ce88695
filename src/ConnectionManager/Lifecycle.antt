-- ===== src/ConnectionManager/Lifecycle.antt =====
-- The maintenance thread of src/ConnectionManager.cpp: initialize, maintenanceLoop, cleanup and the
-- destructor, whose steps interleave with the other calls.
pub mod Orderly
pub mod Calls
mod Tests
use fast_net.Prelude.{ℕ, zero, suc, ◌+◌, Bool, true, false, not, ◌||◌}
use fast_net.Prelude.{Option, none, some, List, [], ◌∷◌, if◌then◌else◌}
use fast_net.ConnectionManager.State.{Settings, ConnectionManager, new_manager}
use fast_net.ConnectionManager.Pool.{maintain}
use fast_net.ConnectionManager.Acquire.{clean_up}
use fast_net.ConnectionManager.Actions.{Action, step}

-- `maintenanceThread`: no thread, before the test of the loop, in `wait_for`, or at its end and
-- not joined.
pub data Worker : Type 0 where
  absent : Worker
  at_test : Worker
  in_wait : Worker
  ended : Worker

-- Where a `cleanup` is: none, before its join, or before it clears the tables.
pub data Cleanup : Type 0 where
  uncalled : Cleanup
  joining : Cleanup
  clearing : Cleanup

-- `starting` counts the calls of `initialize` that have set `running` and not yet made the thread.
-- `terminated` is set where the program would call `std::terminate`.
pub record Lifecycle : Type 0 where
  pub manager : ConnectionManager
  pub running : Bool
  pub starting : ℕ
  pub worker : Worker
  pub cleanup : Cleanup
  pub terminated : Bool

abbrev pub is_joinable : Worker → Bool
is_joinable absent = false
is_joinable at_test = true
is_joinable in_wait = true
is_joinable ended = true

abbrev pub unstarted : Lifecycle
unstarted = record {
  manager = new_manager;
  running = false;
  starting = 0;
  worker = absent;
  cleanup = uncalled;
  terminated = false;
}

-- `initialize` up to its exchange.
unfoldable pub claim : Lifecycle → Lifecycle
claim s = if s.running then s else record s { running = true; starting = s.starting + 1 }

-- The rest of it: a thread is assigned to `maintenanceThread`, which must not be joinable.
unfoldable pub spawn : ℕ → Lifecycle → Option Lifecycle
spawn zero s = none
spawn (suc n) s =
    some (record s {
      starting = n;
      worker = at_test;
      terminated = s.terminated || is_joinable s.worker;
    })

-- `cleanup` up to its join.
unfoldable pub stop : Lifecycle → Lifecycle
stop s = record s { running = false; cleanup = if s.running then joining else clearing }

-- The join waits for the end of the thread.
unfoldable pub join : Worker → Lifecycle → Option Lifecycle
join absent s = some (record s { cleanup = clearing })
join at_test s = none
join in_wait s = none
join ended s = some (record s { worker = absent; cleanup = clearing })

abbrev pub clear : Lifecycle → Lifecycle
clear s = record s { manager = clean_up s.manager; cleanup = uncalled }

-- The test of the loop.
unfoldable pub check_running : Lifecycle → Lifecycle
check_running s = record s { worker = if s.running then in_wait else ended }

-- The end of `wait_for`, and a round where its predicate is false.
unfoldable pub wake : Settings → ℕ → Lifecycle → Lifecycle
wake settings now s =
    if not s.running
    then record s { worker = ended }
    else record s { worker = at_test; manager = maintain settings now s.manager }

-- `calls` are the other public calls, each of which holds the mutex.
pub data Event : Type 0 where
  claims : Event
  spawns : Event
  stops : Event
  joins : Event
  clears : Event
  checks : Event
  wakes : ℕ → Event
  calls : Action → Event

-- One cleanup is followed at a time: another one that comes while the manager does not run only
-- clears the tables, which is a call. `none` is an event that is not possible.
module _ (settings : Settings) (hash : List ℕ → ℕ) where
  unfoldable pub advance : Event → Worker → Cleanup → Lifecycle → Option Lifecycle
  unfolding claim spawn stop join check_running wake
  advance claims worker cleanup s = some (claim s)
  advance spawns worker cleanup s = spawn s.starting s
  advance stops worker uncalled s = some (stop s)
  advance joins worker joining s = join worker s
  advance clears worker clearing s = some (clear s)
  advance checks at_test cleanup s = some (check_running s)
  advance (wakes now) in_wait cleanup s = some (wake settings now s)
  advance (calls a) worker cleanup s = some (record s { manager = step settings hash a s.manager })
  advance e worker cleanup s = none

  unfoldable pub advance_all : List Event → Lifecycle → Option Lifecycle
  unfolding advance
  advance_all [] s = some s
  advance_all (e ∷ events) s = elim (advance e s.worker s.cleanup s) as (λ _. Option Lifecycle) [
    | none ↦ none
    | some s ↦ advance_all events s
  ]
