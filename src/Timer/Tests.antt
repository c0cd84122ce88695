-- ===== src/Timer/Tests.antt =====
-- Runs of the TimerManager, and the theorems at concrete inputs.
use fast_net.Prelude.{◌<◌, ◌≡◌, refl, true, false, pos, some, none, List, [], ◌∷◌, arith}
use fast_net.Timer.Manager.{TimerManager, Worker.idle, Worker.calling, new_manager, find_timer}
use fast_net.Timer.Clients.{cancel_timer}
use fast_net.Timer.Actions.{
  Action, Action.schedules, Action.takes, Action.calls_timer, Action.finishes_call, Action.rearms,
  step, run,
}
use fast_net.Timer.Inv.{IsValid, count}
use fast_net.Timer.Runs.{run-IsValid}
use fast_net.Timer.Cancel.{cancel_timer_silences, cancel_timer-lost}
use fast_net.Prelude.{ℕ, Option}
use fast_net.Timer.Timeouts.{
  ConnectionTimeout, ConnectionTimeoutManager, set_connection_timeout, refresh_connection,
  find_connection,
}
use fast_net.Timer.Timeouts.Refresh.{Rearmed, refresh_connection-Rearmed}
use fast_net.Timer.Progress.{Takes, due_timer_taken}

abbrev twice : List Action
twice = schedules 10 (pos 5) (some 7) true ∷ schedules 10 (pos 3) (some 8) false ∷ []

-- Both timers are called, the earlier one first, and the repeating one is queued again.
abbrev both_called : List Action
both_called =
    schedules 10 (pos 5) (some 7) true
    ∷ schedules 10 (pos 3) (some 8) false
    ∷ takes 1 20
    ∷ calls_timer
    ∷ finishes_call 20
    ∷ takes 0 21
    ∷ calls_timer
    ∷ finishes_call 22
    ∷ rearms
    ∷ []

abbrev reached : List Action → TimerManager
reached actions = elim (run actions new_manager) [ none ↦ new_manager | some m ↦ m ]

run-both_called : run both_called new_manager ≡ some (reached both_called)
unfolding run step
run-both_called = refl

in_order : (reached both_called).calls ≡ 1 ∷ 2 ∷ []
unfolding run step
in_order = refl

run-twice : run twice new_manager ≡ some (reached twice)
unfolding run step
run-twice = refl

run-IsValid_example : IsValid (reached both_called)
run-IsValid_example = run-IsValid both_called (reached both_called) run-both_called (omega arith)

abbrev cancelled : TimerManager
cancelled = (cancel_timer 1 (reached twice)).1

abbrev the_others : List Action
the_others = takes 1 20 ∷ calls_timer ∷ finishes_call 20 ∷ takes 0 20 ∷ []

abbrev left : TimerManager
left = elim (run the_others cancelled) [ none ↦ cancelled | some m ↦ m ]

run_cancelled :
    (cancel_timer 1 (reached twice) ≡ (true, cancelled)) × (run the_others cancelled ≡ some left)
unfolding run step
run_cancelled = (refl, refl)

cancel_timer_silences_example : count 1 left.calls ≡ count 1 (reached twice).calls
cancel_timer_silences_example =
    cancel_timer_silences twice the_others 1 (reached twice) cancelled left run-twice
      run_cancelled.0 run_cancelled.1 (omega arith)

abbrev in_callback : List Action
in_callback = schedules 10 (pos 5) (some 7) true ∷ takes 0 20 ∷ calls_timer ∷ []

run-in_callback :
    (run in_callback new_manager ≡ some (reached in_callback))
    × ((reached in_callback).worker ≡ calling 0)
    × ((reached in_callback).running ≡ true)
    × (((reached in_callback).store 0).repeat ≡ true)
    × (((reached in_callback).store 0).cancelled ≡ false)
unfolding run step
run-in_callback = (refl, refl, refl, refl, refl)

cancel_timer-lost_example :
    (cancel_timer ((reached in_callback).store 0).id (reached in_callback)
      ≡ (false, reached in_callback))
    × ((n : TimerManager) × (run (finishes_call 21 ∷ rearms ∷ []) (reached in_callback) ≡ some n)
        × (find_timer ((reached in_callback).store 0).id n.active_timers ≡ some 0)
        × (0 < count 0 n.timers))
cancel_timer-lost_example =
    cancel_timer-lost (reached in_callback) 0 21
      (run-IsValid in_callback (reached in_callback) run-in_callback.0 (omega arith))
      run-in_callback.1 run-in_callback.2 run-in_callback.3 run-in_callback.4

waiting :
    ((reached twice).worker ≡ idle)
    × ((reached twice).running ≡ true)
    × (count 0 (reached twice).timers ≡ 1)
    × (((reached twice).store 0).cancelled ≡ false)
    × (((reached twice).store 0).expire_time ≡ 15)
unfolding run step count
waiting = (refl, refl, refl, refl, refl)

due_timer_taken_example : Takes (reached twice) 0 20
due_timer_taken_example =
    due_timer_taken (reached twice) 0 20 waiting.0 waiting.1 (omega (arith, waiting.2)) waiting.3
      (omega (arith, waiting.4))

abbrev closure : ℕ → Option ℕ → ℕ
closure conn_id callback = conn_id

abbrev no_connections : ConnectionTimeoutManager
no_connections = record { timer_manager = new_manager; connections = [] }

-- The connection 4, with a timeout of 5.
abbrev managed : ConnectionTimeoutManager
managed = elim (set_connection_timeout closure 10 4 (pos 5) (some 7) no_connections) [
  | none ↦ no_connections
  | some m ↦ m
]

abbrev managed_entry : ConnectionTimeout
managed_entry = record { conn_id = 4; timer_id = 1; timeout = pos 5; callback = some 7 }

managed_facts :
    (run (schedules 10 (pos 5) (some 4) false ∷ []) new_manager ≡ some managed.timer_manager)
    × (managed.timer_manager.running ≡ true)
    × (managed.timer_manager.allocated ≡ 1)
    × (find_connection 4 managed.connections ≡ some managed_entry)
unfolding run step set_connection_timeout
managed_facts = (refl, refl, refl, refl)

refresh_connection-Rearmed_example :
    (n : ConnectionTimeoutManager) × (refresh_connection closure 12 4 managed ≡ some n)
    × Rearmed 4 12 managed_entry managed n
refresh_connection-Rearmed_example =
    refresh_connection-Rearmed closure 12 4 managed managed_entry
      (run-IsValid (schedules 10 (pos 5) (some 4) false ∷ []) managed.timer_manager managed_facts.0
        (omega arith))
      managed_facts.1 (omega (arith, managed_facts.2)) managed_facts.3
      (omega (arith, managed_facts.2))
