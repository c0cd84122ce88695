-- ===== src/Timer/Actions.antt =====
-- The actions of the TimerManager of src/Timer.cpp, and their runs.
use fast_net.Prelude.{◌≡◌, ap, ℕ, Bool, ℤ, Option, none, some, List, [], ◌∷◌}
use fast_net.Timer.Manager.{TimerManager}
use fast_net.Timer.Clients.{start, begin_stop, finish_stop, schedule, cancel_timer}
use fast_net.Timer.Loop.{take_timer, leave, call_timer, finish_call, rearm}

-- The first five are the clients', the others the worker's.
pub data Action : Type 0 where
  starts : Action
  begins_stop : Action
  finishes_stop : Action
  schedules : (now : ℕ) (delay : ℤ) (callback : Option ℕ) (repeat : Bool) → Action
  cancels : (timer_id : ℕ) → Action
  takes : (candidate now : ℕ) → Action
  leaves : Action
  calls_timer : Action
  finishes_call : (now : ℕ) → Action
  rearms : Action

unfoldable pub step : Action → TimerManager → Option TimerManager
unfolding start begin_stop finish_stop schedule cancel_timer take_timer leave call_timer finish_call
    rearm
step starts m = start m
step begins_stop m = some (begin_stop m)
step finishes_stop m = finish_stop m
step (schedules now delay callback repeat) m = elim (schedule now delay callback repeat m) [
  | none ↦ none
  | some (id, m) ↦ some m
]
step (cancels timer_id) m = some (cancel_timer timer_id m).1
step (takes candidate now) m = take_timer candidate now m
step leaves m = leave m
step calls_timer m = call_timer m
step (finishes_call now) m = finish_call now m
step rearms m = rearm m

-- Actions one after the other; `none` where one of them has to wait.
unfoldable pub run : List Action → TimerManager → Option TimerManager
run [] m = some m
run (a ∷ actions) m = elim (step a m) [ none ↦ none | some n ↦ run actions n ]

pub run-step :
    (a : Action) (actions : List Action) (m n : TimerManager)
    → step a m ≡ some n
    → run (a ∷ actions) m ≡ run actions n
unfolding run
run-step a actions m n h =
    ap
      (λ (o : Option TimerManager). elim o as (λ _. Option TimerManager) [
        | none ↦ none
        | some k ↦ run actions k
      ])
      h
