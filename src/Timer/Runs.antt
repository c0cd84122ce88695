-- ===== src/Timer/Runs.antt =====
-- The invariant of the TimerManager of src/Timer.cpp along its runs.
use fast_net.Prelude.{ℕ, ◌+◌, ◌-◌, ◌%◌, ◌^◌, ◌≤◌, ◌≡◌, refl, subst, sym, ◌∙◌, Bool, false, arith, ℤ}
use fast_net.Prelude.{Option, none, some, List, [], ◌∷◌, length}
use fast_net.Timer.Manager.{TimerEntry, TimerManager, new_manager, at_least}
use fast_net.Timer.Clients.{
  start, start_thread, clear_timers, add_entry, begin_stop, finish_stop, schedule, cancel_timer,
  generate_timer_id,
}
use fast_net.Timer.Loop.{
  take_candidate, leave_loops, call_taken, finish_called, rearm_held, take_timer, leave, call_timer,
  finish_call, rearm,
}
use fast_net.Timer.Actions.{
  Action, Action.starts, Action.begins_stop, Action.finishes_stop, Action.schedules, Action.cancels,
  Action.takes, Action.leaves, Action.calls_timer, Action.finishes_call, Action.rearms, step, run,
}
use fast_net.Timer.Inv.{IsValid, Kept, Kept-if, new_manager-IsValid}
use fast_net.Timer.Inv.Clients.{
  start-Kept, clear_timers-Kept, add_entry-IsValid, begin_stop-IsValid, cancel_timer-IsValid,
}
use fast_net.Timer.Inv.Loop.{
  take_candidate-Kept, leave_loops-Kept, call_taken-Kept, finish_called-Kept, rearm_held-Kept,
}

-- How many pointers a call leaves.
abbrev pub Allocates : ℕ → Option TimerManager → Type 0
Allocates k none = Unit {0}
Allocates k (some n) = n.allocated ≤ k

start-Allocates : (m : TimerManager) → Allocates m.allocated (start m)
unfolding start start_thread
start-Allocates m = ground arith

pub step-Allocates : (a : Action) (m : TimerManager) → Allocates (m.allocated + 1) (step a m)
unfolding step start start_thread begin_stop finish_stop clear_timers schedule add_entry
    generate_timer_id cancel_timer take_timer take_candidate leave leave_loops call_timer call_taken
    finish_call finish_called rearm rearm_held
step-Allocates starts m = ground arith
step-Allocates begins_stop m = ground arith
step-Allocates finishes_stop m = ground arith
step-Allocates (schedules now delay none repeat) m = ground arith
step-Allocates (schedules now delay (some callback) repeat) m = ground arith
step-Allocates (cancels id) m = ground arith
step-Allocates (takes candidate now) m = ground arith
step-Allocates leaves m = ground arith
step-Allocates calls_timer m = ground arith
step-Allocates (finishes_call now) m = ground arith
step-Allocates rearms m = ground arith

-- The number of the next timer, once the identifier has been generated.
renumber :
    (m : TimerManager) (j k : ℕ)
    → IsValid (record m { next_timer_id = j })
    → j ≡ k
    → IsValid (record m { next_timer_id = k })
renumber m j k v e = record {
  numbered = sym e ∙ v.numbered;
  ids = v.ids;
  active = v.active;
  no_zero = v.no_zero;
  once = v.once;
  fresh = v.fresh;
}

schedule-Kept :
    (now : ℕ) (delay : ℤ) (callback : Option ℕ) (repeat : Bool) (m : TimerManager)
    → IsValid m
    → m.allocated + 2 ≤ 2 ^ 64 - 1
    → Kept (step (schedules now delay callback repeat) m)
unfolding step schedule generate_timer_id add_entry
schedule-Kept now delay none repeat m v h = v
schedule-Kept now delay (some callback) repeat m v h =
    started (start m) (start-Kept m v) (start-Allocates m)
  where
    started :
        (o : Option TimerManager)
        → Kept o
        → Allocates m.allocated o
        → Kept
            (elim (elim o as (λ _. Option (ℕ × TimerManager)) [
              | none ↦ none
              | some m ↦
                  let (id, m) = generate_timer_id m in
                  let entry : TimerEntry = record {
                    id = id;
                    expire_time = now + at_least 0 delay;
                    interval = at_least 1 delay;
                    callback = callback;
                    repeat = repeat;
                    cancelled = false;
                  } in
                  some (id, add_entry entry m)
            ])
              as (λ _. Option TimerManager) [ none ↦ none | some (id, m) ↦ some m ])
    started none v k = tt
    started (some s) v k =
        let entry : TimerEntry = record {
          id = s.next_timer_id;
          expire_time = now + at_least 0 delay;
          interval = at_least 1 delay;
          callback = callback;
          repeat = repeat;
          cancelled = false;
        } in
        let next : (s.next_timer_id + 1) % 2 ^ 64 ≡ s.allocated + 2 = omega (arith, v.numbered) in
        renumber (add_entry entry s) (s.allocated + 2) ((s.next_timer_id + 1) % 2 ^ 64)
          (add_entry-IsValid s entry (renumber s s.next_timer_id (s.allocated + 1) v v.numbered)
            v.numbered refl)
          (sym next)

pub step-Kept :
    (a : Action) (m : TimerManager) → IsValid m → m.allocated + 2 ≤ 2 ^ 64 - 1 → Kept (step a m)
unfolding step finish_stop take_timer leave call_timer finish_call rearm
step-Kept starts m v h = start-Kept m v
step-Kept begins_stop m v h = begin_stop-IsValid m v
step-Kept finishes_stop m v h =
    Kept-if m.stopping _ _ (λ _. clear_timers-Kept m.worker m refl v) (λ _. tt)
step-Kept (schedules now delay callback repeat) m v h =
    schedule-Kept now delay callback repeat m v h
step-Kept (cancels id) m v h = cancel_timer-IsValid m id v
step-Kept (takes candidate now) m v h = take_candidate-Kept m.worker candidate now m refl v
step-Kept leaves m v h = leave_loops-Kept m.worker m v
step-Kept calls_timer m v h = call_taken-Kept m.worker m refl v
step-Kept (finishes_call now) m v h = finish_called-Kept m.worker now m refl v
step-Kept rearms m v h = rearm_held-Kept m.worker m refl v

Kept-then :
    (k : ℕ) (o : Option TimerManager) (f : TimerManager → Option TimerManager)
    → Kept o
    → Allocates k o
    → ((n : TimerManager) → IsValid n → n.allocated ≤ k → Kept (f n))
    → Kept (elim o as (λ _. Option TimerManager) [ none ↦ none | some n ↦ f n ])
Kept-then k none f v h next = tt
Kept-then k (some n) f v h next = next n v h

-- run invariant
pub run-Kept :
    (actions : List Action) (m : TimerManager)
    → IsValid m
    → m.allocated + length actions + 2 ≤ 2 ^ 64
    → Kept (run actions m)
unfolding run
run-Kept [] m v h = v
run-Kept (a ∷ actions) m v h =
    Kept-then (m.allocated + 1) (step a m) (run actions) (step-Kept a m v (omega arith))
      (step-Allocates a m) (λ n w k. run-Kept actions n w (omega arith))

-- After any sequence of calls and worker steps on a new manager, as long as no identifier can
-- have wrapped, every timer has its own identifier, the table of active timers holds just the
-- queued timers that are not cancelled, each under its identifier, and no timer is queued twice
-- or both queued and in the hands of the worker.
pub run-IsValid :
    (actions : List Action) (m : TimerManager)
    → run actions new_manager ≡ some m
    → length actions + 2 ≤ 2 ^ 64
    → IsValid m
run-IsValid actions m h k =
    subst Kept h (run-Kept actions new_manager new_manager-IsValid (omega arith))

Allocates-more : (j k : ℕ) (o : Option TimerManager) → j ≤ k → Allocates j o → Allocates k o
Allocates-more j k none h a = tt
Allocates-more j k (some n) h a = omega (arith, a)

Allocates-then :
    (j k : ℕ) (o : Option TimerManager) (f : TimerManager → Option TimerManager)
    → Allocates j o
    → ((n : TimerManager) → n.allocated ≤ j → Allocates k (f n))
    → Allocates k (elim o as (λ _. Option TimerManager) [ none ↦ none | some n ↦ f n ])
Allocates-then j k none f h next = tt
Allocates-then j k (some n) f h next = next n h

pub run-Allocates :
    (actions : List Action) (m : TimerManager)
    → Allocates (m.allocated + length actions) (run actions m)
unfolding run
run-Allocates [] m = omega arith
run-Allocates (a ∷ actions) m =
    Allocates-then (m.allocated + 1) (m.allocated + length (a ∷ actions)) (step a m) (run actions)
      (step-Allocates a m)
      (λ n k.
        Allocates-more (n.allocated + length actions) _ (run actions n) (omega arith)
          (run-Allocates actions n))
