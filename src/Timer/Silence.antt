-- ===== src/Timer/Silence.antt =====
-- A cancelled timer of src/Timer.cpp along a run.
use fast_net.Prelude.{ℕ, ◌+◌, ◌^◌, ◌≤◌, ◌<◌, ◌≡◌, refl, ap, ◌∙◌, true, arith}
use fast_net.Prelude.{Option, none, some, List, [], ◌∷◌, length}
use fast_net.Timer.Manager.{
  TimerEntry, TimerManager, Worker, Worker.idle, Worker.taken, Worker.calling, Worker.rearming,
  Worker.ended, set_entry, cancel_entry,
}
use fast_net.Timer.Clients.{
  cancel_all, start, start_thread, clear_timers, add_entry, begin_stop, finish_stop, schedule,
  cancel_timer, generate_timer_id,
}
use fast_net.Timer.Loop.{
  take_candidate, leave_loops, call_taken, finish_called, rearm_held, take_timer, leave, call_timer,
  finish_call, rearm,
}
use fast_net.Timer.Actions.{
  Action, Action.starts, Action.begins_stop, Action.finishes_stop, Action.schedules, Action.cancels,
  Action.takes, Action.leaves, Action.calls_timer, Action.finishes_call, Action.rearms, step, run,
}
use fast_net.Timer.Inv.{IsValid, Kept, count, held}
use fast_net.Timer.Runs.{step-Kept, Allocates, step-Allocates}

-- A cancelled timer that has been called `c` times.
pub record IsSilent (p c : ℕ) (m : TimerManager) : Type 0 where
  pub known : p < m.allocated
  pub cancelled : (m.store p).cancelled ≡ true
  pub called : count (p + 1) m.calls ≡ c

abbrev pub Silences : ℕ → ℕ → Option TimerManager → Type 0
Silences p c none = Unit {0}
Silences p c (some m) = IsSilent p c m

cancel_all-cancelled :
    (l : List (ℕ × ℕ)) (store : ℕ → TimerEntry) (p : ℕ)
    → (store p).cancelled ≡ true
    → (cancel_all l store p).cancelled ≡ true
unfolding cancel_all set_entry
cancel_all-cancelled [] store p h = h
cancel_all-cancelled ((key, q) ∷ l) store p h =
    cancel_all-cancelled l (set_entry store q (cancel_entry (store q))) p (ground arith)

same_calls :
    (p c : ℕ) (m n : TimerManager)
    → IsSilent p c m
    → m.allocated ≤ n.allocated
    → (n.store p).cancelled ≡ true
    → n.calls ≡ m.calls
    → IsSilent p c n
same_calls p c m n s h k e = record {
  known = omega (arith, s.known);
  cancelled = k;
  called = ap (count (p + 1)) e ∙ s.called;
}

call_taken-Silences :
    (w : Worker) (p c : ℕ) (m : TimerManager)
    → m.worker ≡ w
    → IsValid m
    → IsSilent p c m
    → Silences p c (call_taken w m)
unfolding call_taken held count
call_taken-Silences (taken q) p c m e v s =
    let known : q < m.allocated = ground (arith, v.fresh q, ap (held q) e) in
    let own = v.ids q known in
    let other = s.cancelled in ground (arith, s.called, s.known, own, other)
call_taken-Silences idle p c m e v s = tt
call_taken-Silences (calling q) p c m e v s = tt
call_taken-Silences (rearming q) p c m e v s = tt
call_taken-Silences ended p c m e v s = tt

clear_timers-Silences :
    (w : Worker) (p c : ℕ) (m : TimerManager) → IsSilent p c m → Silences p c (clear_timers w m)
unfolding clear_timers
clear_timers-Silences ended p c m s = record {
  known = s.known;
  cancelled = cancel_all-cancelled m.active_timers m.store p s.cancelled;
  called = s.called;
}
clear_timers-Silences idle p c m s = tt
clear_timers-Silences (taken q) p c m s = tt
clear_timers-Silences (calling q) p c m s = tt
clear_timers-Silences (rearming q) p c m s = tt

step-Silences :
    (a : Action) (p c : ℕ) (m : TimerManager) → IsValid m → IsSilent p c m → Silences p c (step a m)
unfolding step start start_thread begin_stop finish_stop clear_timers schedule add_entry
    generate_timer_id cancel_timer take_timer take_candidate leave leave_loops call_timer
    finish_call finish_called rearm rearm_held set_entry
step-Silences starts p c m v s = ground (arith, same_calls p c m)
step-Silences begins_stop p c m v s = ground (arith, same_calls p c m)
step-Silences finishes_stop p c m v s = ground (arith, clear_timers-Silences m.worker p c m s)
step-Silences (schedules now delay none repeat) p c m v s = s
step-Silences (schedules now delay (some callback) repeat) p c m v s =
    ground (arith, same_calls p c m)
step-Silences (cancels id) p c m v s = ground (arith, same_calls p c m)
step-Silences (takes candidate now) p c m v s = ground (arith, same_calls p c m)
step-Silences leaves p c m v s = ground (arith, same_calls p c m)
step-Silences calls_timer p c m v s = call_taken-Silences m.worker p c m refl v s
step-Silences (finishes_call now) p c m v s = ground (arith, same_calls p c m)
step-Silences rearms p c m v s = ground (arith, same_calls p c m)

Silences-then :
    (p c k : ℕ) (o : Option TimerManager) (f : TimerManager → Option TimerManager)
    → Kept o
    → Allocates k o
    → Silences p c o
    → ((n : TimerManager) → IsValid n → n.allocated ≤ k → IsSilent p c n → Silences p c (f n))
    → Silences p c (elim o as (λ _. Option TimerManager) [ none ↦ none | some n ↦ f n ])
Silences-then p c k none f v h s next = tt
Silences-then p c k (some n) f v h s next = next n v h s

pub run-Silences :
    (actions : List Action) (p c : ℕ) (m : TimerManager)
    → IsValid m
    → IsSilent p c m
    → m.allocated + length actions + 2 ≤ 2 ^ 64
    → Silences p c (run actions m)
unfolding run
run-Silences [] p c m v s h = s
run-Silences (a ∷ actions) p c m v s h =
    Silences-then p c (m.allocated + 1) (step a m) (run actions) (step-Kept a m v (omega arith))
      (step-Allocates a m) (step-Silences a p c m v s)
      (λ n w k t. run-Silences actions p c n w t (omega arith))
