-- ===== src/Timer/Inv.antt =====
-- The invariant of the TimerManager of src/Timer.cpp.
pub mod Clients
pub mod Loop
use fast_net.Prelude.{
  ℕ, zero, suc, ◌+◌, ◌-◌, ◌%◌, ◌^◌, ◌≤◌, ◌<◌, ◌≡◌, refl, ap, sym, ◌∙◌, Bool, true, false, not, ◌&&◌,
  ◌||◌, arith, ℤ,
}
use fast_net.Prelude.{
  Option, none, some, List, [], ◌∷◌, length, ltb, leb, ◌==◌, if◌then◌else◌, Bool-cases,
  Option-cases, inl, inr,
}
use fast_net.Timer.Manager.{
  TimerEntry, TimerManager, Worker, Worker.idle, Worker.taken, Worker.calling, Worker.rearming,
  Worker.ended, new_manager, set_entry, cancel_entry, find_timer, assign_timer, erase_timer, remove,
  is_queued, at_least, not_after,
}
use fast_net.Timer.Clients.{
  cancel_all, start, start_thread, clear_timers, add_entry, begin_stop, finish_stop, schedule,
  cancel_timer, generate_timer_id,
}
use fast_net.Timer.Loop.{
  take_candidate, leave_loops, call_taken, finish_called, rearm_held, take_timer, leave, call_timer,
  finish_call, rearm, next_expire,
}

unfoldable pub count : ℕ → List ℕ → ℕ
count p [] = 0
count p (q ∷ timers) = (if q == p then 1 else 0) + count p timers

-- How often the worker holds a timer.
unfoldable pub held : ℕ → Worker → ℕ
held p idle = 0
held p (taken q) = if q == p then 1 else 0
held p (calling q) = if q == p then 1 else 0
held p (rearming q) = if q == p then 1 else 0
held p ended = 0

pub record IsValid (m : TimerManager) : Type 0 where
  pub numbered : m.next_timer_id ≡ m.allocated + 1
  pub ids : (p : ℕ) → p < m.allocated → (m.store p).id ≡ p + 1
  pub active :
      (p : ℕ)
      → find_timer (p + 1) m.active_timers
        ≡ (if ltb 0 (count p m.timers) && not (m.store p).cancelled then some p else none)
  pub no_zero : find_timer 0 m.active_timers ≡ none
  pub once : (p : ℕ) → count p m.timers + held p m.worker ≤ 1
  pub fresh : (p : ℕ) → m.allocated ≤ p → count p m.timers + held p m.worker ≡ 0

pub is_queued-count : (p : ℕ) (l : List ℕ) → is_queued p l ≡ ltb 0 (count p l)
unfolding count
is_queued-count p [] = refl
is_queued-count p (q ∷ l) = ground (arith, is_queued-count p l)

pub count-remove :
    (p q : ℕ) (l : List ℕ) → count p (remove q l) ≡ count p l - (if q == p then 1 else 0)
unfolding count remove
count-remove p q [] = ground arith
count-remove p q (r ∷ l) = ground (arith, count-remove p q l)

pub find_timer-assign_timer :
    (k id p : ℕ) (l : List (ℕ × ℕ))
    → find_timer k (assign_timer id p l) ≡ (if id == k then some p else find_timer k l)
unfolding find_timer assign_timer
find_timer-assign_timer k id p [] = ground arith
find_timer-assign_timer k id p ((key, old) ∷ l) = ground (arith, find_timer-assign_timer k id p l)

pub find_timer-erase_timer :
    (k id : ℕ) (l : List (ℕ × ℕ))
    → find_timer k (erase_timer id l) ≡ (if id == k then none else find_timer k l)
unfolding find_timer erase_timer
find_timer-erase_timer k id [] = ground arith
find_timer-erase_timer k id ((key, old) ∷ l) = ground (arith, find_timer-erase_timer k id l)

pub cancel_all-id :
    (l : List (ℕ × ℕ)) (store : ℕ → TimerEntry) (p : ℕ) → (cancel_all l store p).id ≡ (store p).id
unfolding cancel_all set_entry
cancel_all-id [] store p = refl
cancel_all-id ((key, q) ∷ l) store p =
    ground (arith, cancel_all-id l (set_entry store q (cancel_entry (store q))) p)

-- What a call that may wait leaves.
abbrev pub Kept : Option TimerManager → Type 0
Kept none = Unit {0}
Kept (some m) = IsValid m

pub new_manager-IsValid : IsValid new_manager
unfolding count held find_timer
new_manager-IsValid = record {
  numbered = refl;
  ids = λ p below. absurd (omega arith);
  active = λ p. refl;
  no_zero = refl;
  once = λ p. omega arith;
  fresh = λ p above. refl;
}

pub Kept-if :
    (t : Bool) (x y : Option TimerManager)
    → (t ≡ true → Kept x)
    → (t ≡ false → Kept y)
    → Kept (if t then x else y)
Kept-if true x y h k = h refl
Kept-if false x y h k = k refl

-- The worker lets go of what it holds.
pub let_go-IsValid :
    (m : TimerManager) (w : Worker) (running : Bool)
    → IsValid m
    → ((p : ℕ) → held p w ≡ 0)
    → IsValid (record m { running = running; worker = w })
let_go-IsValid m w running v h = record {
  numbered = v.numbered;
  ids = v.ids;
  active = v.active;
  no_zero = v.no_zero;
  once = λ p. omega (arith, v.once p, h p);
  fresh = λ p above. omega (arith, v.fresh p above, h p);
}
