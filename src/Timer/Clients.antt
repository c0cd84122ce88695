-- ===== src/Timer/Clients.antt =====
-- The calls of the TimerManager of src/Timer.cpp.
use fast_net.Prelude.{ℕ, ◌+◌, ◌%◌, ◌^◌, Bool, true, false, ℤ}
use fast_net.Prelude.{Option, none, some, List, [], ◌∷◌}
use fast_net.Prelude.{if◌then◌else◌}
use fast_net.Timer.Manager.{
  TimerEntry, Worker, TimerManager, set_entry, cancel_entry, find_timer, assign_timer, erase_timer,
  at_least, Worker.idle, Worker.ended,
}

unfoldable pub generate_timer_id : TimerManager → ℕ × TimerManager
generate_timer_id m = (m.next_timer_id, record m { next_timer_id = (m.next_timer_id + 1) % 2 ^ 64 })

-- A new thread, once the old one has ended; `none` while the call waits.
unfoldable pub start_thread : Worker → TimerManager → Option TimerManager
start_thread ended m = some (record m { running = true; worker = idle })
start_thread _ m = none

unfoldable pub start : TimerManager → Option TimerManager
unfolding start_thread
start m = if m.running then some m else if m.stopping then none else start_thread m.worker m

-- `stop` up to the join.
unfoldable pub begin_stop : TimerManager → TimerManager
begin_stop m = if m.running then record m { running = false; stopping = true } else m

unfoldable pub cancel_all : List (ℕ × ℕ) → (ℕ → TimerEntry) → ℕ → TimerEntry
cancel_all [] store = store
cancel_all ((key, pointer) ∷ active) store =
    cancel_all active (set_entry store pointer (cancel_entry (store pointer)))

-- `stop` behind the join.
unfoldable pub clear_timers : Worker → TimerManager → Option TimerManager
unfolding cancel_all
clear_timers ended m = some (record m {
  store = cancel_all m.active_timers m.store;
  timers = [];
  active_timers = [];
  stopping = false;
})
clear_timers _ m = none

unfoldable pub finish_stop : TimerManager → Option TimerManager
unfolding clear_timers
finish_stop m = if m.stopping then clear_timers m.worker m else none

-- The entry is made, put into the table and queued.
unfoldable pub add_entry : TimerEntry → TimerManager → TimerManager
unfolding assign_timer set_entry
add_entry entry m = record m {
  store = set_entry m.store m.allocated entry;
  allocated = m.allocated + 1;
  active_timers = assign_timer entry.id m.allocated m.active_timers;
  timers = m.allocated ∷ m.timers;
}

-- An empty callback is `none`.
unfoldable pub schedule :
    (now : ℕ) (delay : ℤ) → Option ℕ → Bool → TimerManager → Option (ℕ × TimerManager)
unfolding generate_timer_id add_entry at_least
schedule now delay none repeat m = some (0, m)
schedule now delay (some callback) repeat m = elim (start m) [
  | none ↦ none
  | some m ↦
      let (id, m) = generate_timer_id m in
      let entry : TimerEntry = record {
        id = id;
        expire_time = now + at_least 0 delay;
        interval = at_least 1 delay;
        callback = callback;
        repeat = repeat;
        cancelled = false;
      } in
      some (id, add_entry entry m)
]

unfoldable pub cancel_timer : ℕ → TimerManager → Bool × TimerManager
unfolding find_timer erase_timer set_entry
cancel_timer timer_id m = elim (find_timer timer_id m.active_timers) [
  | none ↦ (false, m)
  | some pointer ↦ (
    true,
    record m {
      store = set_entry m.store pointer (cancel_entry (m.store pointer));
      active_timers = erase_timer timer_id m.active_timers;
    },
  )
]
