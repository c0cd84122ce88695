-- ===== src/Timer/Loop.antt =====
-- The worker loop of the TimerManager of src/Timer.cpp, from one use of the mutex to the next.
use fast_net.Prelude.{ℕ, ◌+◌, not, ◌&&◌, ◌||◌}
use fast_net.Prelude.{Option, none, some, ◌∷◌}
use fast_net.Prelude.{ltb, leb, if◌then◌else◌}
use fast_net.Timer.Manager.{
  TimerEntry, Worker, TimerManager, set_entry, assign_timer, erase_timer, not_after, is_queued,
  remove, Worker.idle, Worker.taken, Worker.calling, Worker.rearming, Worker.ended,
}

-- The inner loop of the worker, one round at the time `now`, with `candidate` as `top()`. It waits
-- while no timer is queued.
unfoldable pub take_candidate : Worker → (candidate now : ℕ) → TimerManager → Option TimerManager
unfolding not_after remove erase_timer
take_candidate idle candidate now m =
    let popped : TimerManager = record m { timers = remove candidate m.timers } in
    let entry = m.store candidate in
    if not (m.running && (is_queued candidate m.timers && not_after m.store candidate m.timers))
    then none
    else if entry.cancelled
    then some popped
    else if ltb now entry.expire_time
    then some m
    else some (record popped {
      active_timers = erase_timer entry.id m.active_timers;
      worker = taken candidate;
    })
take_candidate _ candidate now m = none

unfoldable pub take_timer : (candidate now : ℕ) → TimerManager → Option TimerManager
unfolding take_candidate
take_timer candidate now m = take_candidate m.worker candidate now m

-- The worker leaves its loops.
unfoldable pub leave_loops : Worker → TimerManager → Option TimerManager
leave_loops idle m = if m.running then none else some (record m { worker = ended })
leave_loops _ m = none

unfoldable pub leave : TimerManager → Option TimerManager
unfolding leave_loops
leave m = leave_loops m.worker m

-- From the tests behind the inner loop to the call.
unfoldable pub call_taken : Worker → TimerManager → Option TimerManager
call_taken (taken pointer) m =
    let entry = m.store pointer in
    if not m.running
    then some (record m { worker = ended })
    else if entry.cancelled
    then some (record m { worker = idle })
    else some (record m { worker = calling pointer; calls = entry.id ∷ m.calls })
call_taken _ m = none

unfoldable pub call_timer : TimerManager → Option TimerManager
unfolding call_taken
call_timer m = call_taken m.worker m

unfoldable pub next_expire : ℕ → TimerEntry → ℕ
next_expire now entry =
    if leb (entry.expire_time + entry.interval) now
    then now + entry.interval
    else entry.expire_time + entry.interval

-- The callback has returned or thrown.
unfoldable pub finish_called : Worker → (now : ℕ) → TimerManager → Option TimerManager
unfolding set_entry next_expire
finish_called (calling pointer) now m =
    let entry = m.store pointer in
    if not entry.repeat || (entry.cancelled || not m.running)
    then some (record m { worker = idle })
    else some (record m {
      store = set_entry m.store pointer (record entry { expire_time = next_expire now entry });
      worker = rearming pointer;
    })
finish_called _ now m = none

unfoldable pub finish_call : (now : ℕ) → TimerManager → Option TimerManager
unfolding finish_called
finish_call now m = finish_called m.worker now m

unfoldable pub rearm_held : Worker → TimerManager → Option TimerManager
unfolding assign_timer
rearm_held (rearming pointer) m =
    let entry = m.store pointer in
    if not entry.cancelled && m.running
    then some (record m {
      active_timers = assign_timer entry.id pointer m.active_timers;
      timers = pointer ∷ m.timers;
      worker = idle;
    })
    else some (record m { worker = idle })
rearm_held _ m = none

unfoldable pub rearm : TimerManager → Option TimerManager
unfolding rearm_held
rearm m = rearm_held m.worker m
