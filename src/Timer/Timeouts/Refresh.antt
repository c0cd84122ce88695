-- ===== src/Timer/Timeouts/Refresh.antt =====
-- What refreshConnection of src/Timer.cpp does to the timers of a connection.
use fast_net.Prelude.{ℕ, ◌+◌, ◌^◌, ◌≤◌, ◌≡◌, refl, ap, subst, sym, ◌∙◌, true, false, arith, ℤ}
use fast_net.Prelude.{Option, none, some, List, [], ◌∷◌, if_true, Option-cases, inl, inr}
use fast_net.Timer.Manager.{TimerEntry, TimerManager, find_timer, assign_timer, set_entry, at_least}
use fast_net.Timer.Clients.{start, schedule, add_entry, generate_timer_id, cancel_timer}
use fast_net.Timer.Actions.{Action.schedules, step}
use fast_net.Timer.Inv.{IsValid, Kept, find_timer-assign_timer, find_timer-erase_timer}
use fast_net.Timer.Inv.Clients.{cancel_timer-IsValid}
use fast_net.Timer.Runs.{step-Kept}
use fast_net.Timer.Timeouts.{
  ConnectionTimeout, ConnectionTimeoutManager, find_connection, assign_connection, cancel_existing,
  refresh_connection,
}

find_connection-assign_connection :
    (id : ℕ) (entry : ConnectionTimeout) (l : List (ℕ × ConnectionTimeout))
    → find_connection id (assign_connection id entry l) ≡ some entry
unfolding find_connection assign_connection
find_connection-assign_connection id entry [] = ground arith
find_connection-assign_connection id entry ((key, old) ∷ l) =
    ground (arith, find_connection-assign_connection id entry l)

-- What a call of cancelTimer leaves.
record Cancelled (id : ℕ) (m n : TimerManager) : Type 0 where
  gone : find_timer id n.active_timers ≡ none
  running : n.running ≡ m.running
  allocated : n.allocated ≡ m.allocated

cancel_timer-Cancelled : (id : ℕ) (m : TimerManager) → Cancelled id m (cancel_timer id m).1
unfolding cancel_timer
cancel_timer-Cancelled id m = elim (Option-cases (find_timer id m.active_timers)) [
  | inl e ↦ rw (cancel_timer, e) (record { gone = e; running = refl; allocated = refl })
  | inr (p, e) ↦
      rw (cancel_timer, e)
        (record {
          gone = ground (arith, find_timer-erase_timer id id m.active_timers);
          running = refl;
          allocated = refl;
        })
]

-- A timer added to a manager that runs.
schedule-running :
    (now : ℕ) (delay : ℤ) (callback : ℕ) (m : TimerManager)
    → m.running ≡ true
    → (n : TimerManager) × (schedule now delay (some callback) false m ≡ some (m.next_timer_id, n))
      × (n.active_timers ≡ assign_timer m.next_timer_id m.allocated m.active_timers)
      × ((n.store m.allocated).expire_time ≡ now + at_least 0 delay)
unfolding schedule start generate_timer_id add_entry set_entry
schedule-running now delay callback m h =
    let started : start m ≡ some m = if_true _ _ h in
    let entry : TimerEntry = record {
      id = m.next_timer_id;
      expire_time = now + at_least 0 delay;
      interval = at_least 1 delay;
      callback = callback;
      repeat = false;
      cancelled = false;
    } in
    (add_entry entry (generate_timer_id m).1, rw (schedule, started) refl, refl, ground arith)

-- A connection whose timer has been replaced.
pub record Rearmed (id now : ℕ) (e : ConnectionTimeout) (m n : ConnectionTimeoutManager)
    : Type 0 where
  pub entry : ConnectionTimeout
  pub valid : IsValid n.timer_manager
  pub found : find_connection id n.connections ≡ some entry
  pub timeout : entry.timeout ≡ e.timeout
  pub old_gone : find_timer e.timer_id n.timer_manager.active_timers ≡ none
  pub new_active :
      find_timer entry.timer_id n.timer_manager.active_timers ≡ some m.timer_manager.allocated
  pub due :
      (n.timer_manager.store m.timer_manager.allocated).expire_time ≡ now + at_least 0 e.timeout

-- On a valid timer manager that runs and whose identifiers cannot wrap, refreshing a connection
-- whose timer identifier was given out succeeds and leaves a valid manager in which the old
-- timer is not active, while the connection keeps its timeout under a new active timer that is
-- due one whole timeout from now.
pub refresh_connection-Rearmed :
    (closure : ℕ → Option ℕ → ℕ) (now id : ℕ) (m : ConnectionTimeoutManager) (e : ConnectionTimeout)
    → IsValid m.timer_manager
    → m.timer_manager.running ≡ true
    → m.timer_manager.allocated + 3 ≤ 2 ^ 64
    → find_connection id m.connections ≡ some e
    → e.timer_id ≤ m.timer_manager.allocated
    → (n : ConnectionTimeoutManager) × (refresh_connection closure now id m ≡ some n)
      × Rearmed id now e m n
unfolding refresh_connection cancel_existing step
refresh_connection-Rearmed closure now id m e v running bound here older =
    let t = (cancel_timer e.timer_id m.timer_manager).1 in
    let c = cancel_timer-Cancelled e.timer_id m.timer_manager in
    let w : IsValid t = cancel_timer-IsValid m.timer_manager e.timer_id v in
    let (u, scheduled, table, due) =
      schedule-running now e.timeout (closure id e.callback) t (c.running ∙ running) in
    let next : t.next_timer_id ≡ m.timer_manager.allocated + 1 =
      omega (arith, w.numbered, c.allocated) in
    let entry : ConnectionTimeout = record e { timer_id = t.next_timer_id } in
    let kept : Kept (step (schedules now e.timeout (some (closure id e.callback)) false) t) =
      step-Kept (schedules now e.timeout (some (closure id e.callback)) false) t w
        (omega (arith, c.allocated)) in
    let after = λ (k : ℕ).
      ap (find_timer k) table
      ∙ find_timer-assign_timer k t.next_timer_id t.allocated t.active_timers in
    (
      record { timer_manager = u; connections = assign_connection id entry m.connections },
      rw (refresh_connection, here, scheduled) refl,
      record {
        entry = entry;
        valid =
            subst
              (λ (o : Option (ℕ × TimerManager)).
                Kept (elim o as (λ _. Option TimerManager) [ none ↦ none | some r ↦ some r.1 ]))
              scheduled kept;
        found = find_connection-assign_connection id entry m.connections;
        timeout = refl;
        old_gone = after e.timer_id ∙ ground (arith, next, c.gone);
        new_active = after t.next_timer_id ∙ ground (arith, c.allocated);
        due = ap (λ p. (u.store p).expire_time) (sym c.allocated) ∙ due;
      },
    )
