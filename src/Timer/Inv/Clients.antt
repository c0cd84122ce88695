-- ===== src/Timer/Inv/Clients.antt =====
-- The calls of the TimerManager of src/Timer.cpp keep its invariant.
use fast_net.Prelude.{
  ℕ, zero, suc, ◌+◌, ◌<◌, ◌≡◌, refl, ap, ◌∙◌, Bool, true, false, not, ◌&&◌, arith,
}
use fast_net.Prelude.{Option, none, some, ltb, if◌then◌else◌, Bool-cases, inl, inr}
use fast_net.Timer.Manager.{
  TimerEntry, TimerManager, Worker, Worker.idle, Worker.taken, Worker.calling, Worker.rearming,
  Worker.ended, set_entry, cancel_entry, find_timer, erase_timer,
}
use fast_net.Timer.Clients.{start, start_thread, clear_timers, add_entry, begin_stop, cancel_timer}
use fast_net.Timer.Inv.{
  IsValid, Kept, Kept-if, count, held, let_go-IsValid, find_timer-assign_timer,
  find_timer-erase_timer, cancel_all-id,
}

-- The flags alone.
flags-IsValid :
    (m : TimerManager) (running stopping : Bool)
    → IsValid m
    → IsValid (record m { running = running; stopping = stopping })
flags-IsValid m running stopping v = record {
  numbered = v.numbered;
  ids = v.ids;
  active = v.active;
  no_zero = v.no_zero;
  once = v.once;
  fresh = v.fresh;
}

pub begin_stop-IsValid : (m : TimerManager) → IsValid m → IsValid (begin_stop m)
unfolding begin_stop
begin_stop-IsValid m v = begun m.running
  where
    begun : (t : Bool) → IsValid (if t then record m { running = false; stopping = true } else m)
    begun true = flags-IsValid m false true v
    begun false = v

start_thread-Kept : (w : Worker) (m : TimerManager) → IsValid m → Kept (start_thread w m)
unfolding start_thread held
start_thread-Kept ended m v = let_go-IsValid m idle true v (λ p. refl)
start_thread-Kept idle m v = tt
start_thread-Kept (taken q) m v = tt
start_thread-Kept (calling q) m v = tt
start_thread-Kept (rearming q) m v = tt

pub start-Kept : (m : TimerManager) → IsValid m → Kept (start m)
unfolding start
start-Kept m v =
    Kept-if m.running _ _ (λ e. v)
      (λ e. Kept-if m.stopping _ _ (λ f. tt) (λ f. start_thread-Kept m.worker m v))

pub clear_timers-Kept :
    (w : Worker) (m : TimerManager) → m.worker ≡ w → IsValid m → Kept (clear_timers w m)
unfolding clear_timers held count find_timer
clear_timers-Kept ended m e v = record {
  numbered = v.numbered;
  ids = λ p below. cancel_all-id m.active_timers m.store p ∙ v.ids p below;
  active = λ p. refl;
  no_zero = refl;
  once = λ p. omega (arith, v.once p);
  fresh = λ p above. omega (arith, ap (held p) e);
}
clear_timers-Kept idle m e v = tt
clear_timers-Kept (taken q) m e v = tt
clear_timers-Kept (calling q) m e v = tt
clear_timers-Kept (rearming q) m e v = tt

-- The new timer is the only one behind its pointer.
pub add_entry-IsValid :
    (m : TimerManager) (entry : TimerEntry)
    → IsValid (record m { next_timer_id = m.allocated + 1 })
    → entry.id ≡ m.allocated + 1
    → entry.cancelled ≡ false
    → IsValid (record (add_entry entry m) { next_timer_id = m.allocated + 2 })
unfolding add_entry set_entry count
add_entry-IsValid m entry v e f = record {
  numbered = omega arith;
  ids = λ p below. ground (arith, v.ids p, e);
  active = λ p. ground (
    arith,
    v.active p,
    v.fresh p,
    find_timer-assign_timer (p + 1) entry.id m.allocated m.active_timers,
    e,
    f,
  );
  no_zero =
      ground (arith, v.no_zero, find_timer-assign_timer 0 entry.id m.allocated m.active_timers, e);
  once = λ p. ground (arith, v.once p, v.fresh p);
  fresh = λ p above. ground (arith, v.fresh p);
}

-- What stands in the table of active timers is queued and not cancelled.
pub found_timer :
    (m : TimerManager) (id q : ℕ)
    → IsValid m
    → find_timer id m.active_timers ≡ some q
    → (id ≡ q + 1) × (0 < count q m.timers) × ((m.store q).cancelled ≡ false)
found_timer m zero q v h = absurd (cc (h, v.no_zero))
found_timer m (suc k) q v h =
    let e : suc k ≡ k + 1 = omega arith in
    let f = v.active k in
    let g : find_timer (k + 1) m.active_timers ≡ some q = rw⁻¹ e h in
    elim (Bool-cases (ltb 0 (count k m.timers) && not (m.store k).cancelled)) [
      | inl t ↦
          let same : k ≡ q = cc (g, rw t at f) in
          let queued : 0 < count k m.timers = ground (arith, t) in
          let live : (m.store k).cancelled ≡ false = ground (arith, t) in
          (omega (arith, same), rw⁻¹ same queued, rw⁻¹ same live)
      | inr t ↦ absurd (cc (g, rw t at f))
    ]

pub cancel_timer-IsValid : (m : TimerManager) (id : ℕ) → IsValid m → IsValid (cancel_timer id m).1
unfolding cancel_timer set_entry
cancel_timer-IsValid m id v = found (find_timer id m.active_timers) refl
  where
    found :
        (o : Option ℕ)
        → find_timer id m.active_timers ≡ o
        → IsValid
            (elim o as (λ _. Bool × TimerManager) [
              | none ↦ (false, m)
              | some pointer ↦ (
                true,
                record m {
                  store = set_entry m.store pointer (cancel_entry (m.store pointer));
                  active_timers = erase_timer id m.active_timers;
                },
              )
            ]).1
    found none e = v
    found (some q) e =
        let (same, queued, live) = found_timer m id q v e in
        record {
          numbered = v.numbered;
          ids = λ p below. ground (arith, v.ids p);
          active = λ p.
              ground (arith, v.active p, same, find_timer-erase_timer (p + 1) id m.active_timers);
          no_zero = ground (arith, v.no_zero, same, find_timer-erase_timer 0 id m.active_timers);
          once = v.once;
          fresh = v.fresh;
        }
