-- ===== src/Timer/Inv/Loop.antt =====
-- The worker of the TimerManager of src/Timer.cpp keeps its invariant.
use fast_net.Prelude.{ℕ, ◌+◌, ◌<◌, ◌≡◌, refl, ap, sym, not, ◌&&◌, ◌||◌, arith}
use fast_net.Prelude.{List, ltb}
use fast_net.Timer.Manager.{
  TimerManager, Worker, Worker.idle, Worker.taken, Worker.calling, Worker.rearming, Worker.ended,
  set_entry, is_queued, not_after,
}
use fast_net.Timer.Loop.{take_candidate, leave_loops, call_taken, finish_called, rearm_held}
use fast_net.Timer.Inv.{
  IsValid, Kept, Kept-if, count, held, let_go-IsValid, is_queued-count, count-remove,
  find_timer-assign_timer, find_timer-erase_timer,
}

pub take_candidate-Kept :
    (w : Worker) (candidate now : ℕ) (m : TimerManager)
    → m.worker ≡ w
    → IsValid m
    → Kept (take_candidate w candidate now m)
unfolding take_candidate held
take_candidate-Kept idle c now m e v =
    Kept-if (not (m.running && (is_queued c m.timers && not_after m.store c m.timers))) _ _
      (λ _. tt)
      λ g.
        let here : 0 < count c m.timers = ground (arith, is_queued-count c m.timers, g) in
        let known : c < m.allocated = ground (arith, v.fresh c) in
        Kept-if (m.store c).cancelled _ _
          (λ f. record {
            numbered = v.numbered;
            ids = v.ids;
            active = λ p. ground (arith, v.active p, count-remove p c m.timers, v.once p, f);
            no_zero = v.no_zero;
            once = λ p. ground (arith, v.once p, count-remove p c m.timers);
            fresh = λ p above. ground (arith, v.fresh p above, count-remove p c m.timers);
          })
          λ f.
            Kept-if (ltb now (m.store c).expire_time) _ _ (λ _. v)
              λ due. record {
                numbered = v.numbered;
                ids = v.ids;
                active = λ p. ground (
                  arith,
                  v.active p,
                  count-remove p c m.timers,
                  v.once p,
                  f,
                  v.ids c known,
                  find_timer-erase_timer (p + 1) (m.store c).id m.active_timers,
                );
                no_zero = ground (
                  arith,
                  v.no_zero,
                  v.ids c known,
                  find_timer-erase_timer 0 (m.store c).id m.active_timers,
                );
                once = λ p. ground (arith, v.once p, count-remove p c m.timers);
                fresh = λ p above. ground (arith, v.fresh p above, count-remove p c m.timers);
              }
take_candidate-Kept (taken q) c now m e v = tt
take_candidate-Kept (calling q) c now m e v = tt
take_candidate-Kept (rearming q) c now m e v = tt
take_candidate-Kept ended c now m e v = tt

pub leave_loops-Kept : (w : Worker) (m : TimerManager) → IsValid m → Kept (leave_loops w m)
unfolding leave_loops held
leave_loops-Kept idle m v =
    Kept-if m.running _ _ (λ _. tt) (λ _. let_go-IsValid m ended m.running v (λ p. refl))
leave_loops-Kept (taken q) m v = tt
leave_loops-Kept (calling q) m v = tt
leave_loops-Kept (rearming q) m v = tt
leave_loops-Kept ended m v = tt

-- A held timer goes on being held.
hold-IsValid :
    (m : TimerManager) (w : Worker) (calls : List ℕ)
    → IsValid m
    → ((p : ℕ) → held p w ≡ held p m.worker)
    → IsValid (record m { worker = w; calls = calls })
hold-IsValid m w calls v h = record {
  numbered = v.numbered;
  ids = v.ids;
  active = v.active;
  no_zero = v.no_zero;
  once = λ p. omega (arith, v.once p, h p);
  fresh = λ p above. omega (arith, v.fresh p above, h p);
}

pub call_taken-Kept :
    (w : Worker) (m : TimerManager) → m.worker ≡ w → IsValid m → Kept (call_taken w m)
unfolding call_taken held
call_taken-Kept (taken q) m e v =
    Kept-if (not m.running) _ _ (λ _. let_go-IsValid m ended m.running v (λ p. refl))
      λ _.
        Kept-if (m.store q).cancelled _ _ (λ _. let_go-IsValid m idle m.running v (λ p. refl))
          λ _. hold-IsValid m (calling q) _ v (λ p. sym (ap (held p) e))
call_taken-Kept idle m e v = tt
call_taken-Kept (calling q) m e v = tt
call_taken-Kept (rearming q) m e v = tt
call_taken-Kept ended m e v = tt

pub finish_called-Kept :
    (w : Worker) (now : ℕ) (m : TimerManager)
    → m.worker ≡ w
    → IsValid m
    → Kept (finish_called w now m)
unfolding finish_called held set_entry
finish_called-Kept (calling q) now m e v =
    Kept-if (not (m.store q).repeat || ((m.store q).cancelled || not m.running)) _ _
      (λ _. let_go-IsValid m idle m.running v (λ p. refl))
      λ _. record {
        numbered = v.numbered;
        ids = λ p below. ground (arith, v.ids p below);
        active = λ p. ground (arith, v.active p);
        no_zero = v.no_zero;
        once = λ p. omega (arith, v.once p, ap (held p) e);
        fresh = λ p above. omega (arith, v.fresh p above, ap (held p) e);
      }
finish_called-Kept idle now m e v = tt
finish_called-Kept (taken q) now m e v = tt
finish_called-Kept (rearming q) now m e v = tt
finish_called-Kept ended now m e v = tt

pub rearm_held-Kept :
    (w : Worker) (m : TimerManager) → m.worker ≡ w → IsValid m → Kept (rearm_held w m)
unfolding rearm_held held count
rearm_held-Kept (rearming q) m e v =
    let known : q < m.allocated = ground (arith, v.fresh q, ap (held q) e) in
    Kept-if (not (m.store q).cancelled && m.running) _ _
      (λ f. record {
        numbered = v.numbered;
        ids = v.ids;
        active = λ p. ground (
          arith,
          v.active p,
          v.ids q known,
          f,
          find_timer-assign_timer (p + 1) (m.store q).id q m.active_timers,
        );
        no_zero = ground (
          arith,
          v.no_zero,
          v.ids q known,
          find_timer-assign_timer 0 (m.store q).id q m.active_timers,
        );
        once = λ p. ground (arith, v.once p, ap (held p) e);
        fresh = λ p above. ground (arith, v.fresh p above, ap (held p) e);
      })
      (λ _. let_go-IsValid m idle m.running v (λ p. refl))
rearm_held-Kept idle m e v = tt
rearm_held-Kept (taken q) m e v = tt
rearm_held-Kept (calling q) m e v = tt
rearm_held-Kept ended m e v = tt
