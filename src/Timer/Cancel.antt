-- ===== src/Timer/Cancel.antt =====
-- What cancelTimer of src/Timer.cpp achieves, and where it is lost.
use fast_net.Prelude.{
  ℕ, ◌+◌, ◌^◌, ◌≤◌, ◌<◌, ◌≡◌, refl, ap, subst, sym, ◌∙◌, Bool, true, false, not, ◌&&◌, ◌||◌, arith,
}
use fast_net.Prelude.{none, some, List, [], ◌∷◌, length, Option-cases, if_true, if_false, inl, inr}
use fast_net.Timer.Manager.{
  TimerEntry, TimerManager, Worker.idle, Worker.calling, Worker.rearming, new_manager, set_entry,
  find_timer, assign_timer,
}
use fast_net.Timer.Clients.{cancel_timer}
use fast_net.Timer.Loop.{finish_called, rearm_held, finish_call, rearm, next_expire}
use fast_net.Timer.Actions.{
  Action, Action.cancels, Action.finishes_call, Action.rearms, step, run, run-step,
}
use fast_net.Timer.Inv.{IsValid, count, held, find_timer-assign_timer}
use fast_net.Timer.Inv.Clients.{found_timer, cancel_timer-IsValid}
use fast_net.Timer.Runs.{Allocates, step-Allocates, run-IsValid, run-Allocates}
use fast_net.Timer.Silence.{IsSilent, Silences, run-Silences}

-- A call of cancelTimer that succeeds.
cancelled_by :
    (m n : TimerManager) (id : ℕ)
    → IsValid m
    → cancel_timer id m ≡ (true, n)
    → (p : ℕ) × (id ≡ p + 1) × IsSilent p (count id m.calls) n
unfolding cancel_timer set_entry
cancelled_by m n id v h = elim (Option-cases (find_timer id m.active_timers)) [
  | inl e ↦ absurd (cc (rw (cancel_timer, e) at h))
  | inr (p, e) ↦
      let (same, queued, live) = found_timer m id p v e in
      let known : p < m.allocated = ground (arith, v.fresh p) in
      (
        p,
        same,
        subst (λ (r : Bool × TimerManager). IsSilent p (count id m.calls) r.1)
            (rw (cancel_timer, e) at h)
            (record {
              known = known;
              cancelled = ground arith;
              called = ap (λ i. count i m.calls) (sym same);
            }),
      )
]

-- Once cancelTimer has returned true for an identifier, at any point of any run of a new
-- manager in which no identifier can have wrapped, no later calls or worker steps call the
-- callback of that timer again.
pub cancel_timer_silences :
    (before after : List Action) (id : ℕ) (m n k : TimerManager)
    → run before new_manager ≡ some m
    → cancel_timer id m ≡ (true, n)
    → run after n ≡ some k
    → length before + length after + 3 ≤ 2 ^ 64
    → count id k.calls ≡ count id m.calls
cancel_timer_silences before after id m n k h c j bound =
    let v = run-IsValid before m h (omega arith) in
    let few : m.allocated ≤ 0 + length before =
      subst (Allocates (0 + length before)) h (run-Allocates before new_manager) in
    let one : n.allocated ≤ m.allocated + 1 =
      subst (λ (r : Bool × TimerManager). r.1.allocated ≤ m.allocated + 1) c
        (unfold step in step-Allocates (cancels id) m) in
    let (p, same, silent) = cancelled_by m n id v c in
    let w : IsValid n =
      subst (λ (r : Bool × TimerManager). IsValid r.1) c (cancel_timer-IsValid m id v) in
    let s : IsSilent p (count id m.calls) k =
      subst (Silences p (count id m.calls)) j
        (run-Silences after p (count id m.calls) n w silent (omega (arith, few, one))) in
    ap (λ i. count i k.calls) same ∙ s.called

-- In a valid state, while the callback of a repeating timer that is not cancelled is being
-- called and the manager runs, cancelTimer with the identifier of that timer returns false and
-- changes nothing, and when the callback has returned the timer is active and queued again.
pub cancel_timer-lost :
    (m : TimerManager) (p now : ℕ)
    → IsValid m
    → m.worker ≡ calling p
    → m.running ≡ true
    → (m.store p).repeat ≡ true
    → (m.store p).cancelled ≡ false
    → (cancel_timer (m.store p).id m ≡ (false, m))
      × ((n : TimerManager) × (run (finishes_call now ∷ rearms ∷ []) m ≡ some n)
          × (find_timer (m.store p).id n.active_timers ≡ some p)
          × (0 < count p n.timers))
unfolding cancel_timer run step finish_call finish_called rearm rearm_held set_entry held count
cancel_timer-lost m p now v w r again live =
    let known : p < m.allocated = ground (arith, v.fresh p, ap (held p) w) in
    let absent : find_timer (m.store p).id m.active_timers ≡ none =
      ground (arith, v.active p, v.once p, v.ids p known, ap (held p) w) in
    let entry : TimerEntry = record (m.store p) { expire_time = next_expire now (m.store p) } in
    let held_again : TimerManager = record m {
      store = set_entry m.store p entry;
      worker = rearming p;
    } in
    let queued : TimerManager = record held_again {
      active_timers = assign_timer (held_again.store p).id p m.active_timers;
      timers = p ∷ m.timers;
      worker = idle;
    } in
    let over : not (m.store p).repeat || ((m.store p).cancelled || not m.running) ≡ false =
      ground arith in
    let kept : not (held_again.store p).cancelled && m.running ≡ true = ground arith in
    let first : step (finishes_call now) m ≡ some held_again =
      ap (λ k. finish_called k now m) w ∙ if_false _ _ over in
    let second : step rearms held_again ≡ some queued = if_true _ _ kept in
    let own : (held_again.store p).id ≡ (m.store p).id = ground arith in
    (
      rw (cancel_timer, absent) refl,
      (
        queued,
        run-step (finishes_call now) (rearms ∷ []) m held_again first
            ∙ run-step rearms [] held_again queued second,
        ground (
          arith,
          own,
          find_timer-assign_timer (m.store p).id (held_again.store p).id p m.active_timers,
        ),
        ground arith,
      ),
    )
