-- ===== src/Timer/Progress.antt =====
-- The worker of src/Timer.cpp gets to a timer that is due.
use fast_net.Prelude.{
  ℕ, zero, suc, ◌+◌, ◌≤◌, ◌<◌, ◌≡◌, refl, ap, ◌∙◌, true, false, not, ◌&&◌, arith,
}
use fast_net.Prelude.{
  some, List, [], ◌∷◌, map, length, ltb, leb, Bool-cases, if_true, if_false, inl, inr,
}
use fast_net.Timer.Manager.{
  TimerEntry, TimerManager, Worker.idle, Worker.taken, remove, is_queued, not_after, erase_timer,
}
use fast_net.Timer.Loop.{take_timer, take_candidate}
use fast_net.Timer.Actions.{Action.takes, step, run, run-step}
use fast_net.Timer.Inv.{count, is_queued-count, count-remove}

not_after_earlier :
    (store : ℕ → TimerEntry) (c d : ℕ) (l : List ℕ)
    → not_after store c l ≡ true
    → (store d).expire_time ≤ (store c).expire_time
    → not_after store d l ≡ true
unfolding not_after
not_after_earlier store c d [] h k = refl
not_after_earlier store c d (q ∷ l) h k = ground (arith, not_after_earlier store c d l)

-- Some timer is due before all others.
top_exists :
    (store : ℕ → TimerEntry) (q : ℕ) (l : List ℕ)
    → (c : ℕ) × (is_queued c (q ∷ l) ≡ true) × (not_after store c (q ∷ l) ≡ true)
unfolding not_after
top_exists store q [] = (q, ground arith, ground arith)
top_exists store q (r ∷ l) =
    let (c, here, first) = top_exists store r l in
    elim (Bool-cases (leb (store c).expire_time (store q).expire_time)) [
      | inl e ↦ (c, ground arith, ground arith)
      | inr e ↦ (
        q,
        ground arith,
        let t = not_after_earlier store c q (r ∷ l) first (ground arith) in ground (arith, t),
      )
    ]

not_after-queued :
    (store : ℕ → TimerEntry) (c p : ℕ) (l : List ℕ)
    → not_after store c l ≡ true
    → 0 < count p l
    → (store c).expire_time ≤ (store p).expire_time
unfolding not_after count
not_after-queued store c p [] h k = absurd (omega arith)
not_after-queued store c p (q ∷ l) h k = ground (arith, not_after-queued store c p l)

length-remove : (c : ℕ) (l : List ℕ) → 0 < count c l → length (remove c l) + 1 ≡ length l
unfolding remove count
length-remove c [] h = absurd (omega arith)
length-remove c (q ∷ l) h = ground (arith, length-remove c l)

-- Rounds of the inner loop after which the worker has a timer that is due no later than `p`.
pub record Takes (m : TimerManager) (p now : ℕ) : Type 0 where
  pub candidates : List ℕ
  pub after : TimerManager
  pub chosen : ℕ
  pub few : length candidates ≤ length m.timers
  pub rounds : run (map (λ c. takes c now) candidates) m ≡ some after
  pub holds : after.worker ≡ taken chosen
  pub live : (m.store chosen).cancelled ≡ false
  pub due : (m.store chosen).expire_time ≤ (m.store p).expire_time

top_of :
    (store : ℕ → TimerEntry) (p : ℕ) (l : List ℕ)
    → 0 < count p l
    → (c : ℕ) × (is_queued c l ≡ true) × (not_after store c l ≡ true)
unfolding count
top_of store p [] h = absurd (omega arith)
top_of store p (q ∷ l) h = top_exists store q l

due_timer :
    (k : ℕ) (m : TimerManager) (p now : ℕ)
    → length m.timers ≤ k
    → m.worker ≡ idle
    → m.running ≡ true
    → 0 < count p m.timers
    → (m.store p).cancelled ≡ false
    → (m.store p).expire_time ≤ now
    → Takes m p now
unfolding run step take_timer take_candidate
due_timer zero m p now short w r queued live due =
    absurd (omega (arith, length-remove p m.timers queued))
due_timer (suc k) m p now short w r queued live due =
    let (c, here, first) = top_of m.store p m.timers queued in
    let there : 0 < count c m.timers = ground (arith, is_queued-count c m.timers, here) in
    let shorter = length-remove c m.timers there in
    let sooner = not_after-queued m.store c p m.timers first queued in
    let popped : TimerManager = record m { timers = remove c m.timers } in
    let chosen : TimerManager = record popped {
      active_timers = erase_timer (m.store c).id m.active_timers;
      worker = taken c;
    } in
    let passed : not (m.running && (is_queued c m.timers && not_after m.store c m.timers)) ≡ false =
      ground arith in
    let timely : ltb now (m.store c).expire_time ≡ false = ground (arith, sooner) in
    let round = ap (λ v. take_candidate v c now m) w ∙ if_false _ _ passed in
    elim (Bool-cases (m.store c).cancelled) [
      | inl gone ↦
          let other : 0 < count p (remove c m.timers) = ground (arith, count-remove p c m.timers) in
          let ih = due_timer k popped p now (omega (arith, shorter)) w r other live due in
          record {
            candidates = c ∷ ih.candidates;
            after = ih.after;
            chosen = ih.chosen;
            few = omega (arith, ih.few, shorter);
            rounds =
                run-step (takes c now) (map (λ d. takes d now) ih.candidates) m popped
                  (round ∙ if_true _ _ gone)
                ∙ ih.rounds;
            holds = ih.holds;
            live = ih.live;
            due = ih.due;
          }
      | inr live ↦ record {
        candidates = c ∷ [];
        after = chosen;
        chosen = c;
        few = omega (arith, shorter);
        rounds =
            run-step (takes c now) [] m chosen (round ∙ if_false _ _ live ∙ if_false _ _ timely);
        holds = refl;
        live = live;
        due = sooner;
      }
    ]

-- When the manager runs, its worker stands at the queue and a queued timer that is not
-- cancelled is due, then the worker can, in as many rounds at that time as there are queued
-- timers or fewer, take a timer that is not cancelled and due no later than it.
pub due_timer_taken :
    (m : TimerManager) (p now : ℕ)
    → m.worker ≡ idle
    → m.running ≡ true
    → 0 < count p m.timers
    → (m.store p).cancelled ≡ false
    → (m.store p).expire_time ≤ now
    → Takes m p now
due_timer_taken m p now = due_timer (length m.timers) m p now (omega arith)
