-- ===== src/ConnectionManager/Lifecycle/Orderly.antt =====
-- What holds between the events of the maintenance thread of src/ConnectionManager.cpp.
use fast_net.Prelude.{
  ℕ, zero, suc, ◌==◌, ◌≤◌, ◌≡◌, refl, ap, sym, subst, ◌∙◌, Bool, true, false, not, ◌&&◌, ◌||◌,
  arith,
}
use fast_net.Prelude.{Option, none, some, List, [], ◌∷◌, length, All}
use fast_net.ConnectionManager.State.{Settings, ConnectionManager}
use fast_net.ConnectionManager.Acquire.{clean_up}
use fast_net.ConnectionManager.Lifecycle.{
  Worker, Worker.absent, Worker.at_test, Worker.in_wait, Worker.ended, Cleanup, Cleanup.uncalled,
  Cleanup.joining, Cleanup.clearing, Lifecycle, is_joinable, unstarted, claim, spawn, stop, join,
  check_running, wake, Event, Event.claims, Event.spawns, Event.stops, Event.joins, Event.clears,
  Event.checks, Event.wakes, Event.calls, advance, advance_all,
}

abbrev is_ended : Worker → Bool
is_ended absent = false
is_ended at_test = false
is_ended in_wait = false
is_ended ended = true

abbrev is_uncalled : Cleanup → Bool
is_uncalled uncalled = true
is_uncalled joining = false
is_uncalled clearing = false

-- There is a thread, or one initialize is about to make it, while the manager runs, and until a
-- cleanup has joined it, and the thread ends only once the manager does not run.
abbrev is_orderly : Bool → ℕ → Worker → Cleanup → Bool
is_orderly true n w uncalled =
    (n == 0 && (is_joinable w && not (is_ended w))) || (n == 1 && not (is_joinable w))
is_orderly true n w joining = false
is_orderly true n w clearing = false
is_orderly false n w uncalled = n == 0 && not (is_joinable w)
is_orderly false n w joining = n == 0 && is_joinable w
is_orderly false n w clearing = n == 0 && not (is_joinable w)

-- The steps of a cleanup, of the thread, and the last one of an initialize.
abbrev is_own : Event → Bool
is_own claims = false
is_own spawns = true
is_own stops = true
is_own joins = true
is_own clears = true
is_own checks = true
is_own (wakes now) = true
is_own (calls a) = false

abbrev pub is_joining : Cleanup → Bool
is_joining uncalled = false
is_joining joining = true
is_joining clearing = false

abbrev at : ConnectionManager → Bool → ℕ → Worker → Cleanup → Lifecycle
at m r n w c = record {
  manager = m;
  running = r;
  starting = n;
  worker = w;
  cleanup = c;
  terminated = false;
}

-- No cleanup is under way between the two parts of an initialize.
abbrev is_apart : ℕ → Cleanup → Bool
is_apart n c = n == 0 || is_uncalled c

abbrev is_fine : Lifecycle → Bool
is_fine s = is_orderly s.running s.starting s.worker s.cleanup && not s.terminated

abbrev is_kept : Option Lifecycle → Bool
is_kept none = true
is_kept (some s) = not (is_apart s.starting s.cleanup) || is_fine s

eta :
    (s : Lifecycle)
    → s.terminated ≡ false
    → s ≡ at s.manager s.running s.starting s.worker s.cleanup
eta s h = ap (λ t. record s { terminated = t }) h

module _ (settings : Settings) (hash : List ℕ → ℕ) where
  -- Every initialize of a run is apart from every cleanup.
  unfoldable pub are_apart : List Event → Lifecycle → Bool
  are_apart [] s = is_apart s.starting s.cleanup
  are_apart (e ∷ events) s =
      is_apart s.starting s.cleanup
      && elim (advance settings hash e s.worker s.cleanup s) as (λ _. Bool) [
        | none ↦ true
        | some t ↦ are_apart events t
      ]

  advance-is_kept :
      (e : Event) (m : ConnectionManager) (r : Bool) (n : ℕ) (w : Worker) (c : Cleanup)
      → is_orderly r n w c ≡ true
      → is_kept (advance settings hash e w c (at m r n w c)) ≡ true
  unfolding advance claim spawn stop join check_running wake
  advance-is_kept claims m r n w c h = ground arith
  advance-is_kept spawns m r n w c h = ground arith
  advance-is_kept stops m r n w c h = ground arith
  advance-is_kept joins m r n w c h = ground arith
  advance-is_kept clears m r n w c h = ground arith
  advance-is_kept checks m r n w c h = ground arith
  advance-is_kept (wakes now) m r n w c h = ground arith
  advance-is_kept (calls a) m r n w c h = ground arith

  are_apart-first :
      (events : List Event) (s : Lifecycle)
      → are_apart events s ≡ true
      → is_apart s.starting s.cleanup ≡ true
  unfolding are_apart
  are_apart-first [] s h = h
  are_apart-first (e ∷ events) s h = ground arith

  abbrev IsFine : Option Lifecycle → Type 0
  IsFine none = Unit {0}
  IsFine (some s) = is_fine s ≡ true

  advance_all-IsFine :
      (events : List Event) (s : Lifecycle)
      → is_fine s ≡ true
      → are_apart events s ≡ true
      → IsFine (advance_all settings hash events s)
  unfolding advance_all are_apart
  advance_all-IsFine [] s h k = h
  advance_all-IsFine (e ∷ events) s h k =
      let one : is_kept (advance settings hash e s.worker s.cleanup s) ≡ true =
        ap (λ t. is_kept (advance settings hash e s.worker s.cleanup t)) (eta s (ground (arith, h)))
        ∙ advance-is_kept e s.manager s.running s.starting s.worker s.cleanup (ground (arith, h)) in
      after (advance settings hash e s.worker s.cleanup s) (advance_all-IsFine events) one
        (ground (arith, k))
    where
      after :
          (o : Option Lifecycle)
          → ((t : Lifecycle)
              → is_fine t ≡ true
              → are_apart events t ≡ true
              → IsFine (advance_all settings hash events t))
          → is_kept o ≡ true
          → elim o as (λ _. Bool) [ none ↦ true | some t ↦ are_apart events t ] ≡ true
          → IsFine (elim o as (λ _. Option Lifecycle) [
            | none ↦ none
            | some t ↦ advance_all settings hash events t
          ])
      after none f a b = tt
      after (some t) f a b = f t (ground (arith, a, are_apart-first events t b)) b

  -- By steps of its own, of the thread and of an initialize, five at most, a cleanup comes to its end, once it is
  -- called if it is not: the thread is joined and the tables are cleared.
  pub record Finishes (s : Lifecycle) : Type 0 where
    pub steps : List Event
    pub few : length steps ≤ 5
    pub own : All (λ e. is_own e ≡ true) steps
    pub taken :
        advance_all settings hash steps s ≡ some (at (clean_up s.manager) false 0 absent uncalled)

  by_steps :
      (s : Lifecycle) (steps : List Event)
      → length steps ≤ 5
      → All (λ e. is_own e ≡ true) steps
      → advance_all settings hash steps s ≡ some (at (clean_up s.manager) false 0 absent uncalled)
      → Finishes s
  by_steps s steps few own taken = record { steps = steps; few = few; own = own; taken = taken }

  finishes :
      (now : ℕ) (m : ConnectionManager) (r : Bool) (n : ℕ) (w : Worker) (c : Cleanup)
      → is_orderly r n w c ≡ true
      → Finishes (at m r n w c)
  unfolding advance_all advance claim spawn stop join check_running wake
  finishes now m true zero absent uncalled h = absurd (ground (arith, h))
  finishes now m true zero at_test uncalled h =
      by_steps _ (stops ∷ checks ∷ joins ∷ clears ∷ []) (omega arith)
        (refl, (refl, (refl, (refl, tt)))) refl
  finishes now m true zero in_wait uncalled h =
      by_steps _ (stops ∷ wakes now ∷ joins ∷ clears ∷ []) (omega arith)
        (refl, (refl, (refl, (refl, tt)))) refl
  finishes now m true zero ended uncalled h = absurd (ground (arith, h))
  finishes now m true zero w joining h = absurd (ground (arith, h))
  finishes now m true zero w clearing h = absurd (ground (arith, h))
  finishes now m true (suc zero) absent uncalled h =
      by_steps _ (spawns ∷ stops ∷ checks ∷ joins ∷ clears ∷ []) (omega arith)
        (refl, (refl, (refl, (refl, (refl, tt))))) refl
  finishes now m true (suc zero) at_test uncalled h = absurd (ground (arith, h))
  finishes now m true (suc zero) in_wait uncalled h = absurd (ground (arith, h))
  finishes now m true (suc zero) ended uncalled h = absurd (ground (arith, h))
  finishes now m true (suc zero) w joining h = absurd (ground (arith, h))
  finishes now m true (suc zero) w clearing h = absurd (ground (arith, h))
  finishes now m true (suc (suc n)) w uncalled h = absurd (ground (arith, h))
  finishes now m true (suc (suc n)) w joining h = absurd (ground (arith, h))
  finishes now m true (suc (suc n)) w clearing h = absurd (ground (arith, h))
  finishes now m false zero absent uncalled h =
      by_steps _ (stops ∷ clears ∷ []) (omega arith) (refl, (refl, tt)) refl
  finishes now m false zero at_test uncalled h = absurd (ground (arith, h))
  finishes now m false zero in_wait uncalled h = absurd (ground (arith, h))
  finishes now m false zero ended uncalled h = absurd (ground (arith, h))
  finishes now m false zero absent joining h = absurd (ground (arith, h))
  finishes now m false zero at_test joining h =
      by_steps _ (checks ∷ joins ∷ clears ∷ []) (omega arith) (refl, (refl, (refl, tt))) refl
  finishes now m false zero in_wait joining h =
      by_steps _ (wakes now ∷ joins ∷ clears ∷ []) (omega arith) (refl, (refl, (refl, tt))) refl
  finishes now m false zero ended joining h =
      by_steps _ (joins ∷ clears ∷ []) (omega arith) (refl, (refl, tt)) refl
  finishes now m false zero absent clearing h =
      by_steps _ (clears ∷ []) (omega arith) (refl, tt) refl
  finishes now m false zero at_test clearing h = absurd (ground (arith, h))
  finishes now m false zero in_wait clearing h = absurd (ground (arith, h))
  finishes now m false zero ended clearing h = absurd (ground (arith, h))
  finishes now m false (suc zero) w uncalled h = absurd (ground (arith, h))
  finishes now m false (suc zero) w joining h = absurd (ground (arith, h))
  finishes now m false (suc zero) w clearing h = absurd (ground (arith, h))
  finishes now m false (suc (suc n)) w uncalled h = absurd (ground (arith, h))
  finishes now m false (suc (suc n)) w joining h = absurd (ground (arith, h))
  finishes now m false (suc (suc n)) w clearing h = absurd (ground (arith, h))

-- After any possible events on a new manager, as long as no cleanup is under way between the two
-- parts of an initialize, std::terminate has not been called, at most one initialize is about to
-- make the thread, the thread can be joined exactly while the manager runs and no initialize has
-- still to make it, or a cleanup waits for it, and a cleanup can come to its end, with the thread
-- joined and the tables cleared, by at most five steps of its own, of the thread and of that
-- initialize.
pub advance_all-IsOrderly :
    (settings : Settings) (hash : List ℕ → ℕ) (events : List Event) (s : Lifecycle)
    → advance_all settings hash events unstarted ≡ some s
    → are_apart settings hash events unstarted ≡ true
    → (s.terminated ≡ false)
      × (s.starting ≤ 1)
      × (is_joinable s.worker ≡ (s.running && s.starting == 0) || is_joining s.cleanup)
      × Finishes settings hash s
advance_all-IsOrderly settings hash events s h apart =
    let fine : is_fine s ≡ true =
      subst (IsFine settings hash) h
        (advance_all-IsFine settings hash events unstarted refl apart) in
    let sound : s.terminated ≡ false = ground (arith, fine) in
    (
      sound,
      ground (arith, fine),
      ground (arith, fine),
      subst (Finishes settings hash) (sym (eta s sound)) (
          finishes settings hash 0 s.manager s.running s.starting s.worker s.cleanup
            (ground (arith, fine))),
    )
