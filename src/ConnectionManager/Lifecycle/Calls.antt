-- ===== src/ConnectionManager/Lifecycle/Calls.antt =====
-- What the events of the maintenance thread of src/ConnectionManager.cpp do to the tables.
use fast_net.Prelude.{
  ℕ, zero, suc, ◌+◌, ◌^◌, ◌≤◌, ◌<◌, ◌≡◌, refl, ap, sym, subst, ◌∙◌, Bool, true, false, arith,
}
use fast_net.Prelude.{Option, none, some, List, [], ◌∷◌, ◌++◌, length, length-append}
use fast_net.ConnectionManager.State.{Settings, ConnectionManager, new_manager}
use fast_net.ConnectionManager.Actions.{Action, Action.maintains, Action.cleans_up, step, run}
use fast_net.ConnectionManager.Runs.{Agrees, run-Agrees}
use fast_net.ConnectionManager.Lifecycle.{
  Worker, Worker.absent, Worker.at_test, Worker.in_wait, Worker.ended, Cleanup, Cleanup.uncalled,
  Cleanup.joining, Cleanup.clearing, Lifecycle, unstarted, claim, spawn, stop, join, check_running,
  wake, Event, Event.claims, Event.spawns, Event.stops, Event.joins, Event.clears, Event.checks,
  Event.wakes, Event.calls, advance, advance_all,
}

-- The calls that hold the mutex, rounds of the thread included, which `running` lets through.
unfoldable pub effect : Event → (running : Bool) → List Action
effect (wakes now) true = maintains now ∷ []
effect (wakes now) false = []
effect clears running = cleans_up ∷ []
effect (calls a) running = a ∷ []
effect claims running = []
effect spawns running = []
effect stops running = []
effect joins running = []
effect checks running = []

module _ (settings : Settings) (hash : List ℕ → ℕ) where
  -- The actions of a run of events, as far as it is possible.
  unfoldable actions_of : List Event → Lifecycle → List Action
  actions_of [] s = []
  actions_of (e ∷ events) s =
      elim (advance settings hash e s.worker s.cleanup s) as (λ _. List Action) [
        | none ↦ []
        | some t ↦ effect e s.running ++ actions_of events t
      ]

  run-append :
      (xs ys : List Action) (m : ConnectionManager)
      → run settings hash (xs ++ ys) m ≡ run settings hash ys (run settings hash xs m)
  unfolding run
  run-append [] ys m = refl
  run-append (x ∷ xs) ys m = run-append xs ys (step settings hash x m)

  abbrev HasTables : Option Lifecycle → ConnectionManager → Type 0
  HasTables none m = Unit {0}
  HasTables (some s) m = s.manager ≡ m

  wake-effect :
      (now : ℕ) (s : Lifecycle) (r : Bool)
      → s.running ≡ r
      → (wake settings now s).manager ≡ run settings hash (effect (wakes now) r) s.manager
  unfolding wake effect run step
  wake-effect now s true h = rw (wake, h) refl
  wake-effect now s false h = rw (wake, h) refl

  claim-manager : (s : Lifecycle) → (claim s).manager ≡ s.manager
  unfolding claim
  claim-manager s = ground arith

  spawn-HasTables : (n : ℕ) (s : Lifecycle) → HasTables (spawn n s) s.manager
  unfolding spawn
  spawn-HasTables zero s = tt
  spawn-HasTables (suc n) s = refl

  advance-effect :
      (e : Event) (w : Worker) (c : Cleanup) (s : Lifecycle)
      → HasTables (advance settings hash e w c s) (run settings hash (effect e s.running) s.manager)
  unfolding advance stop join check_running effect run step
  advance-effect claims w c s = claim-manager s
  advance-effect spawns w c s = spawn-HasTables s.starting s
  advance-effect stops w uncalled s = refl
  advance-effect stops w joining s = tt
  advance-effect stops w clearing s = tt
  advance-effect joins w uncalled s = tt
  advance-effect joins absent joining s = refl
  advance-effect joins at_test joining s = tt
  advance-effect joins in_wait joining s = tt
  advance-effect joins ended joining s = refl
  advance-effect joins w clearing s = tt
  advance-effect clears w uncalled s = tt
  advance-effect clears w joining s = tt
  advance-effect clears w clearing s = refl
  advance-effect checks absent c s = tt
  advance-effect checks at_test c s = refl
  advance-effect checks in_wait c s = tt
  advance-effect checks ended c s = tt
  advance-effect (wakes now) absent c s = tt
  advance-effect (wakes now) at_test c s = tt
  advance-effect (wakes now) in_wait c s = wake-effect now s s.running refl
  advance-effect (wakes now) ended c s = tt
  advance-effect (calls a) w c s = refl

  advance_all-HasTables :
      (events : List Event) (s : Lifecycle)
      → HasTables
          (advance_all settings hash events s)
          (run settings hash (actions_of events s) s.manager)
  unfolding advance_all actions_of run
  advance_all-HasTables [] s = refl
  advance_all-HasTables (e ∷ events) s =
      after (advance settings hash e s.worker s.cleanup s) (advance_all-HasTables events)
        (advance-effect e s.worker s.cleanup s)
    where
      after :
          (o : Option Lifecycle)
          → ((t : Lifecycle)
              → HasTables
                  (advance_all settings hash events t)
                  (run settings hash (actions_of events t) t.manager))
          → HasTables o (run settings hash (effect e s.running) s.manager)
          → HasTables
              (elim o as (λ _. Option Lifecycle) [
                | none ↦ none
                | some t ↦ advance_all settings hash events t
              ])
              (run settings hash
                (elim o as (λ _. List Action) [
                  | none ↦ []
                  | some t ↦ effect e s.running ++ actions_of events t
                ])
                s.manager)
      after none f h = tt
      after (some t) f h =
          subst (HasTables (advance_all settings hash events t))
            (ap (run settings hash (actions_of events t)) h
              ∙ sym (run-append (effect e s.running) (actions_of events t) s.manager))
            (f t)

-- After any events on a new manager that are possible, the tables are those that a run of the
-- public calls, the clearing by cleanup and the rounds of the thread gives, each taken as one call
-- and in the order of the events, where a thread that wakes makes a round exactly if the manager
-- runs.
advance_all-run :
    (settings : Settings) (hash : List ℕ → ℕ) (events : List Event) (s : Lifecycle)
    → advance_all settings hash events unstarted ≡ some s
    → s.manager ≡ run settings hash (actions_of settings hash events unstarted) new_manager
advance_all-run settings hash events s h =
    subst
      (λ o.
        HasTables settings hash o
          (run settings hash (actions_of settings hash events unstarted) new_manager))
      h (advance_all-HasTables settings hash events unstarted)

length-effect : (e : Event) (r : Bool) → length (effect e r) ≤ 1
unfolding effect
length-effect (wakes now) true = omega arith
length-effect (wakes now) false = omega arith
length-effect clears r = omega arith
length-effect (calls a) r = omega arith
length-effect claims r = omega arith
length-effect spawns r = omega arith
length-effect stops r = omega arith
length-effect joins r = omega arith
length-effect checks r = omega arith

length-actions_of :
    (settings : Settings) (hash : List ℕ → ℕ) (events : List Event) (s : Lifecycle)
    → length (actions_of settings hash events s) ≤ length events
unfolding actions_of
length-actions_of settings hash [] s = omega arith
length-actions_of settings hash (e ∷ events) s =
    after (advance settings hash e s.worker s.cleanup s) (length-actions_of settings hash events)
  where
    after :
        (o : Option Lifecycle)
        → ((t : Lifecycle) → length (actions_of settings hash events t) ≤ length events)
        → length (elim o as (λ _. List Action) [
          | none ↦ []
          | some t ↦ effect e s.running ++ actions_of settings hash events t
        ])
          ≤ suc (length events)
    after none f = omega arith
    after (some t) f = omega (
      arith,
      f t,
      length-effect e s.running,
      length-append (effect e s.running) (actions_of settings hash events t),
    )

-- After any possible events on a new manager, calls, rounds of the thread, starts and cleanups, as
-- long as no identifier can have wrapped, the statistics of every service count as many connections
-- as the service itself and as the table has of it, the active and the idle ones make up that
-- number, and it is not above the limit that they show.
pub advance_all-Agrees :
    (settings : Settings) (hash : List ℕ → ℕ) (events : List Event) (service : List ℕ)
    (s : Lifecycle)
    → advance_all settings hash events unstarted ≡ some s
    → length events + 1 < 2 ^ 64
    → Agrees service s.manager
advance_all-Agrees settings hash events service s h few =
    subst (Agrees service) (sym (advance_all-run settings hash events s h)) (
      run-Agrees settings hash (actions_of settings hash events unstarted) service
        (omega (arith, length-actions_of settings hash events unstarted)))
