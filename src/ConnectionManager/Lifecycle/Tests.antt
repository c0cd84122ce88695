-- ===== src/ConnectionManager/Lifecycle/Tests.antt =====
-- The maintenance thread of src/ConnectionManager.cpp and getServices at concrete inputs.
use fast_net.Prelude.{
  ℕ, ◌≡◌, refl, true, false, ◌||◌, none, some, List, [], ◌∷◌, codes, pos, length,
}
use fast_net.Prelude.{same_text, less}
use fast_net.ConnectionManager.State.{Settings, new_manager}
use fast_net.ConnectionManager.Stats.{insert_name, get_services}
use fast_net.ConnectionManager.Actions.{
  Action, Action.acquires, Action.adds_backend, Action.closes, run,
}
use fast_net.ConnectionManager.Listing.{listed_run, listed_after, add_name, is_listed, IsIncreasing}
use fast_net.ConnectionManager.Listing.Runs.{get_services-listed_run}
use fast_net.ConnectionManager.Lifecycle.{
  Lifecycle, is_joinable, unstarted, claim, spawn, stop, join, check_running, wake, Event,
  Event.claims, Event.spawns, Event.stops, Event.checks, Event.wakes, Event.calls, advance,
  advance_all,
}
use fast_net.ConnectionManager.Lifecycle.Orderly.{
  is_joining, Finishes, are_apart, advance_all-IsOrderly,
}
use fast_net.ConnectionManager.Lifecycle.Calls.{advance_all-Agrees}
use fast_net.ConnectionManager.Runs.{Agrees}
use fast_net.Prelude.{arith, ◌≤◌, ◌==◌, ◌&&◌}

abbrev slow : Settings
slow = record {
  idle_timeout = 30;
  recovery_timeout = 60;
  circuit_breaker_enabled = true;
  failure_threshold = pos 2;
  half_open_attempts = pos 3;
  max_connections = pos 2;
  strategy_name = codes "random";
}

abbrev size_hash : List ℕ → ℕ
size_hash key = length key

abbrev first_draw : ℕ → ℕ
first_draw n = 0

abbrev visits : List Action
visits =
    acquires first_draw (codes "web") [] 2
    ∷ adds_backend (codes "api") (codes "a") 80 (pos 3) 1
    ∷ acquires first_draw [] [] 3
    ∷ closes 1
    ∷ acquires first_draw (codes "web") [] 4
    ∷ []

listed_visits : listed_run visits [] ≡ codes "api" ∷ codes "web" ∷ []
unfolding listed_run listed_after add_name is_listed same_text insert_name less
listed_visits = refl

get_services-listed_run_example :
    (get_services (run slow size_hash visits new_manager) ≡ listed_run visits [])
    × IsIncreasing (listed_run visits [])
get_services-listed_run_example = get_services-listed_run slow size_hash visits

-- The manager is stopped while its thread waits after a round.
abbrev service_day : List Event
service_day =
    claims
    ∷ spawns
    ∷ checks
    ∷ calls (adds_backend (codes "api") (codes "a") 80 (pos 3) 1)
    ∷ wakes 5
    ∷ checks
    ∷ claims
    ∷ stops
    ∷ []

abbrev day_end : Lifecycle
day_end = elim (advance_all slow size_hash service_day unstarted) [ none ↦ unstarted | some s ↦ s ]

advance_service_day : advance_all slow size_hash service_day unstarted ≡ some day_end
unfolding advance_all advance claim spawn stop join check_running wake
advance_service_day = refl

advance_all-IsOrderly_example :
    (day_end.terminated ≡ false)
    × (day_end.starting ≤ 1)
    × (is_joinable day_end.worker
        ≡ (day_end.running && day_end.starting == 0) || is_joining day_end.cleanup)
    × Finishes slow size_hash day_end
advance_all-IsOrderly_example =
    advance_all-IsOrderly slow size_hash service_day day_end advance_service_day
      (unfold are_apart advance claim spawn stop join check_running wake in refl)

-- An initialize between the exchange and the join of a cleanup assigns to a joinable thread.
abbrev restart : List Event
restart = claims ∷ spawns ∷ stops ∷ claims ∷ spawns ∷ []

abbrev restarted : Lifecycle
restarted = elim (advance_all slow size_hash restart unstarted) [ none ↦ unstarted | some s ↦ s ]

terminated_by_restart :
    (restarted.terminated ≡ true) × (are_apart slow size_hash restart unstarted ≡ false)
unfolding advance_all advance claim spawn stop join check_running wake are_apart
terminated_by_restart = (refl, refl)

advance_all-Agrees_example : Agrees (codes "api") day_end.manager
advance_all-Agrees_example =
    advance_all-Agrees slow size_hash service_day (codes "api") day_end advance_service_day
      (omega arith)
