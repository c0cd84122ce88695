-- ===== src/ConnectionManager/Tests.antt =====
-- Runs of the connection manager, and the theorems at concrete inputs.
use fast_net.Prelude.{
  ℕ, ◌-◌, ◌≡◌, ◌≤◌, ◌↔◌, ◌+ℤ◌, same_text, refl, Bool, true, false, arith, pos, negsuc,
}
use fast_net.Prelude.{some, List, [], ◌∷◌, codes, length}
use fast_net.ConnectionManager.State.{
  ServiceState, Settings, ConnectionManager, new_manager, new_service, new_breaker,
  LoadBalancingStrategy.weighted_round_robin, CircuitBreakerState.tripped, service_of, find_service,
  at_least_one,
}
use fast_net.ConnectionManager.Select.{
  new_backend, select_backend, choose, healthy_backends, weigh, is_better, equal_ℤ,
}
use fast_net.ConnectionManager.Breaker.{
  parse_strategy, normalize_strategy_name, apply_execution_result,
}
use fast_net.ConnectionManager.Acquire.{acquire_connection, take_idle}
use fast_net.ConnectionManager.Actions.{
  Action, Action.acquires, Action.releases, Action.adds_backend, run,
}
use fast_net.ConnectionManager.Granted.Acquire.{Answers, run-Answers}
use fast_net.ConnectionManager.Choice.{IsChoice, select_backend-IsChoice}
use fast_net.ConnectionManager.Weights.Range.{IsBounded}
use fast_net.Prelude.{All, none, pos_part, neg_part, ◌^◌}
use fast_net.ConnectionManager.Weights.{weight_sum, select_backend-weight_sum}
use fast_net.ConnectionManager.Trips.{told, HasRun, told-HasRun}
use fast_net.ConnectionManager.Refusal.{IsRefused, acquire_connection-IsRefused}
use fast_net.ConnectionManager.Exhaustion.{IsExhausted, take_idle-IsExhausted}

abbrev defaults : Settings
defaults = record {
  idle_timeout = 30;
  recovery_timeout = 60;
  circuit_breaker_enabled = true;
  failure_threshold = pos 2;
  half_open_attempts = pos 3;
  max_connections = pos 2;
  strategy_name = codes "weighted_round-robin";
}

abbrev any_hash : List ℕ → ℕ
any_hash key = length key

abbrev any_draw : ℕ → ℕ
any_draw n = n - 1

abbrev web : List ℕ
web = codes "web"

abbrev here : List ℕ
here = codes "a"

-- Two connections are made, one is released and handed out again, and a third is refused.
abbrev busy : List Action
busy =
    adds_backend web here 80 (pos 3) 1
    ∷ adds_backend web (codes "b") 81 (negsuc 4) 1
    ∷ acquires any_draw web [] 2
    ∷ acquires any_draw web [] 2
    ∷ acquires any_draw web [] 3
    ∷ releases 1 4
    ∷ []

abbrev busy_manager : ConnectionManager
busy_manager = run defaults any_hash busy new_manager

run-Answers_example :
    Answers web 2 busy_manager.connections
      (acquire_connection defaults any_hash any_draw web [] 5 busy_manager)
run-Answers_example = run-Answers defaults any_hash busy any_draw web [] 5 2 (omega arith)

-- Three backends of which the second is not healthy.
abbrev three : ServiceState
three = record new_service {
  strategy = weighted_round_robin;
  backends =
      record new_backend { host = here; weight = pos 5 }
      ∷ record new_backend { host = web; healthy = false }
      ∷ record new_backend { host = codes "c"; weight = pos 2; current_weight = negsuc 0 }
      ∷ [];
}

select_backend-three : (select_backend any_hash any_draw [] three).0 ≡ some 0
unfolding select_backend choose healthy_backends weigh is_better at_least_one ◌+ℤ◌ equal_ℤ
select_backend-three = refl

select_backend-IsChoice_example :
    IsChoice three.backends (select_backend any_hash any_draw [] three).0
select_backend-IsChoice_example =
    select_backend-IsChoice any_hash any_draw [] three (λ n h. omega arith)

select_backend-weight_sum_example :
    (weight_sum (select_backend any_hash any_draw [] three).1.backends ≡ weight_sum three.backends)
    × All (IsBounded 100 (2 ^ 31 - 1)) (weigh (0 ∷ []) three.backends none (pos 0)).0
    × (pos_part (weigh (0 ∷ []) three.backends none (pos 0)).1.1 ≤ 2 ^ 31 - 1)
    × (neg_part (weigh (0 ∷ []) three.backends none (pos 0)).1.1 ≡ 0)
    × All (IsBounded 100 (2 ^ 31 - 1)) (select_backend any_hash any_draw [] three).1.backends
select_backend-weight_sum_example =
    select_backend-weight_sum any_hash any_draw [] three 100 1000 (0 ∷ []) (2 ∷ []) (omega arith)
      (omega arith) (omega arith) (unfold healthy_backends in refl)

abbrev results : List (Bool × ℕ)
results = (false, 1) ∷ (true, 2) ∷ (false, 3) ∷ (false, 4) ∷ (true, 5) ∷ []

told-results : (told 2 3 results new_breaker).state ≡ tripped
unfolding told apply_execution_result
told-results = refl

told-HasRun_example : ((told 2 3 results new_breaker).state ≡ tripped) ↔ HasRun 2 results
told-HasRun_example = told-HasRun 2 3 results (omega arith) (omega arith)

abbrev stopped : ConnectionManager
stopped = record new_manager {
  services =
      (
        web,
        record new_service {
          circuit_breaker = record new_breaker { state = tripped; last_failure_time = 100 };
        },
      )
      ∷ [];
}

service_of-stopped :
    ((service_of web stopped).circuit_breaker.state ≡ tripped)
    × ((service_of web stopped).circuit_breaker.last_failure_time ≡ 100)
unfolding service_of find_service same_text
service_of-stopped = (refl, refl)

acquire_connection-IsRefused_example :
    IsRefused stopped (acquire_connection defaults any_hash any_draw web [] 150 stopped)
acquire_connection-IsRefused_example =
    acquire_connection-IsRefused defaults any_hash any_draw web [] 150 stopped refl
      service_of-stopped.0 (omega (arith, service_of-stopped)) (omega arith)

abbrev resting : ConnectionManager
resting = record new_manager {
  services = (web, record new_service { idle_connections = 4 ∷ 7 ∷ [] }) ∷ [];
}

service_of-resting : length (service_of web resting).idle_connections ≤ 2
unfolding service_of find_service same_text
service_of-resting = omega arith

take_idle-IsExhausted_example : IsExhausted web (take_idle 2 defaults web 5 resting)
take_idle-IsExhausted_example = take_idle-IsExhausted 2 defaults web 5 resting service_of-resting

-- A name in any spelling.
parse_strategy-spelling : parse_strategy (codes "Weighted round-Robin") ≡ weighted_round_robin
unfolding parse_strategy normalize_strategy_name same_text
parse_strategy-spelling = refl
