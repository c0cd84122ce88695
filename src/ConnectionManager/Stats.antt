-- ===== src/ConnectionManager/Stats.antt =====
-- The statistics of src/ConnectionManager.cpp.
use fast_net.Prelude.{ℕ, suc, ◌+◌}
use fast_net.Prelude.{Option, none, some, List, [], ◌∷◌, length, if◌then◌else◌, same_text, less}
use fast_net.ConnectionManager.State.{
  BackendServer, ConnectionInfo, LoadBalancingStrategy, LoadBalancingStrategy.round_robin,
  CircuitBreakerStats, new_breaker, ServiceState, ConnectionManager, find_service, service_of,
}

pub record ConnectionPoolStats : Type 0 where
  pub active_connections : ℕ
  pub idle_connections : ℕ
  pub total_connections : ℕ
  pub max_connections : ℕ
  pub pending_requests : ℕ

pub record ServicePoolStats : Type 0 where
  pub service : List ℕ
  pub active_connections : ℕ
  pub idle_connections : ℕ
  pub total_connections : ℕ
  pub max_connections : ℕ
  pub pending_requests : ℕ
  pub backend_count : ℕ
  pub healthy_backends : ℕ
  pub strategy : LoadBalancingStrategy
  pub circuit_breaker : CircuitBreakerStats

-- A round of the loop over the connections.
abbrev pub count_entry : ConnectionInfo → ConnectionPoolStats → ConnectionPoolStats
count_entry info stats =
    if info.is_active
    then record stats { active_connections = suc stats.active_connections }
    else record stats { idle_connections = suc stats.idle_connections }

unfoldable pub count_entries : List (ℕ × ConnectionInfo) → ConnectionPoolStats → ConnectionPoolStats
count_entries [] stats = stats
count_entries ((id, info) ∷ l) stats = count_entries l (count_entry info stats)

unfoldable pub add_limits : List (List ℕ × ServiceState) → ConnectionPoolStats → ConnectionPoolStats
add_limits [] stats = stats
add_limits ((service, s) ∷ l) stats =
    add_limits l (record stats { max_connections = stats.max_connections + s.max_pool_size })

unfoldable pub get_pool_stats : ConnectionManager → ConnectionPoolStats
get_pool_stats m =
    let empty : ConnectionPoolStats = record {
      active_connections = 0;
      idle_connections = 0;
      total_connections = length m.connections;
      max_connections = 0;
      pending_requests = m.pending_requests;
    } in
    add_limits m.services (count_entries m.connections empty)

abbrev pub no_stats : List ℕ → ServicePoolStats
no_stats service = record {
  service = service;
  active_connections = 0;
  idle_connections = 0;
  total_connections = 0;
  max_connections = 0;
  pending_requests = 0;
  backend_count = 0;
  healthy_backends = 0;
  strategy = round_robin;
  circuit_breaker = new_breaker;
}

unfoldable pub count_healthy : List BackendServer → ℕ
count_healthy [] = 0
count_healthy (b ∷ backends) = (if b.healthy then 1 else 0) + count_healthy backends

abbrev pub count_own : List ℕ → ConnectionInfo → ServicePoolStats → ServicePoolStats
count_own service info stats =
    let total = suc stats.total_connections in
    if same_text info.service service
    then if info.is_active
      then record stats {
        total_connections = total;
        active_connections = suc stats.active_connections;
      }
      else record stats { total_connections = total; idle_connections = suc stats.idle_connections }
    else stats

unfoldable pub count_service_entries :
    List ℕ → List (ℕ × ConnectionInfo) → ServicePoolStats → ServicePoolStats
count_service_entries service [] stats = stats
count_service_entries service ((id, info) ∷ l) stats =
    count_service_entries service l (count_own service info stats)

unfoldable pub service_stats :
    Option ServiceState → List ℕ → List (ℕ × ConnectionInfo) → ServicePoolStats
unfolding count_service_entries count_healthy
service_stats none service connections = no_stats service
service_stats (some s) service connections =
    count_service_entries service connections (record (no_stats service) {
      strategy = s.strategy;
      circuit_breaker = s.circuit_breaker;
      max_connections = s.max_pool_size;
      pending_requests = s.pending_requests;
      backend_count = length s.backends;
      healthy_backends = count_healthy s.backends;
    })

unfoldable pub get_service_stats : List ℕ → ConnectionManager → ServicePoolStats
unfolding service_stats
get_service_stats service m = service_stats (find_service service m.services) service m.connections

unfoldable pub get_backend_servers : List ℕ → ConnectionManager → List BackendServer
get_backend_servers service m = (service_of service m).backends

unfoldable pub insert_name : List ℕ → List (List ℕ) → List (List ℕ)
insert_name name [] = name ∷ []
insert_name name (first ∷ names) =
    let rest = insert_name name names in
    if less name first then name ∷ first ∷ names else first ∷ rest

-- `std::sort` of the names of the entries, which are taken one by one.
unfoldable pub sort_names : List (List ℕ × ServiceState) → List (List ℕ) → List (List ℕ)
unfolding insert_name
sort_names [] names = names
sort_names ((service, s) ∷ l) names = sort_names l (insert_name service names)

unfoldable pub get_services : ConnectionManager → List (List ℕ)
unfolding sort_names
get_services m = sort_names m.services []
