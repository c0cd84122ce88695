-- ===== src/ConnectionManager/State.antt =====
-- The state of src/ConnectionManager.cpp and include/FastNet/ConnectionManager.h, and its two
-- tables. Times are counts of the ticks of the steady clock, and texts lists of bytes.
use fast_net.Prelude.{ℕ, ◌+◌, ◌%◌, ◌^◌, Bool, ◌&&◌, ℤ, pos, pos_part, ltb_ℤ}
use fast_net.Prelude.{Option, none, some, List, [], ◌∷◌, ◌==◌, if◌then◌else◌, same_text}

pub record BackendServer : Type 0 where
  pub host : List ℕ
  pub port : ℕ
  pub weight : ℤ
  pub healthy : Bool
  pub active_connections : ℕ
  pub failure_count : ℕ
  pub current_weight : ℤ
  pub last_check_time : ℕ
  pub last_failure_time : ℕ

pub record ConnectionInfo : Type 0 where
  pub id : ℕ
  pub service : List ℕ
  pub remote_host : List ℕ
  pub remote_port : ℕ
  pub created_at : ℕ
  pub last_used : ℕ
  pub is_active : Bool

pub data LoadBalancingStrategy : Type 0 where
  round_robin : LoadBalancingStrategy
  random : LoadBalancingStrategy
  least_connections : LoadBalancingStrategy
  weighted_round_robin : LoadBalancingStrategy
  ip_hash : LoadBalancingStrategy

pub data CircuitBreakerState : Type 0 where
  closed : CircuitBreakerState
  tripped : CircuitBreakerState
  half_open : CircuitBreakerState

pub record CircuitBreakerStats : Type 0 where
  pub state : CircuitBreakerState
  pub failure_count : ℕ
  pub success_count : ℕ
  pub timeout_count : ℕ
  pub last_failure_time : ℕ

pub record ServiceState : Type 0 where
  pub backends : List BackendServer
  pub idle_connections : List ℕ
  pub strategy : LoadBalancingStrategy
  pub circuit_breaker : CircuitBreakerStats
  pub round_robin_index : ℕ
  pub max_pool_size : ℕ
  pub pending_requests : ℕ
  pub total_connections : ℕ

-- What the manager reads from its `Configuration`; the first three are taken to be non-negative.
pub record Settings : Type 0 where
  pub idle_timeout : ℕ
  pub recovery_timeout : ℕ
  pub circuit_breaker_enabled : Bool
  pub failure_threshold : ℤ
  pub half_open_attempts : ℤ
  pub max_connections : ℤ
  pub strategy_name : List ℕ

-- The two tables are lists of their entries, in any order.
pub record ConnectionManager : Type 0 where
  pub connections : List (ℕ × ConnectionInfo)
  pub services : List (List ℕ × ServiceState)
  pub next_connection_id : ℕ
  pub pending_requests : ℕ

-- `++` on a `size_t`.
abbrev pub increment : ℕ → ℕ
increment n = (n + 1) % 2 ^ 64

-- `std::max(1, n)`
unfoldable pub at_least_one : ℤ → ℤ
at_least_one n = if ltb_ℤ (pos 1) n then n else pos 1

-- What the constructor and `ensureServiceStateLocked` make of the configured numbers.
unfoldable pub threshold : Settings → ℕ
threshold settings = pos_part (at_least_one settings.failure_threshold)

unfoldable pub attempts : Settings → ℕ
attempts settings = pos_part (at_least_one settings.half_open_attempts)

unfoldable pub pool_size : Settings → ℕ
pool_size settings = pos_part (at_least_one settings.max_connections)

abbrev pub new_breaker : CircuitBreakerStats
new_breaker = record {
  state = closed;
  failure_count = 0;
  success_count = 0;
  timeout_count = 0;
  last_failure_time = 0;
}

abbrev pub new_service : ServiceState
new_service = record {
  backends = [];
  idle_connections = [];
  strategy = round_robin;
  circuit_breaker = new_breaker;
  round_robin_index = 0;
  max_pool_size = 0;
  pending_requests = 0;
  total_connections = 0;
}

abbrev pub new_manager : ConnectionManager
new_manager = record {
  connections = [];
  services = [];
  next_connection_id = 1;
  pending_requests = 0;
}

-- `connections.find(id)`
unfoldable pub find_connection : ℕ → List (ℕ × ConnectionInfo) → Option ConnectionInfo
find_connection id [] = none
find_connection id ((key, info) ∷ l) =
    let rest = find_connection id l in if key == id then some info else rest

-- `connections[id] = info`, and what an assignment through an iterator leaves.
unfoldable pub assign_connection :
    ℕ → ConnectionInfo → List (ℕ × ConnectionInfo) → List (ℕ × ConnectionInfo)
assign_connection id info [] = (id, info) ∷ []
assign_connection id info ((key, old) ∷ l) =
    let rest = assign_connection id info l in
    if key == id then (key, info) ∷ l else (key, old) ∷ rest

-- `connections.erase(it)`
unfoldable pub erase_connection : ℕ → List (ℕ × ConnectionInfo) → List (ℕ × ConnectionInfo)
erase_connection id [] = []
erase_connection id ((key, info) ∷ l) =
    let rest = erase_connection id l in if key == id then l else (key, info) ∷ rest

-- `services.find(service)`
unfoldable pub find_service : List ℕ → List (List ℕ × ServiceState) → Option ServiceState
find_service service [] = none
find_service service ((key, state) ∷ l) =
    let rest = find_service service l in if same_text key service then some state else rest

unfoldable pub assign_service :
    List ℕ → ServiceState → List (List ℕ × ServiceState) → List (List ℕ × ServiceState)
assign_service service state [] = (service, state) ∷ []
assign_service service state ((key, old) ∷ l) =
    let rest = assign_service service state l in
    if same_text key service then (key, state) ∷ l else (key, old) ∷ rest

abbrev pub or_new : Option ServiceState → ServiceState
or_new none = new_service
or_new (some state) = state

-- What `services[service]` reads: a new entry where there is none.
unfoldable pub service_of : List ℕ → ConnectionManager → ServiceState
service_of service m = or_new (find_service service m.services)

-- `services.find(service)` where something is done to what it finds, if it finds it.
unfoldable pub change_entry :
    List ℕ
    → (ServiceState → ServiceState)
    → List (List ℕ × ServiceState)
    → List (List ℕ × ServiceState)
change_entry service f [] = []
change_entry service f ((key, state) ∷ l) =
    let rest = change_entry service f l in
    if same_text key service then (key, f state) ∷ l else (key, state) ∷ rest

abbrev pub change_service :
    List ℕ → (ServiceState → ServiceState) → ConnectionManager → ConnectionManager
change_service service f m = record m { services = change_entry service f m.services }

-- A loop over all services.
unfoldable pub change_all :
    (ServiceState → ServiceState) → List (List ℕ × ServiceState) → List (List ℕ × ServiceState)
change_all f [] = []
change_all f ((key, state) ∷ l) = (key, f state) ∷ change_all f l

abbrev pub set_service : List ℕ → ServiceState → ConnectionManager → ConnectionManager
set_service service state m = record m { services = assign_service service state m.services }

unfoldable pub is_at : List ℕ → ℕ → BackendServer → Bool
is_at host port b = same_text b.host host && b.port == port

-- `backendMatchesConnection`
abbrev pub backend_matches_connection : BackendServer → ConnectionInfo → Bool
backend_matches_connection b c = is_at c.remote_host c.remote_port b

-- `std::find_if` over the backends, as a copy of the backend.
unfoldable pub find_backend : List ℕ → ℕ → List BackendServer → Option BackendServer
find_backend host port [] = none
find_backend host port (b ∷ l) =
    let rest = find_backend host port l in if is_at host port b then some b else rest

-- The backends once the one that `find_if` points to is changed.
unfoldable pub change_backend :
    List ℕ → ℕ → (BackendServer → BackendServer) → List BackendServer → List BackendServer
change_backend host port f [] = []
change_backend host port f (b ∷ l) =
    let rest = change_backend host port f l in if is_at host port b then f b ∷ l else b ∷ rest
