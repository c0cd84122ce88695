-- ===== src/ConnectionManager/Breaker.antt =====
-- The health of a backend, the circuit breaker and the names of the strategies of
-- src/ConnectionManager.cpp.
use fast_net.Prelude.{ℕ, ◌+◌, Bool, true, false, not, ◌&&◌, ◌||◌, pos, List, [], ◌∷◌}
use fast_net.Prelude.{ltb, leb, if◌then◌else◌, same_text, codes}
use fast_net.ConnectionManager.State.{
  BackendServer, CircuitBreakerState, CircuitBreakerState.closed, CircuitBreakerState.tripped,
  CircuitBreakerState.half_open, CircuitBreakerStats, LoadBalancingStrategy,
  LoadBalancingStrategy.round_robin, LoadBalancingStrategy.random,
  LoadBalancingStrategy.least_connections, LoadBalancingStrategy.weighted_round_robin,
  LoadBalancingStrategy.ip_hash, ServiceState, Settings, increment, attempts,
}

abbrev pub is_digit : ℕ → Bool
is_digit c = leb b'0' c && leb c b'9'

abbrev pub is_upper : ℕ → Bool
is_upper c = leb b'A' c && leb c b'Z'

abbrev pub is_lower : ℕ → Bool
is_lower c = leb b'a' c && leb c b'z'

unfoldable pub normalize_strategy_name : List ℕ → List ℕ
normalize_strategy_name [] = []
normalize_strategy_name (c ∷ text) =
    let rest = normalize_strategy_name text in
    if is_digit c || is_upper c || is_lower c
    then (if is_upper c then c + 32 else c) ∷ rest
    else rest

unfoldable pub parse_strategy : List ℕ → LoadBalancingStrategy
parse_strategy strategy_name =
    let normalized = normalize_strategy_name strategy_name in
    if same_text normalized (codes "random")
    then random
    else if same_text normalized (codes "leastconnections")
    then least_connections
    else if same_text normalized (codes "weightedroundrobin")
    then weighted_round_robin
    else if same_text normalized (codes "iphash")
    then ip_hash
    else round_robin

unfoldable pub apply_backend_status : Bool → ℕ → ℕ → BackendServer → BackendServer
apply_backend_status true failure_threshold now backend = record backend {
  last_check_time = now;
  failure_count = 0;
  healthy = true;
  current_weight = pos 0;
}
apply_backend_status false failure_threshold now backend =
    let failures = increment backend.failure_count in
    let failed : BackendServer = record backend {
      last_check_time = now;
      failure_count = failures;
      last_failure_time = now;
    } in
    if leb failure_threshold failures
    then record failed { healthy = false; current_weight = pos 0 }
    else failed

abbrev pub is_half_open : CircuitBreakerState → Bool
is_half_open closed = false
is_half_open tripped = false
is_half_open half_open = true

abbrev pub is_closed : CircuitBreakerState → Bool
is_closed closed = true
is_closed tripped = false
is_closed half_open = false

abbrev pub is_tripped : CircuitBreakerState → Bool
is_tripped closed = false
is_tripped tripped = true
is_tripped half_open = false

unfoldable pub apply_execution_result : Bool → ℕ → ℕ → ℕ → CircuitBreakerStats → CircuitBreakerStats
apply_execution_result true failure_threshold half_open_attempts now breaker =
    let counted : CircuitBreakerStats = record breaker {
      success_count = increment breaker.success_count;
      timeout_count = 0;
    } in
    if is_half_open counted.state && leb half_open_attempts counted.success_count
    then record counted { state = closed; failure_count = 0; success_count = 0 }
    else if is_closed counted.state
    then record counted { failure_count = 0 }
    else counted
apply_execution_result false failure_threshold half_open_attempts now breaker =
    let counted : CircuitBreakerStats = record breaker {
      failure_count = increment breaker.failure_count;
      timeout_count = increment breaker.timeout_count;
      last_failure_time = now;
    } in
    if is_half_open counted.state || leb failure_threshold counted.failure_count
    then record counted { state = tripped; success_count = 0 }
    else counted

-- A breaker that lets attempts through again.
abbrev pub half_opened : CircuitBreakerStats → CircuitBreakerStats
half_opened breaker = record breaker { state = half_open; success_count = 0; timeout_count = 0 }

unfoldable pub get_active_connection_count : List BackendServer → ℕ
get_active_connection_count [] = 0
get_active_connection_count (b ∷ backends) =
    b.active_connections + get_active_connection_count backends

-- The second half of `prepareCircuitBreakerLocked`.
unfoldable pub may_attempt : ℕ → ServiceState → Bool
may_attempt half_open_attempts s = not (
    is_half_open s.circuit_breaker.state
    && leb half_open_attempts (get_active_connection_count s.backends))

module _ (settings : Settings) (now : ℕ) where
  unfoldable pub prepare_circuit_breaker : ServiceState → Bool × ServiceState
  unfolding may_attempt
  prepare_circuit_breaker s =
      let breaker = s.circuit_breaker in
      let opened : ServiceState = record s { circuit_breaker = half_opened breaker } in
      if not settings.circuit_breaker_enabled
      then (true, s)
      else if is_tripped breaker.state
      then if ltb 0 settings.recovery_timeout
          && ltb now (breaker.last_failure_time + settings.recovery_timeout)
        then (false, s)
        else (may_attempt (attempts settings) opened, opened)
      else (may_attempt (attempts settings) s, s)
