-- ===== src/ConnectionManager/Backends.antt =====
-- The backends and the reports of src/ConnectionManager.cpp, and its statistics.
use fast_net.Prelude.{ℕ, zero, suc, ◌+◌, ◌%◌, Bool, true, not, ◌&&◌, ◌||◌, ℤ, pos}
use fast_net.Prelude.{Option, none, some, List, [], ◌∷◌, ◌++◌, length, set, is_empty}
use fast_net.Prelude.{leb, ◌==◌, if◌then◌else◌, same_text}
use fast_net.ConnectionManager.State.{
  BackendServer, ConnectionInfo, LoadBalancingStrategy, CircuitBreakerStats, ServiceState, Settings,
  ConnectionManager, at_least_one, threshold, attempts, find_service, change_service, change_all,
  service_of, is_at, find_backend, change_backend,
}
use fast_net.ConnectionManager.Breaker.{
  parse_strategy, apply_backend_status, apply_execution_result,
}
use fast_net.ConnectionManager.Select.{new_backend, backend_at}
use fast_net.ConnectionManager.Pool.{ensure_service_state, remove_where, connection_ids}

abbrev pub added_backend : List ℕ → ℕ → ℤ → ℕ → BackendServer
added_backend host port weight now = record new_backend {
  host = host;
  port = port;
  weight = at_least_one weight;
  last_check_time = now;
}

abbrev pub readd : ℤ → BackendServer → BackendServer
readd weight b = record b { weight = at_least_one weight; healthy = true; current_weight = pos 0 }

unfoldable pub put_backend :
    Option BackendServer → List ℕ → ℕ → ℤ → ℕ → List BackendServer → List BackendServer
put_backend none host port weight now backends = backends ++ added_backend host port weight now ∷ []
put_backend (some b) host port weight now backends =
    change_backend host port (readd weight) backends

abbrev pub with_backend : List ℕ → ℕ → ℤ → ℕ → ServiceState → ServiceState
with_backend host port weight now s = record s {
  backends = put_backend (find_backend host port s.backends) host port weight now s.backends;
}

unfoldable pub add_backend_server :
    Settings → List ℕ → List ℕ → ℕ → ℤ → ℕ → ConnectionManager → ConnectionManager
unfolding put_backend
add_backend_server settings service host port weight now m =
    if is_empty service || is_empty host || port == 0
    then m
    else change_service service (with_backend host port weight now)
        (ensure_service_state settings service m)

unfoldable pub without_backend : List ℕ → ℕ → List BackendServer → List BackendServer
without_backend host port [] = []
without_backend host port (b ∷ l) =
    let rest = without_backend host port l in if is_at host port b then rest else b ∷ rest

unfoldable pub turn_within : ℕ → List BackendServer → ℕ
turn_within index [] = index
turn_within index (b ∷ l) = if leb (length (b ∷ l)) index then index % length (b ∷ l) else index

abbrev pub less_backend : List ℕ → ℕ → ServiceState → ServiceState
less_backend host port s =
    let left = without_backend host port s.backends in
    record s { backends = left; round_robin_index = turn_within s.round_robin_index left }

-- The connections that the loops over a backend's idle connections remove.
abbrev pub idles_at : List ℕ → List ℕ → ℕ → ConnectionInfo → Bool
idles_at service host port info =
    same_text info.service service
    && (same_text info.remote_host host && (info.remote_port == port && not info.is_active))

abbrev pub when_found :
    Option ServiceState
    → (ConnectionManager → ConnectionManager)
    → ConnectionManager
    → ConnectionManager
when_found none f m = m
when_found (some s) f m = f m

abbrev pub lose_backend : List ℕ → List ℕ → ℕ → ConnectionManager → ConnectionManager
lose_backend service host port m =
    remove_where (idles_at service host port) (connection_ids m)
      (change_service service (less_backend host port) m)

unfoldable pub remove_backend_server : List ℕ → List ℕ → ℕ → ConnectionManager → ConnectionManager
remove_backend_server service host port m =
    when_found (find_service service m.services) (lose_backend service host port) m

abbrev pub reweigh : ℤ → BackendServer → BackendServer
reweigh weight b = record b { weight = at_least_one weight; current_weight = pos 0 }

unfoldable pub update_backend_weight :
    List ℕ → List ℕ → ℕ → ℤ → ConnectionManager → ConnectionManager
update_backend_weight service host port weight m =
    change_service service
      (λ s. record s { backends = change_backend host port (reweigh weight) s.backends }) m

abbrev pub strategy_in : Settings → Option ServiceState → LoadBalancingStrategy
strategy_in settings none = parse_strategy settings.strategy_name
strategy_in settings (some s) = s.strategy

unfoldable pub get_load_balancing_strategy :
    Settings → List ℕ → ConnectionManager → LoadBalancingStrategy
get_load_balancing_strategy settings service m =
    strategy_in settings (find_service service m.services)

unfoldable pub set_load_balancing_strategy :
    Settings → List ℕ → LoadBalancingStrategy → ConnectionManager → ConnectionManager
set_load_balancing_strategy settings service strategy m =
    change_service service (λ s. record s { strategy = strategy })
      (ensure_service_state settings service m)

unfoldable pub get_circuit_breaker_stats : List ℕ → ConnectionManager → CircuitBreakerStats
get_circuit_breaker_stats service m = (service_of service m).circuit_breaker

-- A report for the backend that the index points to.
unfoldable pub report_at : Settings → Bool → ℕ → List ℕ → ℕ → ConnectionManager → ConnectionManager
report_at settings success now service i m =
    let b = backend_at (service_of service m).backends i in
    let reported = apply_backend_status success (threshold settings) now b in
    let updated =
      change_service service (λ s. record s { backends = set s.backends i reported }) m in
    if b.healthy && not reported.healthy
    then remove_where (idles_at service b.host b.port) (connection_ids updated) updated
    else updated

module _ (settings : Settings) (host : List ℕ) (port : ℕ) (success : Bool) (now : ℕ) where
  -- The loop over all backends of a service, as many as are left from an index on.
  unfoldable pub report_from : ℕ → ℕ → List ℕ → ConnectionManager → ConnectionManager
  report_from zero i service m = m
  report_from (suc left) i service m =
      let b = backend_at (service_of service m).backends i in
      report_from left (i + 1) service
        (if is_at host port b then report_at settings success now service i m else m)

  unfoldable pub report_each : List (List ℕ × ServiceState) → ConnectionManager → ConnectionManager
  unfolding report_from
  report_each [] m = m
  report_each ((service, s) ∷ l) m = report_each l (report_from (length s.backends) 0 service m)

  unfoldable pub report_backend_status : ConnectionManager → ConnectionManager
  unfolding report_each
  report_backend_status m = if is_empty host || port == 0 then m else report_each m.services m

  -- The loop that ends at the first backend that matches.
  unfoldable pub report_first : ℕ → ℕ → List ℕ → ConnectionManager → ConnectionManager
  report_first zero i service m = m
  report_first (suc left) i service m =
      let rest = report_first left (i + 1) service m in
      let b = backend_at (service_of service m).backends i in
      if is_at host port b then report_at settings success now service i m else rest

  unfoldable pub report_service_backend : List ℕ → ConnectionManager → ConnectionManager
  unfolding report_first
  report_service_backend service m =
      if is_empty service || is_empty host || port == 0
      then m
      else report_first (length (service_of service m).backends) 0 service m

abbrev pub executed : Settings → Bool → ℕ → ServiceState → ServiceState
executed settings success now s = record s {
  circuit_breaker =
      apply_execution_result success (threshold settings) (attempts settings) now s.circuit_breaker;
}

unfoldable pub report_execution : Settings → Bool → ℕ → ConnectionManager → ConnectionManager
report_execution settings success now m =
    if settings.circuit_breaker_enabled
    then record m { services = change_all (executed settings success now) m.services }
    else m

unfoldable pub report_service_execution :
    Settings → List ℕ → Bool → ℕ → ConnectionManager → ConnectionManager
report_service_execution settings service success now m =
    if settings.circuit_breaker_enabled
    then change_service service (executed settings success now) m
    else m
