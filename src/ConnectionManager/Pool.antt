-- ===== src/ConnectionManager/Pool.antt =====
-- Making, releasing and removing connections, and the maintenance of src/ConnectionManager.cpp.
use fast_net.Prelude.{ℕ, ◌+◌, ◌-◌, Bool, true, false, not, ◌&&◌, ◌||◌, pos}
use fast_net.Prelude.{Option, none, some, List, [], ◌∷◌, map, set}
use fast_net.Prelude.{ltb, leb, ◌==◌, if◌then◌else◌}
use fast_net.ConnectionManager.State.{
  BackendServer, ConnectionInfo, ServiceState, Settings, ConnectionManager, increment, pool_size,
  find_connection, assign_connection, erase_connection, change_entry, change_all, service_of,
  set_service, change_backend,
}
use fast_net.ConnectionManager.Breaker.{parse_strategy, is_tripped, half_opened}
use fast_net.ConnectionManager.Select.{backend_at}

-- `if (n > 0) --n`
unfoldable pub decrement : ℕ → ℕ
decrement n = if ltb 0 n then n - 1 else n

abbrev pub gain : BackendServer → BackendServer
gain b = record b { active_connections = increment b.active_connections }

abbrev pub lose : BackendServer → BackendServer
lose b = record b { active_connections = decrement b.active_connections }

unfoldable pub without : ℕ → List ℕ → List ℕ
without id [] = []
without id (x ∷ l) = let rest = without id l in if x == id then rest else x ∷ rest

unfoldable pub ensured : Settings → ServiceState → ServiceState
ensured settings s =
    if s.max_pool_size == 0
    then record s {
      max_pool_size = pool_size settings;
      strategy = parse_strategy settings.strategy_name;
    }
    else s

unfoldable pub ensure_service_state : Settings → List ℕ → ConnectionManager → ConnectionManager
ensure_service_state settings service m =
    set_service service (ensured settings (service_of service m)) m

abbrev pub new_info : ℕ → List ℕ → BackendServer → ℕ → ConnectionInfo
new_info id service b now = record {
  id = id;
  service = service;
  remote_host = b.host;
  remote_port = b.port;
  created_at = now;
  last_used = now;
  is_active = true;
}

abbrev pub gain_at : ℕ → ServiceState → ServiceState
gain_at i s = record s {
  backends = set s.backends i (gain (backend_at s.backends i));
  total_connections = increment s.total_connections;
}

-- `createConnectionLocked` for the backend that the index points to.
unfoldable pub create_connection : List ℕ → ℕ → ℕ → ConnectionManager → ℕ × ConnectionManager
create_connection service i now m =
    let id = m.next_connection_id in
    let b = backend_at (service_of service m).backends i in
    (
      id,
      record m {
        next_connection_id = increment id;
        connections = assign_connection id (new_info id service b now) m.connections;
        services = change_entry service (gain_at i) m.services;
      },
    )

-- What `removeConnectionLocked` does to the service.
unfoldable pub drop_connection : ℕ → ConnectionInfo → ServiceState → ServiceState
drop_connection id info s = record s {
  idle_connections = without id s.idle_connections;
  backends =
      change_backend info.remote_host info.remote_port (λ b. if info.is_active then lose b else b)
        s.backends;
  total_connections = decrement s.total_connections;
}

unfoldable pub remove_connection : ℕ → ConnectionInfo → ConnectionManager → ConnectionManager
remove_connection id info m = record m {
  services = change_entry info.service (drop_connection id info) m.services;
  connections = erase_connection id m.connections;
}

-- One round of a loop over the connections that removes those that meet a test.
abbrev pub remove_if :
    (ConnectionInfo → Bool) → ℕ → Option ConnectionInfo → ConnectionManager → ConnectionManager
remove_if test id none m = m
remove_if test id (some info) m = if test info then remove_connection id info m else m

unfoldable pub remove_where :
    (ConnectionInfo → Bool) → List ℕ → ConnectionManager → ConnectionManager
remove_where test [] m = m
remove_where test (id ∷ ids) m =
    remove_where test ids (remove_if test id (find_connection id m.connections) m)

abbrev pub connection_ids : ConnectionManager → List ℕ
connection_ids m = map (λ (e : ℕ × ConnectionInfo). e.0) m.connections

abbrev pub is_idle : Option ConnectionInfo → Bool
is_idle none = false
is_idle (some info) = not info.is_active

unfoldable pub idle_of : List (ℕ × ConnectionInfo) → List ℕ → List ℕ
idle_of connections [] = []
idle_of connections (id ∷ l) =
    let rest = idle_of connections l in
    if is_idle (find_connection id connections) then id ∷ rest else rest

unfoldable pub prune_idle_connections : List (ℕ × ConnectionInfo) → ServiceState → ServiceState
prune_idle_connections connections s = record s {
  idle_connections = idle_of connections s.idle_connections;
}

abbrev pub is_expired : Settings → ℕ → ConnectionInfo → Bool
is_expired settings now info = not (
    info.is_active
    || settings.idle_timeout == 0
    || leb now (info.last_used + settings.idle_timeout))

unfoldable pub cleanup_expired_connections : Settings → ℕ → ConnectionManager → ConnectionManager
cleanup_expired_connections settings now m =
    let removed = remove_where (is_expired settings now) (connection_ids m) m in
    record removed {
      services = change_all (prune_idle_connections removed.connections) removed.services;
    }

unfoldable pub recover_backend : Settings → ℕ → BackendServer → BackendServer
recover_backend settings now b =
    if not b.healthy
      && (settings.recovery_timeout == 0
          || leb (b.last_failure_time + settings.recovery_timeout) now)
    then record b { healthy = true; failure_count = 0; current_weight = pos 0 }
    else b

unfoldable pub check_service :
    Settings → ℕ → List (ℕ × ConnectionInfo) → ServiceState → ServiceState
check_service settings now connections s =
    let breaker = s.circuit_breaker in
    prune_idle_connections connections (record s {
      circuit_breaker =
          if is_tripped breaker.state
            && (settings.recovery_timeout == 0
                || leb (breaker.last_failure_time + settings.recovery_timeout) now)
          then half_opened breaker
          else breaker;
      backends = map (recover_backend settings now) s.backends;
    })

unfoldable pub perform_health_check : Settings → ℕ → ConnectionManager → ConnectionManager
perform_health_check settings now m = record m {
  services = change_all (check_service settings now m.connections) m.services;
}

-- A round of `maintenanceLoop`.
unfoldable pub maintain : Settings → ℕ → ConnectionManager → ConnectionManager
maintain settings now m =
    perform_health_check settings now (cleanup_expired_connections settings now m)
