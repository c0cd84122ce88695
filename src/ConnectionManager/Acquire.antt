-- ===== src/ConnectionManager/Acquire.antt =====
-- `acquireConnection`, `releaseConnection`, `closeConnection` and `cleanup` of
-- src/ConnectionManager.cpp.
use fast_net.Prelude.{ℕ, zero, suc, ◌+◌, Bool, true, false, ◌&&◌}
use fast_net.Prelude.{
  Option, none, some, List, [], ◌∷◌, ◌++◌, length, ltb, leb, if◌then◌else◌, is_empty,
}
use fast_net.ConnectionManager.State.{
  BackendServer, ConnectionInfo, ServiceState, Settings, ConnectionManager, increment,
  find_connection, assign_connection, find_service, change_entry, change_service, service_of,
  find_backend, change_backend,
}
use fast_net.ConnectionManager.Breaker.{prepare_circuit_breaker}
use fast_net.ConnectionManager.Select.{select_backend}
use fast_net.ConnectionManager.Pool.{
  decrement, gain, lose, ensure_service_state, create_connection, remove_connection,
}

-- An idle connection that was marked active, once its backend has been looked for.
unfoldable pub reuse :
    Option BackendServer
    → ℕ
    → ConnectionInfo
    → List ℕ
    → ConnectionManager
    → Option ℕ × ConnectionManager
reuse none id info service m = (none, remove_connection id info m)
reuse (some b) id info service m =
    if b.healthy
    then (
      some id,
      change_service service
          (λ s. record s {
            backends = change_backend info.remote_host info.remote_port gain s.backends;
          })
          m,
    )
    else (none, remove_connection id info m)

-- Here and below `none` is the `continue` of the loop.
unfoldable pub try_candidate :
    Option ConnectionInfo
    → Settings
    → ℕ
    → List ℕ
    → ℕ
    → ConnectionManager
    → Option ℕ × ConnectionManager
unfolding reuse
try_candidate none settings id service now m = (none, m)
try_candidate (some info) settings id service now m =
    let reused : ConnectionInfo = record info { is_active = true; last_used = now } in
    if info.is_active
    then (none, m)
    else if ltb 0 settings.idle_timeout && ltb (info.last_used + settings.idle_timeout) now
    then (none, remove_connection id info m)
    else reuse (find_backend info.remote_host info.remote_port (service_of service m).backends) id
        reused service (record m { connections = assign_connection id reused m.connections })

-- A round of the loop over the idle connections.
unfoldable pub try_front :
    List ℕ → Settings → List ℕ → ℕ → ConnectionManager → Option ℕ × ConnectionManager
unfolding try_candidate
try_front [] settings service now m = (none, m)
try_front (id ∷ idle) settings service now m =
    let popped = change_service service (λ s. record s { idle_connections = idle }) m in
    try_candidate (find_connection id popped.connections) settings id service now popped

unfoldable pub continue_with :
    (ConnectionManager → Option ℕ × ConnectionManager)
    → Option ℕ × ConnectionManager
    → Option ℕ × ConnectionManager
continue_with rest (none, m) = rest m
continue_with rest (some id, m) = (some id, m)

unfoldable pub take_idle :
    ℕ → Settings → List ℕ → ℕ → ConnectionManager → Option ℕ × ConnectionManager
unfolding continue_with try_front
take_idle zero settings service now m = (none, m)
take_idle (suc fuel) settings service now m =
    continue_with (take_idle fuel settings service now)
      (try_front (service_of service m).idle_connections settings service now m)

abbrev pub waits : ServiceState → ServiceState
waits s = record s { pending_requests = increment s.pending_requests }

abbrev pub is_served : ServiceState → ServiceState
is_served s = record s { pending_requests = decrement s.pending_requests }

unfoldable pub begin : Settings → List ℕ → ConnectionManager → ConnectionManager
begin settings service m =
    let ready = ensure_service_state settings service m in
    record ready {
      pending_requests = increment ready.pending_requests;
      services = change_entry service waits ready.services;
    }

-- The `finish` of `acquireConnection`.
unfoldable pub finish : List ℕ → ℕ → ConnectionManager → ℕ × ConnectionManager
finish service id m = (
  id,
  record m {
    pending_requests = decrement m.pending_requests;
    services = change_entry service is_served m.services;
  },
)

unfoldable pub create_at :
    Option ℕ × ServiceState → List ℕ → ℕ → ConnectionManager → ℕ × ConnectionManager
unfolding finish
create_at (none, s) service now m = finish service 0 (change_service service (λ _. s) m)
create_at (some i, s) service now m =
    let created = create_connection service i now (change_service service (λ _. s) m) in
    finish service created.0 created.1

module _ (settings : Settings) (hash : List ℕ → ℕ) (draw : ℕ → ℕ) (service affinity_key : List ℕ)
    (now : ℕ) where
  unfoldable pub after_idle : Option ℕ × ConnectionManager → ℕ × ConnectionManager
  unfolding create_at finish
  after_idle (some id, m) = finish service id m
  after_idle (none, m) =
      let s = service_of service m in
      if leb s.max_pool_size s.total_connections
      then finish service 0 m
      else create_at (select_backend hash draw affinity_key s) service now m

  unfoldable pub after_breaker : Bool × ServiceState → ConnectionManager → ℕ × ConnectionManager
  unfolding after_idle finish
  after_breaker (false, s) m = finish service 0 (change_service service (λ _. s) m)
  after_breaker (true, s) m = after_idle (
      take_idle (length s.idle_connections) settings service now
        (change_service service (λ _. s) m))

  unfoldable pub acquire_connection : ConnectionManager → ℕ × ConnectionManager
  unfolding after_breaker begin
  acquire_connection m =
      let begun = begin settings service m in
      if is_empty service
      then (0, m)
      else after_breaker (prepare_circuit_breaker settings now (service_of service begun)) begun

-- A released connection joins the idle ones.
unfoldable pub park : ℕ → ConnectionInfo → ℕ → ConnectionManager → ConnectionManager
park id info now m = record m {
  connections =
      assign_connection id (record info { is_active = false; last_used = now }) m.connections;
  services =
      change_entry info.service
        (λ s. record s {
          idle_connections = s.idle_connections ++ id ∷ [];
          backends = change_backend info.remote_host info.remote_port lose s.backends;
        })
        m.services;
}

unfoldable pub release_backend :
    Option BackendServer → ℕ → ConnectionInfo → ℕ → ConnectionManager → ConnectionManager
unfolding park
release_backend none id info now m = remove_connection id info m
release_backend (some b) id info now m =
    if b.healthy then park id info now m else remove_connection id info m

unfoldable pub release_service :
    Option ServiceState → ℕ → ConnectionInfo → ℕ → ConnectionManager → ConnectionManager
unfolding release_backend
release_service none id info now m = remove_connection id info m
release_service (some s) id info now m =
    release_backend (find_backend info.remote_host info.remote_port s.backends) id info now m

unfoldable pub release_found : Option ConnectionInfo → ℕ → ℕ → ConnectionManager → ConnectionManager
unfolding release_service
release_found none id now m = m
release_found (some info) id now m =
    if info.is_active
    then release_service (find_service info.service m.services) id info now m
    else m

unfoldable pub release_connection : ℕ → ℕ → ConnectionManager → ConnectionManager
unfolding release_found
release_connection id now m = release_found (find_connection id m.connections) id now m

unfoldable pub close_found : Option ConnectionInfo → ℕ → ConnectionManager → ConnectionManager
close_found none id m = m
close_found (some info) id m = remove_connection id info m

unfoldable pub close_connection : ℕ → ConnectionManager → ConnectionManager
unfolding close_found
close_connection id m = close_found (find_connection id m.connections) id m

-- What `cleanup` does to the tables, once the maintenance thread is gone.
unfoldable pub clean_up : ConnectionManager → ConnectionManager
clean_up m = record m { connections = []; services = []; pending_requests = 0 }
