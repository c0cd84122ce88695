-- ===== src/ConnectionManager/Runs.antt =====
-- What holds along every run of the connection manager of src/ConnectionManager.cpp.
use fast_net.Prelude.{ℕ, ◌+◌, ◌^◌, ◌≤◌, ◌<◌, ◌≡◌, arith}
use fast_net.Prelude.{Option, none, some, List, [], ◌∷◌, length}
use fast_net.ConnectionManager.State.{
  ConnectionInfo, ServiceState, Settings, ConnectionManager, new_manager, find_service, service_of,
  or_new,
}
use fast_net.ConnectionManager.Actions.{
  Action, Action.acquires, Action.releases, Action.closes, Action.maintains, Action.cleans_up,
  Action.adds_backend, Action.removes_backend, Action.reweighs, Action.sets_strategy,
  Action.reports_status, Action.reports_service_status, Action.reports_execution,
  Action.reports_service_execution, step, run,
}
use fast_net.ConnectionManager.Stats.{
  ServicePoolStats, count_own, count_service_entries, service_stats, get_service_stats, no_stats,
  count_healthy,
}
use fast_net.ConnectionManager.Tables.{count_of}
use fast_net.ConnectionManager.Inv.{IsValid, IsValid-le, new_manager-IsValid}
use fast_net.ConnectionManager.Inv.Pool.{maintain-IsValid}
use fast_net.ConnectionManager.Inv.Acquire.{acquire_connection-Valid}
use fast_net.ConnectionManager.Inv.Release.{
  release_connection-IsValid, close_connection-IsValid, clean_up-IsValid,
}
use fast_net.ConnectionManager.Inv.Backends.{
  add_backend_server-IsValid, remove_backend_server-IsValid, update_backend_weight-IsValid,
  set_load_balancing_strategy-IsValid, report_backend_status-IsValid,
  report_service_backend-IsValid, report_execution-IsValid, report_service_execution-IsValid,
}

module _ (settings : Settings) (hash : List ℕ → ℕ) where
  pub step-IsValid :
      (a : Action) (n : ℕ) (m : ConnectionManager)
      → n + 1 < 2 ^ 64
      → IsValid n m
      → IsValid (n + 1) (step settings hash a m)
  unfolding step
  step-IsValid (acquires draw service affinity_key now) n m h v =
      acquire_connection-Valid n settings hash draw service affinity_key now m h v
  step-IsValid (releases id now) n m h v =
      IsValid-le n (n + 1) _ (omega arith) (release_connection-IsValid n id now m v)
  step-IsValid (closes id) n m h v =
      IsValid-le n (n + 1) _ (omega arith) (close_connection-IsValid n id m v)
  step-IsValid (maintains now) n m h v =
      IsValid-le n (n + 1) _ (omega arith) (maintain-IsValid n settings now m v)
  step-IsValid cleans_up n m h v = IsValid-le n (n + 1) _ (omega arith) (clean_up-IsValid n m v)
  step-IsValid (adds_backend service host port weight now) n m h v =
      IsValid-le n (n + 1) _ (omega arith)
        (add_backend_server-IsValid n m v settings service host port weight now)
  step-IsValid (removes_backend service host port) n m h v =
      IsValid-le n (n + 1) _ (omega arith) (remove_backend_server-IsValid n m v service host port)
  step-IsValid (reweighs service host port weight) n m h v =
      IsValid-le n (n + 1) _ (omega arith)
        (update_backend_weight-IsValid n m v service host port weight)
  step-IsValid (sets_strategy service strategy) n m h v =
      IsValid-le n (n + 1) _ (omega arith)
        (set_load_balancing_strategy-IsValid n m v settings service strategy)
  step-IsValid (reports_status host port success now) n m h v =
      IsValid-le n (n + 1) _ (omega arith)
        (report_backend_status-IsValid n settings host port success now m v)
  step-IsValid (reports_service_status service host port success now) n m h v =
      IsValid-le n (n + 1) _ (omega arith)
        (report_service_backend-IsValid n settings host port success now service m v)
  step-IsValid (reports_execution success now) n m h v =
      IsValid-le n (n + 1) _ (omega arith) (report_execution-IsValid n m v settings success now)
  step-IsValid (reports_service_execution service success now) n m h v =
      IsValid-le n (n + 1) _ (omega arith)
        (report_service_execution-IsValid n m v settings service success now)

  pub run-IsValid :
      (actions : List Action) (n : ℕ) (m : ConnectionManager)
      → n + length actions < 2 ^ 64
      → IsValid n m
      → IsValid (n + length actions) (run settings hash actions m)
  unfolding run
  run-IsValid [] n m h v = IsValid-le n (n + 0) m (omega arith) v
  run-IsValid (a ∷ actions) n m h v =
      IsValid-le (n + 1 + length actions) (n + length (a ∷ actions)) _ (omega arith) (
        run-IsValid actions (n + 1) (step settings hash a m) (omega arith)
          (step-IsValid a n m (omega arith) v))

-- The loop of `getServiceStats` counts what the table has.
count_service_entries-count :
    (service : List ℕ) (l : List (ℕ × ConnectionInfo)) (t : ServicePoolStats)
    → ((count_service_entries service l t).total_connections
        ≡ t.total_connections + count_of service l)
      × ((count_service_entries service l t).active_connections
            + (count_service_entries service l t).idle_connections
          ≡ t.active_connections + t.idle_connections + count_of service l)
      × ((count_service_entries service l t).max_connections ≡ t.max_connections)
unfolding count_service_entries count_of
count_service_entries-count service [] t = omega arith
count_service_entries-count service ((id, info) ∷ l) t =
    ground (arith, count_service_entries-count service l (count_own service info t))

-- What the statistics say of a service agrees with its own count and limit.
abbrev pub Agrees : List ℕ → ConnectionManager → Type 0
Agrees service m =
    let stats = get_service_stats service m in
    (stats.total_connections ≡ (service_of service m).total_connections)
    × (stats.total_connections ≡ count_of service m.connections)
    × (stats.active_connections + stats.idle_connections ≡ stats.total_connections)
    × (stats.total_connections ≤ stats.max_connections)

service_stats-counts :
    (o : Option ServiceState) (service : List ℕ) (l : List (ℕ × ConnectionInfo))
    → (or_new o).total_connections ≡ count_of service l
    → (or_new o).total_connections ≤ (or_new o).max_pool_size
    → ((service_stats o service l).total_connections ≡ (or_new o).total_connections)
      × ((service_stats o service l).total_connections ≡ count_of service l)
      × ((service_stats o service l).active_connections
            + (service_stats o service l).idle_connections
          ≡ (service_stats o service l).total_connections)
      × ((service_stats o service l).total_connections
          ≤ (service_stats o service l).max_connections)
unfolding service_stats
service_stats-counts none service l e h = omega arith
service_stats-counts (some s) service l e h =
    let t : ServicePoolStats = record (no_stats service) {
      strategy = s.strategy;
      circuit_breaker = s.circuit_breaker;
      max_connections = s.max_pool_size;
      pending_requests = s.pending_requests;
      backend_count = length s.backends;
      healthy_backends = count_healthy s.backends;
    } in
    omega (arith, count_service_entries-count service l t)

get_service_stats-Agrees :
    (n : ℕ) (service : List ℕ) (m : ConnectionManager) → IsValid n m → Agrees service m
unfolding get_service_stats service_of
get_service_stats-Agrees n service m v =
    service_stats-counts (find_service service m.services) service m.connections (v.counted service)
      (v.bounded service)

-- After any calls and rounds of maintenance on a new manager, as long as no identifier can have
-- wrapped, the statistics of every service count as many connections as the service itself and
-- as the table has of it, the active and the idle ones make up that number, and it is not above
-- the limit that they show.
pub run-Agrees :
    (settings : Settings) (hash : List ℕ → ℕ) (actions : List Action) (service : List ℕ)
    → length actions + 1 < 2 ^ 64
    → Agrees service (run settings hash actions new_manager)
run-Agrees settings hash actions service h =
    get_service_stats-Agrees (1 + length actions) service (run settings hash actions new_manager)
      (run-IsValid settings hash actions 1 new_manager (omega arith) new_manager-IsValid)
