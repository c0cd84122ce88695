-- ===== src/ConnectionManager/Actions.antt =====
-- The calls of src/ConnectionManager.cpp, each of which holds the manager's mutex, and the rounds
-- of its maintenance thread, in any order.
use fast_net.Prelude.{ℕ, Bool, ℤ, List, [], ◌∷◌}
use fast_net.ConnectionManager.State.{LoadBalancingStrategy, Settings, ConnectionManager}
use fast_net.ConnectionManager.Pool.{maintain}
use fast_net.ConnectionManager.Acquire.{
  acquire_connection, release_connection, close_connection, clean_up,
}
use fast_net.ConnectionManager.Backends.{
  add_backend_server, remove_backend_server, update_backend_weight, set_load_balancing_strategy,
  report_backend_status, report_service_backend, report_execution, report_service_execution,
}

-- A call with its arguments, and the time that it reads where it does.
pub data Action : Type 0 where
  acquires : (ℕ → ℕ) → List ℕ → List ℕ → ℕ → Action
  releases : ℕ → ℕ → Action
  closes : ℕ → Action
  maintains : ℕ → Action
  cleans_up : Action
  adds_backend : List ℕ → List ℕ → ℕ → ℤ → ℕ → Action
  removes_backend : List ℕ → List ℕ → ℕ → Action
  reweighs : List ℕ → List ℕ → ℕ → ℤ → Action
  sets_strategy : List ℕ → LoadBalancingStrategy → Action
  reports_status : List ℕ → ℕ → Bool → ℕ → Action
  reports_service_status : List ℕ → List ℕ → ℕ → Bool → ℕ → Action
  reports_execution : Bool → ℕ → Action
  reports_service_execution : List ℕ → Bool → ℕ → Action

module _ (settings : Settings) (hash : List ℕ → ℕ) where
  unfoldable pub step : Action → ConnectionManager → ConnectionManager
  step (acquires draw service affinity_key now) m =
      (acquire_connection settings hash draw service affinity_key now m).1
  step (releases id now) m = release_connection id now m
  step (closes id) m = close_connection id m
  step (maintains now) m = maintain settings now m
  step cleans_up m = clean_up m
  step (adds_backend service host port weight now) m =
      add_backend_server settings service host port weight now m
  step (removes_backend service host port) m = remove_backend_server service host port m
  step (reweighs service host port weight) m = update_backend_weight service host port weight m
  step (sets_strategy service strategy) m = set_load_balancing_strategy settings service strategy m
  step (reports_status host port success now) m =
      report_backend_status settings host port success now m
  step (reports_service_status service host port success now) m =
      report_service_backend settings host port success now service m
  step (reports_execution success now) m = report_execution settings success now m
  step (reports_service_execution service success now) m =
      report_service_execution settings service success now m

  unfoldable pub run : List Action → ConnectionManager → ConnectionManager
  run [] m = m
  run (a ∷ actions) m = run actions (step a m)
