-- ===== src/ConnectionManager/Listing/Runs.antt =====
-- What getServices of src/ConnectionManager.cpp gives after any calls.
use fast_net.Prelude.{ℕ, ◌≡◌, refl, ap, ◌∙◌, Bool, true, false, ◌||◌, ℤ}
use fast_net.Prelude.{List, [], ◌∷◌, ◌==◌, if◌then◌else◌, is_empty, Bool-cases, inl, inr}
use fast_net.ConnectionManager.State.{
  LoadBalancingStrategy, Settings, ConnectionManager, new_manager, service_of,
}
use fast_net.ConnectionManager.Pool.{ensured, ensure_service_state}
use fast_net.ConnectionManager.Acquire.{acquire_connection, begin}
use fast_net.ConnectionManager.Breaker.{prepare_circuit_breaker}
use fast_net.ConnectionManager.Backends.{add_backend_server, set_load_balancing_strategy}
use fast_net.ConnectionManager.Stats.{sort_names, get_services}
use fast_net.ConnectionManager.Actions.{
  Action, Action.acquires, Action.releases, Action.closes, Action.maintains, Action.cleans_up,
  Action.adds_backend, Action.removes_backend, Action.reweighs, Action.sets_strategy,
  Action.reports_status, Action.reports_service_status, Action.reports_execution,
  Action.reports_service_execution, step, run,
}
use fast_net.ConnectionManager.Names.{names-change_entry, maintain-SameNames}
use fast_net.ConnectionManager.Names.Acquire.{
  after_breaker-SameNames, release_connection-SameNames, close_connection-SameNames,
}
use fast_net.ConnectionManager.Names.Backends.{
  remove_backend_server-SameNames, update_backend_weight-SameNames, report_backend_status-SameNames,
  report_service_backend-SameNames, report_execution-SameNames, report_service_execution-SameNames,
}
use fast_net.ConnectionManager.Listing.{
  add_name, listed_after, listed_run, IsIncreasing, get_services-set_service,
  get_services-SameNames, add_name-IsIncreasing,
}
use fast_net.ConnectionManager.Acquire.{clean_up}

ensure_service_state-adds :
    (settings : Settings) (service : List ℕ) (m : ConnectionManager)
    → get_services (ensure_service_state settings service m) ≡ add_name service (get_services m)
unfolding ensure_service_state
ensure_service_state-adds settings service m =
    get_services-set_service service (ensured settings (service_of service m)) m

module _ (settings : Settings) (hash : List ℕ → ℕ) where
  acquire_connection-adds :
      (draw : ℕ → ℕ) (service affinity_key : List ℕ) (now : ℕ) (m : ConnectionManager)
      → get_services (acquire_connection settings hash draw service affinity_key now m).1
        ≡ (if is_empty service then get_services m else add_name service (get_services m))
  unfolding acquire_connection begin
  acquire_connection-adds draw service affinity_key now m =
      let begun = begin settings service m in
      let ready = ensure_service_state settings service m in
      let admitted = prepare_circuit_breaker settings now (service_of service begun) in
      elim (Bool-cases (is_empty service)) [
        | inl e ↦ rw (acquire_connection, e) refl
        | inr e ↦
            rw (acquire_connection, e)
              (get_services-SameNames _ begun (
                  after_breaker-SameNames settings hash draw service affinity_key now admitted
                    begun)
                ∙ get_services-SameNames begun ready (names-change_entry service _ ready.services)
                ∙ ensure_service_state-adds settings service m)
      ]

  add_backend_server-adds :
      (service host : List ℕ) (port : ℕ) (weight : ℤ) (now : ℕ) (m : ConnectionManager)
      → get_services (add_backend_server settings service host port weight now m) ≡ (
          if is_empty service || is_empty host || port == 0
          then get_services m
          else add_name service (get_services m))
  unfolding add_backend_server
  add_backend_server-adds service host port weight now m =
      let ready = ensure_service_state settings service m in
      elim (Bool-cases (is_empty service || is_empty host || port == 0)) [
        | inl e ↦ rw (add_backend_server, e) refl
        | inr e ↦
            rw (add_backend_server, e)
              (get_services-SameNames _ ready (names-change_entry service _ ready.services)
                ∙ ensure_service_state-adds settings service m)
      ]

  set_load_balancing_strategy-adds :
      (service : List ℕ) (strategy : LoadBalancingStrategy) (m : ConnectionManager)
      → get_services (set_load_balancing_strategy settings service strategy m)
        ≡ add_name service (get_services m)
  unfolding set_load_balancing_strategy
  set_load_balancing_strategy-adds service strategy m =
      let ready = ensure_service_state settings service m in
      get_services-SameNames _ ready (names-change_entry service _ ready.services)
      ∙ ensure_service_state-adds settings service m

  get_services-step :
      (a : Action) (m : ConnectionManager)
      → get_services (step settings hash a m) ≡ listed_after a (get_services m)
  unfolding step listed_after
  get_services-step (acquires draw service affinity_key now) m =
      acquire_connection-adds draw service affinity_key now m
  get_services-step (releases id now) m =
      get_services-SameNames _ m (release_connection-SameNames id now m)
  get_services-step (closes id) m = get_services-SameNames _ m (close_connection-SameNames id m)
  get_services-step (maintains now) m =
      get_services-SameNames _ m (maintain-SameNames settings now m)
  get_services-step cleans_up m = unfold clean_up get_services sort_names in refl
  get_services-step (adds_backend service host port weight now) m =
      add_backend_server-adds service host port weight now m
  get_services-step (removes_backend service host port) m =
      get_services-SameNames _ m (remove_backend_server-SameNames service host port m)
  get_services-step (reweighs service host port weight) m =
      get_services-SameNames _ m (update_backend_weight-SameNames service host port weight m)
  get_services-step (sets_strategy service strategy) m =
      set_load_balancing_strategy-adds service strategy m
  get_services-step (reports_status host port success now) m =
      get_services-SameNames _ m (report_backend_status-SameNames settings host port success now m)
  get_services-step (reports_service_status service host port success now) m =
      get_services-SameNames _ m
        (report_service_backend-SameNames settings host port success now service m)
  get_services-step (reports_execution success now) m =
      get_services-SameNames _ m (report_execution-SameNames settings success now m)
  get_services-step (reports_service_execution service success now) m =
      get_services-SameNames _ m (report_service_execution-SameNames settings service success now m)

  get_services-run :
      (actions : List Action) (m : ConnectionManager)
      → get_services (run settings hash actions m) ≡ listed_run actions (get_services m)
  unfolding run listed_run
  get_services-run [] m = refl
  get_services-run (a ∷ actions) m =
      get_services-run actions (step settings hash a m)
      ∙ ap (listed_run actions) (get_services-step a m)

guarded :
    (t : Bool) (name : List ℕ) (l : List (List ℕ))
    → IsIncreasing l
    → IsIncreasing (if t then l else add_name name l)
guarded true name l s = s
guarded false name l s = add_name-IsIncreasing name l s

listed_after-IsIncreasing :
    (a : Action) (l : List (List ℕ)) → IsIncreasing l → IsIncreasing (listed_after a l)
unfolding listed_after
listed_after-IsIncreasing (acquires draw service affinity_key now) l s =
    guarded (is_empty service) service l s
listed_after-IsIncreasing (releases id now) l s = s
listed_after-IsIncreasing (closes id) l s = s
listed_after-IsIncreasing (maintains now) l s = s
listed_after-IsIncreasing cleans_up l s = unfold IsIncreasing in tt
listed_after-IsIncreasing (adds_backend service host port weight now) l s =
    guarded (is_empty service || is_empty host || port == 0) service l s
listed_after-IsIncreasing (removes_backend service host port) l s = s
listed_after-IsIncreasing (reweighs service host port weight) l s = s
listed_after-IsIncreasing (sets_strategy service strategy) l s = add_name-IsIncreasing service l s
listed_after-IsIncreasing (reports_status host port success now) l s = s
listed_after-IsIncreasing (reports_service_status service host port success now) l s = s
listed_after-IsIncreasing (reports_execution success now) l s = s
listed_after-IsIncreasing (reports_service_execution service success now) l s = s

listed_run-IsIncreasing :
    (actions : List Action) (l : List (List ℕ))
    → IsIncreasing l
    → IsIncreasing (listed_run actions l)
unfolding listed_run
listed_run-IsIncreasing [] l s = s
listed_run-IsIncreasing (a ∷ actions) l s =
    listed_run-IsIncreasing actions (listed_after a l) (listed_after-IsIncreasing a l s)

-- After any calls and rounds of maintenance on a new manager, getServices gives the names of the
-- services that acquireConnection, addBackendServer with a service, a host and a port, or
-- setLoadBalancingStrategy has named since the last cleanup, acquireConnection only if the name is
-- not empty, each once and in the order of their bytes.
pub get_services-listed_run :
    (settings : Settings) (hash : List ℕ → ℕ) (actions : List Action)
    → (get_services (run settings hash actions new_manager) ≡ listed_run actions [])
      × IsIncreasing (listed_run actions [])
get_services-listed_run settings hash actions = (
  get_services-run settings hash actions new_manager
      ∙ ap (listed_run actions) (unfold get_services sort_names in refl),
  listed_run-IsIncreasing actions [] (unfold IsIncreasing in tt),
)
