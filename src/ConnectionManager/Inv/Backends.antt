-- ===== src/ConnectionManager/Inv/Backends.antt =====
-- The calls on the backends, the strategies and the reports of src/ConnectionManager.cpp keep the
-- accounting.
use fast_net.Prelude.{ℕ, zero, suc, ◌+◌, refl, Bool, not, ◌&&◌, ◌||◌, ℤ, arith}
use fast_net.Prelude.{Option, none, some, List, [], ◌∷◌, length, set, is_empty, ◌==◌}
use fast_net.ConnectionManager.State.{
  LoadBalancingStrategy, ServiceState, Settings, ConnectionManager, threshold, find_service,
  change_service, service_of, is_at,
}
use fast_net.ConnectionManager.Breaker.{apply_backend_status}
use fast_net.ConnectionManager.Select.{backend_at}
use fast_net.ConnectionManager.Pool.{ensure_service_state, connection_ids}
use fast_net.ConnectionManager.Backends.{
  with_backend, add_backend_server, less_backend, idles_at, lose_backend, when_found,
  remove_backend_server, update_backend_weight, set_load_balancing_strategy, report_at, report_from,
  report_each, report_backend_status, report_first, report_service_backend, executed,
  report_execution, report_service_execution,
}
use fast_net.ConnectionManager.Inv.{IsValid}
use fast_net.ConnectionManager.Inv.Services.{
  change_service-IsValid, change_all-IsValid, change_service-IsValid,
}
use fast_net.ConnectionManager.Inv.Pool.{remove_where-IsValid, ensure_service_state-IsValid}
use fast_net.ConnectionManager.Inv.Release.{IsValid-if}

module _ (n : ℕ) (m : ConnectionManager) (v : IsValid n m) where
  pub add_backend_server-IsValid :
      (settings : Settings) (service host : List ℕ) (port : ℕ) (weight : ℤ) (now : ℕ)
      → IsValid n (add_backend_server settings service host port weight now m)
  unfolding add_backend_server
  add_backend_server-IsValid settings service host port weight now =
      IsValid-if n (is_empty service || is_empty host || port == 0) m _ v (
        change_service-IsValid n (ensure_service_state settings service m) service
          (with_backend host port weight now) (refl, omega arith, λ P h. h)
          (ensure_service_state-IsValid n settings service m v))

  lose_backend-IsValid :
      (service host : List ℕ) (port : ℕ) → IsValid n (lose_backend service host port m)
  lose_backend-IsValid service host port =
      remove_where-IsValid n (idles_at service host port) (connection_ids m)
        (change_service service (less_backend host port) m)
        (change_service-IsValid n m service (less_backend host port) (refl, omega arith, λ P h. h)
          v)

  when_found-IsValid :
      (o : Option ServiceState) (f : ConnectionManager → ConnectionManager)
      → IsValid n (f m)
      → IsValid n (when_found o f m)
  when_found-IsValid none f w = v
  when_found-IsValid (some s) f w = w

  pub remove_backend_server-IsValid :
      (service host : List ℕ) (port : ℕ) → IsValid n (remove_backend_server service host port m)
  unfolding remove_backend_server
  remove_backend_server-IsValid service host port =
      when_found-IsValid (find_service service m.services) (lose_backend service host port)
        (lose_backend-IsValid service host port)

  pub update_backend_weight-IsValid :
      (service host : List ℕ) (port : ℕ) (weight : ℤ)
      → IsValid n (update_backend_weight service host port weight m)
  unfolding update_backend_weight
  update_backend_weight-IsValid service host port weight =
      change_service-IsValid n m service _ (refl, omega arith, λ P h. h) v

  pub set_load_balancing_strategy-IsValid :
      (settings : Settings) (service : List ℕ) (strategy : LoadBalancingStrategy)
      → IsValid n (set_load_balancing_strategy settings service strategy m)
  unfolding set_load_balancing_strategy
  set_load_balancing_strategy-IsValid settings service strategy =
      change_service-IsValid n (ensure_service_state settings service m) service _
        (refl, omega arith, λ P h. h) (ensure_service_state-IsValid n settings service m v)

  pub report_at-IsValid :
      (settings : Settings) (success : Bool) (now : ℕ) (service : List ℕ) (i : ℕ)
      → IsValid n (report_at settings success now service i m)
  unfolding report_at
  report_at-IsValid settings success now service i =
      let b = backend_at (service_of service m).backends i in
      let reported = apply_backend_status success (threshold settings) now b in
      let update = λ (s : ServiceState). record s { backends = set s.backends i reported } in
      let updated = change_service service update m in
      let w = change_service-IsValid n m service update (refl, omega arith, λ P h. h) v in
      IsValid-if n (b.healthy && not reported.healthy) _ updated
        (remove_where-IsValid n (idles_at service b.host b.port) (connection_ids updated) updated w)
        w

  pub report_execution-IsValid :
      (settings : Settings) (success : Bool) (now : ℕ)
      → IsValid n (report_execution settings success now m)
  unfolding report_execution
  report_execution-IsValid settings success now =
      IsValid-if n settings.circuit_breaker_enabled _ m
        (change_all-IsValid n m (executed settings success now) (λ s. (refl, omega arith, λ P h. h))
          v)
        v

  pub report_service_execution-IsValid :
      (settings : Settings) (service : List ℕ) (success : Bool) (now : ℕ)
      → IsValid n (report_service_execution settings service success now m)
  unfolding report_service_execution
  report_service_execution-IsValid settings service success now =
      IsValid-if n settings.circuit_breaker_enabled _ m
        (change_service-IsValid n m service (executed settings success now)
          (refl, omega arith, λ P h. h) v)
        v

module _ (n : ℕ) (settings : Settings) (host : List ℕ) (port : ℕ) (success : Bool) (now : ℕ) where
  report_from-IsValid :
      (left i : ℕ) (service : List ℕ) (m : ConnectionManager)
      → IsValid n m
      → IsValid n (report_from settings host port success now left i service m)
  unfolding report_from
  report_from-IsValid zero i service m v = v
  report_from-IsValid (suc left) i service m v = report_from-IsValid left (i + 1) service _ (
      IsValid-if n (is_at host port (backend_at (service_of service m).backends i))
        (report_at settings success now service i m) m
        (report_at-IsValid n m v settings success now service i) v)

  report_each-IsValid :
      (l : List (List ℕ × ServiceState)) (m : ConnectionManager)
      → IsValid n m
      → IsValid n (report_each settings host port success now l m)
  unfolding report_each
  report_each-IsValid [] m v = v
  report_each-IsValid ((service, s) ∷ l) m v =
      report_each-IsValid l
        (report_from settings host port success now (length s.backends) 0 service m)
        (report_from-IsValid (length s.backends) 0 service m v)

  pub report_backend_status-IsValid :
      (m : ConnectionManager)
      → IsValid n m
      → IsValid n (report_backend_status settings host port success now m)
  unfolding report_backend_status
  report_backend_status-IsValid m v =
      IsValid-if n (is_empty host || port == 0) m _ v (report_each-IsValid m.services m v)

  report_first-IsValid :
      (left i : ℕ) (service : List ℕ) (m : ConnectionManager)
      → IsValid n m
      → IsValid n (report_first settings host port success now left i service m)
  unfolding report_first
  report_first-IsValid zero i service m v = v
  report_first-IsValid (suc left) i service m v =
      IsValid-if n (is_at host port (backend_at (service_of service m).backends i))
        (report_at settings success now service i m) _
        (report_at-IsValid n m v settings success now service i)
        (report_first-IsValid left (i + 1) service m v)

  pub report_service_backend-IsValid :
      (service : List ℕ) (m : ConnectionManager)
      → IsValid n m
      → IsValid n (report_service_backend settings host port success now service m)
  unfolding report_service_backend
  report_service_backend-IsValid service m v =
      IsValid-if n (is_empty service || is_empty host || port == 0) m _ v
        (report_first-IsValid (length (service_of service m).backends) 0 service m v)
