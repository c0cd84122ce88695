-- ===== src/ConnectionManager/Names/Backends.antt =====
-- The calls on the backends of src/ConnectionManager.cpp leave the names of the services alone.
use fast_net.Prelude.{ℕ, zero, suc, ◌+◌, refl, ◌∙◌, Bool, ◌||◌, ℤ}
use fast_net.Prelude.{Option, none, some, List, [], ◌∷◌, length, ◌==◌, is_empty}
use fast_net.ConnectionManager.State.{
  ServiceState, Settings, ConnectionManager, find_service, change_service, service_of, is_at,
}
use fast_net.ConnectionManager.Pool.{connection_ids}
use fast_net.ConnectionManager.Select.{backend_at}
use fast_net.ConnectionManager.Backends.{
  remove_backend_server, when_found, lose_backend, less_backend, idles_at, update_backend_weight,
  report_at, report_from, report_each, report_backend_status, report_first, report_service_backend,
  report_execution, report_service_execution,
}
use fast_net.ConnectionManager.Names.{
  names-change_entry, names-change_all, SameNames, if-SameNames, remove_where-SameNames,
}

when_found-SameNames :
    (o : Option ServiceState) (f : ConnectionManager → ConnectionManager) (m : ConnectionManager)
    → SameNames (f m) m
    → SameNames (when_found o f m) m
when_found-SameNames none f m h = refl
when_found-SameNames (some s) f m h = h

pub remove_backend_server-SameNames :
    (service host : List ℕ) (port : ℕ) (m : ConnectionManager)
    → SameNames (remove_backend_server service host port m) m
unfolding remove_backend_server
remove_backend_server-SameNames service host port m =
    when_found-SameNames (find_service service m.services) (lose_backend service host port) m (
      remove_where-SameNames (idles_at service host port) (connection_ids m)
        (change_service service (less_backend host port) m)
      ∙ names-change_entry service _ m.services)

pub update_backend_weight-SameNames :
    (service host : List ℕ) (port : ℕ) (weight : ℤ) (m : ConnectionManager)
    → SameNames (update_backend_weight service host port weight m) m
unfolding update_backend_weight
update_backend_weight-SameNames service host port weight m = names-change_entry service _ m.services

report_at-SameNames :
    (settings : Settings) (success : Bool) (now : ℕ) (service : List ℕ) (i : ℕ)
    (m : ConnectionManager)
    → SameNames (report_at settings success now service i m) m
unfolding report_at
report_at-SameNames settings success now service i m =
    if-SameNames _ _ _ m (remove_where-SameNames _ _ _ ∙ names-change_entry service _ m.services)
      (names-change_entry service _ m.services)

module _ (settings : Settings) (host : List ℕ) (port : ℕ) (success : Bool) (now : ℕ) where
  report_from-SameNames :
      (left i : ℕ) (service : List ℕ) (m : ConnectionManager)
      → SameNames (report_from settings host port success now left i service m) m
  unfolding report_from
  report_from-SameNames zero i service m = refl
  report_from-SameNames (suc left) i service m =
      report_from-SameNames left (i + 1) service _
      ∙ if-SameNames (is_at host port (backend_at (service_of service m).backends i)) _ m m
          (report_at-SameNames settings success now service i m) refl

  report_each-SameNames :
      (l : List (List ℕ × ServiceState)) (m : ConnectionManager)
      → SameNames (report_each settings host port success now l m) m
  unfolding report_each
  report_each-SameNames [] m = refl
  report_each-SameNames ((service, s) ∷ l) m =
      report_each-SameNames l _ ∙ report_from-SameNames (length s.backends) 0 service m

  pub report_backend_status-SameNames :
      (m : ConnectionManager) → SameNames (report_backend_status settings host port success now m) m
  unfolding report_backend_status
  report_backend_status-SameNames m =
      if-SameNames (is_empty host || port == 0) m _ m refl (report_each-SameNames m.services m)

  report_first-SameNames :
      (left i : ℕ) (service : List ℕ) (m : ConnectionManager)
      → SameNames (report_first settings host port success now left i service m) m
  unfolding report_first
  report_first-SameNames zero i service m = refl
  report_first-SameNames (suc left) i service m =
      if-SameNames (is_at host port (backend_at (service_of service m).backends i)) _ _ m
        (report_at-SameNames settings success now service i m)
        (report_first-SameNames left (i + 1) service m)

  pub report_service_backend-SameNames :
      (service : List ℕ) (m : ConnectionManager)
      → SameNames (report_service_backend settings host port success now service m) m
  unfolding report_service_backend
  report_service_backend-SameNames service m =
      if-SameNames (is_empty service || is_empty host || port == 0) m _ m refl
        (report_first-SameNames (length (service_of service m).backends) 0 service m)

pub report_execution-SameNames :
    (settings : Settings) (success : Bool) (now : ℕ) (m : ConnectionManager)
    → SameNames (report_execution settings success now m) m
unfolding report_execution
report_execution-SameNames settings success now m =
    if-SameNames settings.circuit_breaker_enabled _ m m (names-change_all _ m.services) refl

pub report_service_execution-SameNames :
    (settings : Settings) (service : List ℕ) (success : Bool) (now : ℕ) (m : ConnectionManager)
    → SameNames (report_service_execution settings service success now m) m
unfolding report_service_execution
report_service_execution-SameNames settings service success now m =
    if-SameNames settings.circuit_breaker_enabled _ m m (names-change_entry service _ m.services)
      refl
