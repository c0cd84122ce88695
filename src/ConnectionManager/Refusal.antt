-- ===== src/ConnectionManager/Refusal.antt =====
-- What `acquireConnection` of src/ConnectionManager.cpp does while the breaker is open.
use fast_net.Prelude.{ℕ, ◌+◌, ◌<◌, ◌≡◌, refl, ap, ◌∙◌, Bool, true, false, arith}
use fast_net.Prelude.{List, if◌then◌else◌, same_text_iff, is_empty}
use fast_net.ConnectionManager.State.{
  CircuitBreakerStats, CircuitBreakerState.tripped, ServiceState, Settings, ConnectionManager,
  service_of,
}
use fast_net.ConnectionManager.Breaker.{prepare_circuit_breaker}
use fast_net.ConnectionManager.Pool.{ensured, ensure_service_state}
use fast_net.ConnectionManager.Acquire.{waits, begin, finish, after_breaker, acquire_connection}
use fast_net.ConnectionManager.Tables.{find_service-assign, find_service-change}

begin-breaker :
    (settings : Settings) (service : List ℕ) (m : ConnectionManager)
    → (service_of service (begin settings service m)).circuit_breaker
      ≡ (service_of service m).circuit_breaker
unfolding service_of begin ensure_service_state ensured
begin-breaker settings service m = ground (
  arith,
  find_service-change service service waits (ensure_service_state settings service m).services,
  find_service-assign service service (ensured settings (service_of service m)) m.services,
  same_text_iff service service,
)

-- A refusal that leaves the table of connections.
abbrev pub IsRefused : ConnectionManager → ℕ × ConnectionManager → Type 0
IsRefused m (id, after) = (id ≡ 0) × (after.connections ≡ m.connections)

after_breaker-IsRefused :
    (settings : Settings) (hash : List ℕ → ℕ) (draw : ℕ → ℕ) (service affinity_key : List ℕ)
    (now : ℕ) (r : Bool × ServiceState) (m : ConnectionManager)
    → r.0 ≡ false
    → IsRefused m (after_breaker settings hash draw service affinity_key now r m)
unfolding after_breaker finish
after_breaker-IsRefused settings hash draw service affinity_key now (false, s) m h = (refl, refl)
after_breaker-IsRefused settings hash draw service affinity_key now (true, s) m h = absurd (cc (h))

IsRefused-if :
    (m : ConnectionManager) (t : Bool) (x y : ℕ × ConnectionManager)
    → IsRefused m x
    → IsRefused m y
    → IsRefused m (if t then x else y)
IsRefused-if m true x y h k = h
IsRefused-if m false x y h k = k

prepare-refuses :
    (settings : Settings) (now : ℕ) (s : ServiceState)
    → settings.circuit_breaker_enabled ≡ true
    → s.circuit_breaker.state ≡ tripped
    → now < s.circuit_breaker.last_failure_time + settings.recovery_timeout
    → 0 < settings.recovery_timeout
    → (prepare_circuit_breaker settings now s).0 ≡ false
unfolding prepare_circuit_breaker
prepare-refuses settings now s on tripping early positive = ground arith

-- While the circuit breakers are enabled, the breaker of a service is open and less than the
-- positive recovery time has passed since its last failure, acquireConnection returns 0 and
-- leaves the table of connections.
pub acquire_connection-IsRefused :
    (settings : Settings) (hash : List ℕ → ℕ) (draw : ℕ → ℕ) (service affinity_key : List ℕ)
    (now : ℕ) (m : ConnectionManager)
    → settings.circuit_breaker_enabled ≡ true
    → (service_of service m).circuit_breaker.state ≡ tripped
    → now < (service_of service m).circuit_breaker.last_failure_time + settings.recovery_timeout
    → 0 < settings.recovery_timeout
    → IsRefused m (acquire_connection settings hash draw service affinity_key now m)
unfolding acquire_connection begin ensure_service_state
acquire_connection-IsRefused settings hash draw service affinity_key now m on tripping early
      positive =
    let begun = begin settings service m in
    let same = begin-breaker settings service m in
    IsRefused-if m (is_empty service) (0, m) _ (refl, refl)
      (after_breaker-IsRefused settings hash draw service affinity_key now
        (prepare_circuit_breaker settings now (service_of service begun)) begun
        (prepare-refuses settings now (service_of service begun) on
          (ap (λ (b : CircuitBreakerStats). b.state) same ∙ tripping)
          (omega (arith, ap (λ (b : CircuitBreakerStats). b.last_failure_time) same)) positive))
