-- ===== src/ConnectionManager/Inv/Acquire.antt =====
-- `acquireConnection` of src/ConnectionManager.cpp keeps the accounting.
use fast_net.Prelude.{ℕ, ◌+◌, ◌^◌, ◌<◌, ◌≡◌, refl, Bool, true, false, not, ◌&&◌, arith}
use fast_net.Prelude.{
  Option, none, some, List, [], ◌∷◌, length, ltb, leb, if◌then◌else◌, is_empty, same_text_iff,
}
use fast_net.ConnectionManager.State.{
  ServiceState, Settings, ConnectionManager, increment, LoadBalancingStrategy,
  LoadBalancingStrategy.round_robin, LoadBalancingStrategy.random,
  LoadBalancingStrategy.least_connections, LoadBalancingStrategy.weighted_round_robin,
  LoadBalancingStrategy.ip_hash, change_service, service_of,
}
use fast_net.ConnectionManager.Breaker.{prepare_circuit_breaker, is_tripped}
use fast_net.ConnectionManager.Select.{healthy_backends, take_turn, choose, select_backend}
use fast_net.ConnectionManager.Pool.{decrement, ensure_service_state, create_connection}
use fast_net.ConnectionManager.Acquire.{
  take_idle, begin, finish, create_at, after_idle, after_breaker, acquire_connection, waits,
  is_served,
}
use fast_net.ConnectionManager.Tables.{find_service-change}
use fast_net.ConnectionManager.Inv.{IsValid, IsValid-le}
use fast_net.ConnectionManager.Inv.Services.{
  Grows-same, Grows, pending_requests-IsValid, change_service-IsValid, change_service-IsValid,
}
use fast_net.ConnectionManager.Inv.Pool.{ensure_service_state-IsValid}
use fast_net.ConnectionManager.Inv.Create.{create_connection-IsValid}
use fast_net.ConnectionManager.Inv.Idle.{Valid, take_idle-Valid}

abbrev pub ValidId : ℕ → ℕ × ConnectionManager → Type 0
ValidId n (r, m) = IsValid n m

ValidId-if :
    (n : ℕ) (t : Bool) (x y : ℕ × ConnectionManager)
    → ValidId n x
    → (t ≡ false → ValidId n y)
    → ValidId n (if t then x else y)
ValidId-if n true x y h k = h
ValidId-if n false x y h k = k refl

finish-Valid :
    (n id : ℕ) (service : List ℕ) (m : ConnectionManager)
    → IsValid n m
    → ValidId n (finish service id m)
unfolding finish service_of
finish-Valid n id service m v =
    let served = change_service-IsValid n m service is_served (refl, omega arith, λ P h. h) v in
    pending_requests-IsValid n (decrement m.pending_requests) (change_service service is_served m)
      served

pub begin-IsValid :
    (n : ℕ) (settings : Settings) (service : List ℕ) (m : ConnectionManager)
    → IsValid n m
    → IsValid n (begin settings service m)
unfolding begin service_of
begin-IsValid n settings service m v =
    let ready = ensure_service_state settings service m in
    pending_requests-IsValid n (increment ready.pending_requests)
      (change_service service waits ready)
      (change_service-IsValid n ready service waits (refl, omega arith, λ P h. h)
        (ensure_service_state-IsValid n settings service m v))

choose-Grows :
    (hash : List ℕ → ℕ) (draw : ℕ → ℕ) (strategy : LoadBalancingStrategy)
    (healthy affinity_key : List ℕ) (s : ServiceState)
    → Grows s (choose hash draw strategy healthy affinity_key s).1
unfolding choose take_turn
choose-Grows hash draw round_robin [] affinity_key s = Grows-same s
choose-Grows hash draw random [] affinity_key s = Grows-same s
choose-Grows hash draw least_connections [] affinity_key s = Grows-same s
choose-Grows hash draw weighted_round_robin [] affinity_key s = Grows-same s
choose-Grows hash draw ip_hash [] affinity_key s = Grows-same s
choose-Grows hash draw round_robin (i ∷ healthy) affinity_key s = Grows-same s
choose-Grows hash draw random (i ∷ healthy) affinity_key s = Grows-same s
choose-Grows hash draw least_connections (i ∷ healthy) affinity_key s = Grows-same s
choose-Grows hash draw weighted_round_robin (i ∷ healthy) affinity_key s = Grows-same s
choose-Grows hash draw ip_hash (i ∷ healthy) [] s = Grows-same s
choose-Grows hash draw ip_hash (i ∷ healthy) (c ∷ affinity_key) s = Grows-same s

pub select_backend-Grows :
    (hash : List ℕ → ℕ) (draw : ℕ → ℕ) (affinity_key : List ℕ) (s : ServiceState)
    → Grows s (select_backend hash draw affinity_key s).1
unfolding select_backend
select_backend-Grows hash draw affinity_key s =
    choose-Grows hash draw s.strategy (healthy_backends 0 s.backends) affinity_key s

Grows-if :
    (t : Bool) (s : ServiceState) (x y : Bool × ServiceState)
    → Grows s x.1
    → Grows s y.1
    → Grows s (if t then x else y).1
Grows-if true s x y g h = g
Grows-if false s x y g h = h

pub prepare_circuit_breaker-Grows :
    (settings : Settings) (now : ℕ) (s : ServiceState)
    → Grows s (prepare_circuit_breaker settings now s).1
unfolding prepare_circuit_breaker
prepare_circuit_breaker-Grows settings now s =
    Grows-if (not settings.circuit_breaker_enabled) s (true, s) _ (Grows-same s)
      (Grows-if (is_tripped s.circuit_breaker.state) s _ _
        (Grows-if
          (ltb 0 settings.recovery_timeout
            && ltb now (s.circuit_breaker.last_failure_time + settings.recovery_timeout))
          s (false, s) _ (Grows-same s) (refl, omega arith, λ P h. h))
        (Grows-same s))

-- Room that is there stays when the service is put back.
put-room :
    (service : List ℕ) (t : ServiceState) (m : ConnectionManager)
    → Grows (service_of service m) t
    → (service_of service m).total_connections < (service_of service m).max_pool_size
    → (service_of service (change_service service (λ _. t) m)).total_connections
      < (service_of service (change_service service (λ _. t) m)).max_pool_size
unfolding service_of
put-room service t m a below =
    ground (
      arith,
      find_service-change service service (λ _. t) m.services,
      same_text_iff service service,
    )

create_at-Valid :
    (n : ℕ) (r : Option ℕ × ServiceState) (service : List ℕ) (now : ℕ) (m : ConnectionManager)
    → Grows (service_of service m) r.1
    → (service_of service m).total_connections < (service_of service m).max_pool_size
    → n + 1 < 2 ^ 64
    → IsValid n m
    → ValidId (n + 1) (create_at r service now m)
unfolding create_at
create_at-Valid n (none, s) service now m a below bound v =
    let put = change_service service (λ _. s) m in
    finish-Valid (n + 1) 0 service put
      (IsValid-le n (n + 1) put (omega arith) (change_service-IsValid n m service (λ _. s) a v))
create_at-Valid n (some i, s) service now m a below bound v =
    let put = change_service service (λ _. s) m in
    let created = create_connection service i now put in
    finish-Valid (n + 1) created.0 service created.1 (
      create_connection-IsValid n service i now put (put-room service s m a below) bound
        (change_service-IsValid n m service (λ _. s) a v))

after_idle-Valid :
    (n : ℕ) (settings : Settings) (hash : List ℕ → ℕ) (draw : ℕ → ℕ) (service affinity_key : List ℕ)
    (now : ℕ) (r : Option ℕ × ConnectionManager)
    → n + 1 < 2 ^ 64
    → Valid n r
    → ValidId (n + 1) (after_idle settings hash draw service affinity_key now r)
unfolding after_idle
after_idle-Valid n settings hash draw service affinity_key now (some id, m) bound v =
    finish-Valid (n + 1) id service m (IsValid-le n (n + 1) m (omega arith) v)
after_idle-Valid n settings hash draw service affinity_key now (none, m) bound v =
    let s = service_of service m in
    ValidId-if (n + 1) (leb s.max_pool_size s.total_connections) _ _
      (finish-Valid (n + 1) 0 service m (IsValid-le n (n + 1) m (omega arith) v))
      (λ full.
        create_at-Valid n (select_backend hash draw affinity_key s) service now m
          (select_backend-Grows hash draw affinity_key s) (ground arith) bound v)

after_breaker-Valid :
    (n : ℕ) (settings : Settings) (hash : List ℕ → ℕ) (draw : ℕ → ℕ) (service affinity_key : List ℕ)
    (now : ℕ) (r : Bool × ServiceState) (m : ConnectionManager)
    → n + 1 < 2 ^ 64
    → Grows (service_of service m) r.1
    → IsValid n m
    → ValidId (n + 1) (after_breaker settings hash draw service affinity_key now r m)
unfolding after_breaker
after_breaker-Valid n settings hash draw service affinity_key now (false, s) m bound a v =
    let put = change_service service (λ _. s) m in
    finish-Valid (n + 1) 0 service put
      (IsValid-le n (n + 1) put (omega arith) (change_service-IsValid n m service (λ _. s) a v))
after_breaker-Valid n settings hash draw service affinity_key now (true, s) m bound a v =
    let put = change_service service (λ _. s) m in
    after_idle-Valid n settings hash draw service affinity_key now
      (take_idle (length s.idle_connections) settings service now put) bound
      (take_idle-Valid n (length s.idle_connections) settings service now put
        (change_service-IsValid n m service (λ _. s) a v))

pub acquire_connection-Valid :
    (n : ℕ) (settings : Settings) (hash : List ℕ → ℕ) (draw : ℕ → ℕ) (service affinity_key : List ℕ)
    (now : ℕ) (m : ConnectionManager)
    → n + 1 < 2 ^ 64
    → IsValid n m
    → ValidId (n + 1) (acquire_connection settings hash draw service affinity_key now m)
unfolding acquire_connection
acquire_connection-Valid n settings hash draw service affinity_key now m bound v =
    let begun = begin settings service m in
    ValidId-if (n + 1) (is_empty service) (0, m) _ (IsValid-le n (n + 1) m (omega arith) v)
      (λ named.
        after_breaker-Valid n settings hash draw service affinity_key now
          (prepare_circuit_breaker settings now (service_of service begun)) begun bound
          (prepare_circuit_breaker-Grows settings now (service_of service begun))
          (begin-IsValid n settings service m v))
