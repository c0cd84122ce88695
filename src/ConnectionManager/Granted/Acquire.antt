-- ===== src/ConnectionManager/Granted/Acquire.antt =====
-- What the whole of `acquireConnection` of src/ConnectionManager.cpp hands out, also along runs.
use fast_net.Prelude.{ℕ, ◌+◌, ◌^◌, ◌<◌, ◌≡◌, ◌≢◌, refl, sym, subst, Bool, true, false, arith}
use fast_net.Prelude.{◌⊎◌, inl, inr, Bool-cases}
use native.Mathlib.Decide.{ℕ_discrete}
use fast_net.Prelude.{Option, none, some, List, length, leb, if◌then◌else◌, is_empty}
use fast_net.ConnectionManager.State.{
  ConnectionInfo, ServiceState, Settings, ConnectionManager, find_connection, assign_connection,
  change_service, service_of,
}
use fast_net.ConnectionManager.Breaker.{prepare_circuit_breaker}
use fast_net.ConnectionManager.Select.{backend_at, select_backend}
use fast_net.ConnectionManager.Pool.{new_info, create_connection}
use fast_net.ConnectionManager.Pool.{ensure_service_state}
use fast_net.ConnectionManager.Acquire.{
  take_idle, begin, finish, create_at, after_idle, after_breaker, acquire_connection,
}
use fast_net.ConnectionManager.Tables.{find_connection-assign}
use fast_net.ConnectionManager.Inv.{IsValid}
use fast_net.ConnectionManager.Inv.Services.{Grows, change_service-IsValid}
use fast_net.ConnectionManager.Inv.Idle.{Valid, take_idle-Valid}
use fast_net.ConnectionManager.Inv.Acquire.{
  begin-IsValid, prepare_circuit_breaker-Grows, select_backend-Grows,
}
use fast_net.ConnectionManager.State.{new_manager}
use fast_net.ConnectionManager.Actions.{Action, run}
use fast_net.ConnectionManager.Runs.{run-IsValid}
use fast_net.ConnectionManager.Inv.{new_manager-IsValid}
use fast_net.ConnectionManager.Granted.{
  active_in, Serves, Keeps, Grants, Gives, Hands, Keeps-assign, take_idle-Gives,
}

kept-Hands :
    (service : List ℕ) (l : List (ℕ × ConnectionInfo)) (id : ℕ) (m : ConnectionManager)
    → Keeps l m.connections
    → (id ≢ 0 → Grants service id l m.connections)
    → Hands service l (finish service id m)
unfolding finish
kept-Hands service l id m k g = (k, g)

create_connection-Hands :
    (n : ℕ) (service : List ℕ) (i now : ℕ) (m : ConnectionManager)
    → IsValid n m
    → Hands service m.connections (create_connection service i now m)
unfolding create_connection
create_connection-Hands n service i now m v =
    let id = m.next_connection_id in
    let info = new_info id service (backend_at (service_of service m).backends i) now in
    let absent = v.fresh id (omega arith) in
    let l = m.connections in
    let found : find_connection id (assign_connection id info l) ≡ some info =
      ground (arith, find_connection-assign id id info l) in
    (
      Keeps-assign id info l (ground arith),
      λ nonzero. (ground arith, subst (Serves service) (sym found) (refl, refl)),
    )

create_at-Hands :
    (n : ℕ) (r : Option ℕ × ServiceState) (service : List ℕ) (now : ℕ) (m : ConnectionManager)
    → Grows (service_of service m) r.1
    → IsValid n m
    → Hands service m.connections (create_at r service now m)
unfolding create_at
create_at-Hands n (none, s) service now m g v =
    kept-Hands service m.connections 0 (change_service service (λ _. s) m) (λ j a. refl)
      (λ nonzero. absurd (nonzero refl))
create_at-Hands n (some i, s) service now m g v =
    let put = change_service service (λ _. s) m in
    let created = create_connection service i now put in
    let h =
      create_connection-Hands n service i now put
        (change_service-IsValid n m service (λ _. s) g v) in
    kept-Hands service m.connections created.0 created.1 h.0 h.1

Hands-if :
    (service : List ℕ) (l : List (ℕ × ConnectionInfo)) (t : Bool) (x y : ℕ × ConnectionManager)
    → Hands service l x
    → Hands service l y
    → Hands service l (if t then x else y)
Hands-if service l true x y h k = h
Hands-if service l false x y h k = k

Hands-then :
    (service : List ℕ) (l new : List (ℕ × ConnectionInfo)) (r : ℕ × ConnectionManager)
    → Keeps l new
    → Hands service new r
    → Hands service l r
Hands-then service l new (id, m) k (g, h) = (
  λ j a. ground (arith, k j a, g j),
  λ nonzero. (ground (arith, k id, (h nonzero).0), (h nonzero).1),
)

module _ (n : ℕ) (settings : Settings) (hash : List ℕ → ℕ) (draw : ℕ → ℕ)
    (service affinity_key : List ℕ) (now : ℕ) where
  after_idle-Hands :
      (l : List (ℕ × ConnectionInfo)) (r : Option ℕ × ConnectionManager)
      → Valid n r
      → Gives service l r
      → Hands service l (after_idle settings hash draw service affinity_key now r)
  unfolding after_idle
  after_idle-Hands l (some id, m) v (k, g) = kept-Hands service l id m k (λ nonzero. g)
  after_idle-Hands l (none, m) v k =
      let s = service_of service m in
      Hands-if service l (leb s.max_pool_size s.total_connections) _ _
        (kept-Hands service l 0 m k (λ nonzero. absurd (nonzero refl)))
        (Hands-then service l m.connections
          (create_at (select_backend hash draw affinity_key s) service now m) k
          (create_at-Hands n (select_backend hash draw affinity_key s) service now m
            (select_backend-Grows hash draw affinity_key s) v))

  after_breaker-Hands :
      (r : Bool × ServiceState) (m : ConnectionManager)
      → Grows (service_of service m) r.1
      → IsValid n m
      → Hands service m.connections (after_breaker settings hash draw service affinity_key now r m)
  unfolding after_breaker
  after_breaker-Hands (false, s) m g v =
      kept-Hands service m.connections 0 (change_service service (λ _. s) m) (λ j a. refl)
        (λ nonzero. absurd (nonzero refl))
  after_breaker-Hands (true, s) m g v =
      let put = change_service service (λ _. s) m in
      let w = change_service-IsValid n m service (λ _. s) g v in
      after_idle-Hands m.connections
        (take_idle (length s.idle_connections) settings service now put)
        (take_idle-Valid n (length s.idle_connections) settings service now put w)
        (take_idle-Gives n (length s.idle_connections) settings service now put w)

  pub acquire_connection-Hands :
      (m : ConnectionManager)
      → IsValid n m
      → Hands service m.connections
          (acquire_connection settings hash draw service affinity_key now m)
  unfolding acquire_connection begin ensure_service_state
  acquire_connection-Hands m v =
      let begun = begin settings service m in
      Hands-if service m.connections (is_empty service) (0, m) _
        (λ j a. refl, λ nonzero. absurd (nonzero refl))
        (after_breaker-Hands (prepare_circuit_breaker settings now (service_of service begun)) begun
          (prepare_circuit_breaker-Grows settings now (service_of service begun))
          (begin-IsValid n settings service m v))

-- What a call hands out, and what it leaves of the connection at an identifier.
abbrev pub Answers : List ℕ → ℕ → List (ℕ × ConnectionInfo) → ℕ × ConnectionManager → Type 0
Answers service j l (id, m) =
    ((id ≡ 0) ⊎ Grants service id l m.connections)
    × ((active_in (find_connection j l) ≡ false)
        ⊎ (find_connection j m.connections ≡ find_connection j l))

Hands-Answers :
    (service : List ℕ) (j : ℕ) (l : List (ℕ × ConnectionInfo)) (r : ℕ × ConnectionManager)
    → Hands service l r
    → Answers service j l r
Hands-Answers service j l (id, m) (k, g) = (granted (ℕ_discrete id 0), kept (Bool-cases _))
  where
    granted : Dec (id ≡ 0) → (id ≡ 0) ⊎ Grants service id l m.connections
    granted (yes p) = inl p
    granted (no p) = inr (g p)

    kept :
        (active_in (find_connection j l) ≡ true) ⊎ (active_in (find_connection j l) ≡ false)
        → (active_in (find_connection j l) ≡ false)
          ⊎ (find_connection j m.connections ≡ find_connection j l)
    kept (inl a) = inr (k j a)
    kept (inr a) = inl a

-- Whatever calls and rounds of maintenance a new manager has been through, as long as no
-- identifier can have wrapped, acquireConnection for a service returns 0, or an identifier that
-- was not in use before and is afterwards that of an active connection of the service; and
-- every connection that was in use stays as it was.
pub run-Answers :
    (settings : Settings) (hash : List ℕ → ℕ) (actions : List Action) (draw : ℕ → ℕ)
    (service affinity_key : List ℕ) (now j : ℕ)
    → length actions + 1 < 2 ^ 64
    → let m = run settings hash actions new_manager in
      Answers service j m.connections
        (acquire_connection settings hash draw service affinity_key now m)
run-Answers settings hash actions draw service affinity_key now j h =
    let m = run settings hash actions new_manager in
    Hands-Answers service j m.connections
      (acquire_connection settings hash draw service affinity_key now m)
      (acquire_connection-Hands (1 + length actions) settings hash draw service affinity_key now m
        (run-IsValid settings hash actions 1 new_manager (omega arith) new_manager-IsValid))
