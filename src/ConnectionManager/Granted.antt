-- ===== src/ConnectionManager/Granted.antt =====
-- What `acquireConnection` of src/ConnectionManager.cpp hands out.
pub mod Acquire
use fast_net.Prelude.{
  ℕ, zero, suc, ◌+◌, ◌^◌, ◌<◌, ◌≡◌, ◌≢◌, refl, sym, ◌∙◌, subst, Bool, true, false, ◌&&◌, arith,
}
use fast_net.Prelude.{
  Option, none, some, List, All, [], ◌∷◌, length, ltb, leb, ◌==◌, if◌then◌else◌, is_empty,
}
use fast_net.ConnectionManager.State.{
  BackendServer, ConnectionInfo, ServiceState, Settings, ConnectionManager, increment,
  find_connection, assign_connection, erase_connection, find_backend, change_service, service_of,
}
use fast_net.ConnectionManager.Breaker.{prepare_circuit_breaker}
use fast_net.ConnectionManager.Select.{backend_at, select_backend}
use fast_net.ConnectionManager.Pool.{new_info, create_connection, remove_connection}
use fast_net.ConnectionManager.Pool.{ensure_service_state}
use fast_net.ConnectionManager.Acquire.{
  reuse, try_candidate, try_front, continue_with, take_idle, begin, finish, create_at, after_idle,
  after_breaker, acquire_connection,
}
use fast_net.ConnectionManager.Tables.{
  find_connection-assign, find_connection-erase, Unique, Unique-assign,
}
use fast_net.ConnectionManager.Inv.{IsValid, IsOwned}
use fast_net.ConnectionManager.Inv.Services.{Grows, change_service-IsValid}
use fast_net.ConnectionManager.Inv.Idle.{Valid, try_front-Valid, take_idle-Valid}
use fast_net.ConnectionManager.Inv.Acquire.{
  begin-IsValid, prepare_circuit_breaker-Grows, select_backend-Grows,
}

abbrev pub active_in : Option ConnectionInfo → Bool
active_in none = false
active_in (some info) = info.is_active

-- A connection in use by a client of the service.
abbrev pub Serves : List ℕ → Option ConnectionInfo → Type 0
Serves service none = ⊥
Serves service (some info) = (info.is_active ≡ true) × (info.service ≡ service)

-- What was in use is as it was.
abbrev pub Keeps : List (ℕ × ConnectionInfo) → List (ℕ × ConnectionInfo) → Type 0
Keeps l new =
    (j : ℕ) → active_in (find_connection j l) ≡ true → find_connection j new ≡ find_connection j l

abbrev pub Grants : List ℕ → ℕ → List (ℕ × ConnectionInfo) → List (ℕ × ConnectionInfo) → Type 0
Grants service id l new =
    (active_in (find_connection id l) ≡ false) × Serves service (find_connection id new)

abbrev pub Gives : List ℕ → List (ℕ × ConnectionInfo) → Option ℕ × ConnectionManager → Type 0
Gives service l (none, m) = Keeps l m.connections
Gives service l (some id, m) = Keeps l m.connections × Grants service id l m.connections

Gives-if :
    (service : List ℕ) (l : List (ℕ × ConnectionInfo)) (t : Bool)
    (x y : Option ℕ × ConnectionManager)
    → (t ≡ true → Gives service l x)
    → (t ≡ false → Gives service l y)
    → Gives service l (if t then x else y)
Gives-if service l true x y h k = h refl
Gives-if service l false x y h k = k refl

Keeps-erase :
    (id : ℕ) (info : ConnectionInfo) (l : List (ℕ × ConnectionInfo))
    → Unique l
    → find_connection id l ≡ some info
    → info.is_active ≡ false
    → Keeps l (erase_connection id l)
Keeps-erase id info l u f h j a = ground (arith, find_connection-erase j id l u)

pub Keeps-assign :
    (id : ℕ) (info : ConnectionInfo) (l : List (ℕ × ConnectionInfo))
    → active_in (find_connection id l) ≡ false
    → Keeps l (assign_connection id info l)
Keeps-assign id info l f j a = ground (arith, find_connection-assign j id info l)

Keeps-assign-erase :
    (id : ℕ) (info : ConnectionInfo) (l : List (ℕ × ConnectionInfo))
    → Unique l
    → active_in (find_connection id l) ≡ false
    → Keeps l (erase_connection id (assign_connection id info l))
Keeps-assign-erase id info l u f j a = ground (
  arith,
  find_connection-erase j id (assign_connection id info l) (Unique-assign id info l u),
  find_connection-assign j id info l,
)

reuse-Gives :
    (b : Option BackendServer) (id : ℕ) (old info : ConnectionInfo) (service : List ℕ)
    (m : ConnectionManager)
    → Unique m.connections
    → find_connection id m.connections ≡ some old
    → old.is_active ≡ false
    → info.is_active ≡ true
    → info.service ≡ service
    → Gives service m.connections (
        reuse b id info service
          (record m { connections = assign_connection id info m.connections }))
unfolding reuse remove_connection
reuse-Gives none id old info service m u f h a e =
    Keeps-assign-erase id info m.connections u (ground arith)
reuse-Gives (some b) id old info service m u f h a e =
    Gives-if service m.connections b.healthy _ _
      (λ healthy. (
        Keeps-assign id info m.connections (ground arith),
        (ground arith, subst (Serves service) (sym (assigned id)) (a, e)),
      ))
      (λ ill. Keeps-assign-erase id info m.connections u (ground arith))
  where
    assigned : (j : ℕ) → find_connection j (assign_connection j info m.connections) ≡ some info
    assigned j = ground (arith, find_connection-assign j j info m.connections)

try_candidate-Gives :
    (o : Option ConnectionInfo) (settings : Settings) (id : ℕ) (service : List ℕ) (now : ℕ)
    (m : ConnectionManager)
    → Unique m.connections
    → find_connection id m.connections ≡ o
    → ((info : ConnectionInfo) → o ≡ some info → info.service ≡ service)
    → Gives service m.connections (try_candidate o settings id service now m)
unfolding try_candidate remove_connection
try_candidate-Gives none settings id service now m u f own = λ j a. refl
try_candidate-Gives (some info) settings id service now m u f own =
    let reused : ConnectionInfo = record info { is_active = true; last_used = now } in
    let l = m.connections in
    Gives-if service l info.is_active (none, m) _ (λ active j a. refl)
      (λ idle.
        Gives-if service l
          (ltb 0 settings.idle_timeout && ltb (info.last_used + settings.idle_timeout) now)
          (none, remove_connection id info m) _ (λ expired. Keeps-erase id info l u f idle)
          (λ kept.
            reuse-Gives
              (find_backend info.remote_host info.remote_port (service_of service m).backends) id
              info reused service m u f idle refl (own info refl)))

try_front-Gives :
    (n : ℕ) (idle : List ℕ) (settings : Settings) (service : List ℕ) (now : ℕ)
    (m : ConnectionManager)
    → (service_of service m).idle_connections ≡ idle
    → IsValid n m
    → Gives service m.connections (try_front idle settings service now m)
unfolding try_front
try_front-Gives n [] settings service now m e v = λ j a. refl
try_front-Gives n (id ∷ idle) settings service now m e v =
    let popped = change_service service (λ s. record s { idle_connections = idle }) m in
    let o =
      (subst (All (IsOwned service m.next_connection_id m.connections)) e (v.owned service)).0 in
    try_candidate-Gives (find_connection id m.connections) settings id service now popped v.unique
      refl o.own

Gives-then :
    (service : List ℕ) (l new : List (ℕ × ConnectionInfo)) (r : Option ℕ × ConnectionManager)
    → Keeps l new
    → Gives service new r
    → Gives service l r
Gives-then service l new (none, m) k g = λ j a. ground (arith, k j a, g j)
Gives-then service l new (some id, m) k (g, (idle, s)) =
    (λ j a. ground (arith, k j a, g j), (ground (arith, k id), s))

continue_with-Gives :
    (n : ℕ) (service : List ℕ) (l : List (ℕ × ConnectionInfo))
    (rest : ConnectionManager → Option ℕ × ConnectionManager) (r : Option ℕ × ConnectionManager)
    → ((m : ConnectionManager) → IsValid n m → Gives service m.connections (rest m))
    → Valid n r
    → Gives service l r
    → Gives service l (continue_with rest r)
unfolding continue_with
continue_with-Gives n service l rest (none, m) h v g =
    Gives-then service l m.connections (rest m) g (h m v)
continue_with-Gives n service l rest (some id, m) h v g = g

pub take_idle-Gives :
    (n fuel : ℕ) (settings : Settings) (service : List ℕ) (now : ℕ) (m : ConnectionManager)
    → IsValid n m
    → Gives service m.connections (take_idle fuel settings service now m)
unfolding take_idle
take_idle-Gives n zero settings service now m v = λ j a. refl
take_idle-Gives n (suc fuel) settings service now m v =
    let round = try_front (service_of service m).idle_connections settings service now m in
    continue_with-Gives n service m.connections (take_idle fuel settings service now) round
      (take_idle-Gives n fuel settings service now)
      (try_front-Valid n (service_of service m).idle_connections settings service now m refl v)
      (try_front-Gives n (service_of service m).idle_connections settings service now m refl v)

-- The same of the whole call, where 0 is a refusal.
abbrev pub Hands : List ℕ → List (ℕ × ConnectionInfo) → ℕ × ConnectionManager → Type 0
Hands service l (id, m) = Keeps l m.connections × (id ≢ 0 → Grants service id l m.connections)
