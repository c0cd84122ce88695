-- ===== src/ConnectionManager/Inv/Idle.antt =====
-- The loop over the idle connections of src/ConnectionManager.cpp keeps the accounting.
use fast_net.Prelude.{ℕ, zero, suc, subst, ◌+◌, ◌≡◌, refl, Bool, true, false, ◌&&◌, arith}
use fast_net.Prelude.{Option, none, some, List, All, [], ◌∷◌, ltb, if◌then◌else◌}
use fast_net.ConnectionManager.State.{
  BackendServer, ConnectionInfo, Settings, ConnectionManager, find_connection, assign_connection,
  find_backend, change_service, service_of,
}
use fast_net.ConnectionManager.Pool.{remove_connection}
use fast_net.ConnectionManager.Acquire.{reuse, try_candidate, try_front, continue_with, take_idle}
use fast_net.ConnectionManager.Tables.{find_connection-assign}
use fast_net.ConnectionManager.Inv.{IsValid, assign_connection-IsValid}
use fast_net.ConnectionManager.Inv.Services.{change_service-IsValid, change_service-IsValid}
use fast_net.ConnectionManager.Inv.Pool.{remove_connection-IsValid}

-- What a round of the idle loop leaves.
abbrev pub Valid : ℕ → Option ℕ × ConnectionManager → Type 0
Valid n (r, m) = IsValid n m

Valid-if :
    (n : ℕ) (t : Bool) (x y : Option ℕ × ConnectionManager)
    → Valid n x
    → Valid n y
    → Valid n (if t then x else y)
Valid-if n true x y h k = h
Valid-if n false x y h k = k

reuse-Valid :
    (n : ℕ) (b : Option BackendServer) (id : ℕ) (info : ConnectionInfo) (service : List ℕ)
    (m : ConnectionManager)
    → find_connection id m.connections ≡ some info
    → IsValid n m
    → Valid n (reuse b id info service m)
unfolding reuse
reuse-Valid n none id info service m h v = remove_connection-IsValid n id info m h v
reuse-Valid n (some b) id info service m h v =
    Valid-if n b.healthy _ (none, remove_connection id info m)
      (change_service-IsValid n m service _ (refl, omega arith, λ P h. h) v)
      (remove_connection-IsValid n id info m h v)

try_candidate-Valid :
    (n : ℕ) (o : Option ConnectionInfo) (settings : Settings) (id : ℕ) (service : List ℕ) (now : ℕ)
    (m : ConnectionManager)
    → find_connection id m.connections ≡ o
    → IsValid n m
    → Valid n (try_candidate o settings id service now m)
unfolding try_candidate
try_candidate-Valid n none settings id service now m h v = v
try_candidate-Valid n (some info) settings id service now m h v =
    let reused : ConnectionInfo = record info { is_active = true; last_used = now } in
    let table = assign_connection id reused m.connections in
    Valid-if n info.is_active (none, m) _ v
      (Valid-if n (ltb 0 settings.idle_timeout && ltb (info.last_used + settings.idle_timeout) now)
        (none, remove_connection id info m) _ (remove_connection-IsValid n id info m h v)
        (reuse-Valid n
          (find_backend info.remote_host info.remote_port (service_of service m).backends) id reused
          service (record m { connections = table })
          (ground (arith, find_connection-assign id id reused m.connections))
          (assign_connection-IsValid n id info reused m h refl v)))

pub try_front-Valid :
    (n : ℕ) (idle : List ℕ) (settings : Settings) (service : List ℕ) (now : ℕ)
    (m : ConnectionManager)
    → (service_of service m).idle_connections ≡ idle
    → IsValid n m
    → Valid n (try_front idle settings service now m)
unfolding try_front
try_front-Valid n [] settings service now m e v = v
try_front-Valid n (id ∷ idle) settings service now m e v =
    let popped = change_service service (λ s. record s { idle_connections = idle }) m in
    try_candidate-Valid n (find_connection id popped.connections) settings id service now popped
      refl
      (change_service-IsValid n m service (λ s. record s { idle_connections = idle })
        (refl, omega arith, λ P h. (subst (All P) e h).1) v)

continue_with-Valid :
    (n : ℕ) (rest : ConnectionManager → Option ℕ × ConnectionManager)
    (r : Option ℕ × ConnectionManager)
    → ((m : ConnectionManager) → IsValid n m → Valid n (rest m))
    → Valid n r
    → Valid n (continue_with rest r)
unfolding continue_with
continue_with-Valid n rest (none, m) h v = h m v
continue_with-Valid n rest (some id, m) h v = v

pub take_idle-Valid :
    (n fuel : ℕ) (settings : Settings) (service : List ℕ) (now : ℕ) (m : ConnectionManager)
    → IsValid n m
    → Valid n (take_idle fuel settings service now m)
unfolding take_idle
take_idle-Valid n zero settings service now m v = v
take_idle-Valid n (suc fuel) settings service now m v =
    continue_with-Valid n (take_idle fuel settings service now)
      (try_front (service_of service m).idle_connections settings service now m)
      (take_idle-Valid n fuel settings service now)
      (try_front-Valid n (service_of service m).idle_connections settings service now m refl v)
