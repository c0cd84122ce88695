-- ===== src/ConnectionManager/Exhaustion.antt =====
-- The loop over the idle connections of src/ConnectionManager.cpp comes to its end.
use fast_net.Prelude.{ℕ, zero, suc, ◌+◌, ◌≤◌, ◌≡◌, refl, Bool, true, false, ◌&&◌, arith}
use fast_net.Prelude.{Option, none, some, List, [], ◌∷◌, length, ltb, if◌then◌else◌, same_text_iff}
use fast_net.ConnectionManager.State.{
  BackendServer, ConnectionInfo, Settings, ConnectionManager, find_connection, assign_connection,
  find_backend, change_service, service_of,
}
use fast_net.ConnectionManager.Pool.{without, drop_connection, remove_connection}
use fast_net.ConnectionManager.Acquire.{reuse, try_candidate, try_front, continue_with, take_idle}
use fast_net.ConnectionManager.Tables.{find_service-change}

length-without : (id : ℕ) (ids : List ℕ) → length (without id ids) ≤ length ids
unfolding without
length-without id [] = omega arith
length-without id (x ∷ ids) = ground (arith, length-without id ids)

abbrev idle_count : List ℕ → ConnectionManager → ℕ
idle_count k m = length (service_of k m).idle_connections

idle_count-remove :
    (k : List ℕ) (id : ℕ) (info : ConnectionInfo) (m : ConnectionManager)
    → idle_count k (remove_connection id info m) ≤ idle_count k m
unfolding service_of remove_connection drop_connection
idle_count-remove k id info m = ground (
  arith,
  find_service-change k info.service (drop_connection id info) m.services,
  length-without id (service_of k m).idle_connections,
)

-- After a round that ends in `continue`, at most `n` are left.
abbrev Leaves : List ℕ → ℕ → Option ℕ × ConnectionManager → Type 0
Leaves service n (none, m) = idle_count service m ≤ n
Leaves service n (some id, m) = Unit {0}

Leaves-if :
    (service : List ℕ) (n : ℕ) (t : Bool) (x y : Option ℕ × ConnectionManager)
    → Leaves service n x
    → Leaves service n y
    → Leaves service n (if t then x else y)
Leaves-if service n true x y h k = h
Leaves-if service n false x y h k = k

reuse-Leaves :
    (n : ℕ) (b : Option BackendServer) (id : ℕ) (info : ConnectionInfo) (service : List ℕ)
    (m : ConnectionManager)
    → idle_count service m ≤ n
    → Leaves service n (reuse b id info service m)
unfolding reuse
reuse-Leaves n none id info service m h = omega (arith, idle_count-remove service id info m)
reuse-Leaves n (some b) id info service m h =
    Leaves-if service n b.healthy _ (none, remove_connection id info m) tt
      (omega (arith, idle_count-remove service id info m))

try_candidate-Leaves :
    (n : ℕ) (o : Option ConnectionInfo) (settings : Settings) (id : ℕ) (service : List ℕ) (now : ℕ)
    (m : ConnectionManager)
    → idle_count service m ≤ n
    → Leaves service n (try_candidate o settings id service now m)
unfolding try_candidate service_of
try_candidate-Leaves n none settings id service now m h = h
try_candidate-Leaves n (some info) settings id service now m h =
    let reused : ConnectionInfo = record info { is_active = true; last_used = now } in
    Leaves-if service n info.is_active (none, m) _ h
      (Leaves-if service n
        (ltb 0 settings.idle_timeout && ltb (info.last_used + settings.idle_timeout) now)
        (none, remove_connection id info m) _ (omega (arith, idle_count-remove service id info m))
        (reuse-Leaves n
          (find_backend info.remote_host info.remote_port (service_of service m).backends) id reused
          service (record m { connections = assign_connection id reused m.connections }) h))

popped_count :
    (service idle : List ℕ) (m : ConnectionManager)
    → idle_count service (change_service service (λ s. record s { idle_connections = idle }) m)
      ≤ length idle
unfolding service_of
popped_count service idle m = ground (
  arith,
  find_service-change service service (λ s. record s { idle_connections = idle }) m.services,
  same_text_iff service service,
)

try_front-Leaves :
    (n : ℕ) (idle : List ℕ) (settings : Settings) (service : List ℕ) (now : ℕ)
    (m : ConnectionManager)
    → length idle ≤ suc n
    → (service_of service m).idle_connections ≡ idle
    → Leaves service n (try_front idle settings service now m)
unfolding try_front
try_front-Leaves n [] settings service now m h e = ground arith
try_front-Leaves n (id ∷ idle) settings service now m h e =
    let popped = change_service service (λ s. record s { idle_connections = idle }) m in
    try_candidate-Leaves n (find_connection id popped.connections) settings id service now popped
      (omega (arith, popped_count service idle m))

-- The loop has handed out a connection, or no idle identifier is left.
abbrev pub IsExhausted : List ℕ → Option ℕ × ConnectionManager → Type 0
IsExhausted service (none, m) = (service_of service m).idle_connections ≡ []
IsExhausted service (some id, m) = Unit {0}

empty_of_length : (l : List ℕ) → length l ≤ 0 → l ≡ []
empty_of_length [] h = refl
empty_of_length (x ∷ l) h = absurd (omega arith)

continue_with-IsExhausted :
    (n : ℕ) (service : List ℕ) (rest : ConnectionManager → Option ℕ × ConnectionManager)
    (r : Option ℕ × ConnectionManager)
    → ((m : ConnectionManager) → idle_count service m ≤ n → IsExhausted service (rest m))
    → Leaves service n r
    → IsExhausted service (continue_with rest r)
unfolding continue_with
continue_with-IsExhausted n service rest (none, m) h l = h m l
continue_with-IsExhausted n service rest (some id, m) h l = tt

-- With as many rounds as the service has idle identifiers, the loop over them does not stop
-- early: it hands out a connection, or it ends with no idle identifier left.
pub take_idle-IsExhausted :
    (fuel : ℕ) (settings : Settings) (service : List ℕ) (now : ℕ) (m : ConnectionManager)
    → length (service_of service m).idle_connections ≤ fuel
    → IsExhausted service (take_idle fuel settings service now m)
unfolding take_idle
take_idle-IsExhausted zero settings service now m h =
    empty_of_length (service_of service m).idle_connections h
take_idle-IsExhausted (suc fuel) settings service now m h =
    continue_with-IsExhausted fuel service (take_idle fuel settings service now)
      (try_front (service_of service m).idle_connections settings service now m)
      (take_idle-IsExhausted fuel settings service now)
      (try_front-Leaves fuel (service_of service m).idle_connections settings service now m h refl)
