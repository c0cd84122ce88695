-- ===== src/ConnectionManager/Names/Acquire.antt =====
-- acquireConnection, releaseConnection and closeConnection of src/ConnectionManager.cpp leave the
-- names of the services alone.
use fast_net.Prelude.{ℕ, zero, suc, ◌+◌, refl, ◌∙◌, Bool, true, false, ◌&&◌}
use fast_net.Prelude.{Option, none, some, List, [], ◌∷◌, length, ltb, leb, if◌then◌else◌}
use fast_net.ConnectionManager.State.{
  BackendServer, ConnectionInfo, ServiceState, Settings, ConnectionManager, find_connection,
  assign_connection, find_service, change_service, service_of, find_backend,
}
use fast_net.ConnectionManager.Pool.{create_connection}
use fast_net.ConnectionManager.Acquire.{
  reuse, try_candidate, try_front, continue_with, take_idle, finish, create_at, after_idle,
  after_breaker, park, release_backend, release_service, release_found, release_connection,
  close_found, close_connection,
}
use fast_net.ConnectionManager.Select.{select_backend}
use fast_net.ConnectionManager.Names.{
  names-change_entry, SameNames, if-SameNames, remove_connection-SameNames,
}

-- What a call that may give a connection leaves.
abbrev pub SameNamesIn {ℓ} : {A : Type ℓ} → A × ConnectionManager → ConnectionManager → Type 0
SameNamesIn r m = SameNames r.1 m

if-SameNamesIn {ℓ} :
    {A : Type ℓ} (t : Bool) (a b : A × ConnectionManager) (m : ConnectionManager)
    → SameNamesIn a m
    → SameNamesIn b m
    → SameNamesIn (if t then a else b) m
if-SameNamesIn true a b m h k = h
if-SameNamesIn false a b m h k = k

reuse-SameNames :
    (o : Option BackendServer) (id : ℕ) (info : ConnectionInfo) (service : List ℕ)
    (m : ConnectionManager)
    → SameNamesIn (reuse o id info service m) m
unfolding reuse
reuse-SameNames none id info service m = remove_connection-SameNames id info m
reuse-SameNames (some b) id info service m =
    if-SameNamesIn b.healthy _ _ m (names-change_entry service _ m.services)
      (remove_connection-SameNames id info m)

try_candidate-SameNames :
    (o : Option ConnectionInfo) (settings : Settings) (id : ℕ) (service : List ℕ) (now : ℕ)
    (m : ConnectionManager)
    → SameNamesIn (try_candidate o settings id service now m) m
unfolding try_candidate
try_candidate-SameNames none settings id service now m = refl
try_candidate-SameNames (some info) settings id service now m =
    let reused : ConnectionInfo = record info { is_active = true; last_used = now } in
    let late = ltb 0 settings.idle_timeout && ltb (info.last_used + settings.idle_timeout) now in
    if-SameNamesIn info.is_active _ _ m refl (
      if-SameNamesIn late _ _ m (remove_connection-SameNames id info m) (
        reuse-SameNames
          (find_backend info.remote_host info.remote_port (service_of service m).backends) id reused
          service (record m { connections = assign_connection id reused m.connections })))

try_front-SameNames :
    (idle : List ℕ) (settings : Settings) (service : List ℕ) (now : ℕ) (m : ConnectionManager)
    → SameNamesIn (try_front idle settings service now m) m
unfolding try_front
try_front-SameNames [] settings service now m = refl
try_front-SameNames (id ∷ idle) settings service now m =
    try_candidate-SameNames (find_connection id m.connections) settings id service now _
    ∙ names-change_entry service _ m.services

continue_with-SameNames :
    (rest : ConnectionManager → Option ℕ × ConnectionManager) (r : Option ℕ × ConnectionManager)
    (m : ConnectionManager)
    → ((n : ConnectionManager) → SameNamesIn (rest n) n)
    → SameNamesIn r m
    → SameNamesIn (continue_with rest r) m
unfolding continue_with
continue_with-SameNames rest (none, n) m f h = f n ∙ h
continue_with-SameNames rest (some id, n) m f h = h

take_idle-SameNames :
    (fuel : ℕ) (settings : Settings) (service : List ℕ) (now : ℕ) (m : ConnectionManager)
    → SameNamesIn (take_idle fuel settings service now m) m
unfolding take_idle
take_idle-SameNames zero settings service now m = refl
take_idle-SameNames (suc fuel) settings service now m =
    let idle = (service_of service m).idle_connections in
    continue_with-SameNames (take_idle fuel settings service now)
      (try_front idle settings service now m) m (take_idle-SameNames fuel settings service now)
      (try_front-SameNames idle settings service now m)

finish-SameNames :
    (service : List ℕ) (id : ℕ) (m : ConnectionManager) → SameNamesIn (finish service id m) m
unfolding finish
finish-SameNames service id m = names-change_entry service _ m.services

create_at-SameNames :
    (r : Option ℕ × ServiceState) (service : List ℕ) (now : ℕ) (m : ConnectionManager)
    → SameNamesIn (create_at r service now m) m
unfolding create_at create_connection
create_at-SameNames (none, s) service now m =
    finish-SameNames service 0 (change_service service (λ _. s) m)
    ∙ names-change_entry service _ m.services
create_at-SameNames (some i, s) service now m =
    let created = create_connection service i now (change_service service (λ _. s) m) in
    finish-SameNames service created.0 created.1
    ∙ names-change_entry service _ _
    ∙ names-change_entry service _ m.services

module _ (settings : Settings) (hash : List ℕ → ℕ) (draw : ℕ → ℕ) (service affinity_key : List ℕ)
    (now : ℕ) where
  after_idle-SameNames :
      (r : Option ℕ × ConnectionManager) (m : ConnectionManager)
      → SameNamesIn r m
      → SameNamesIn (after_idle settings hash draw service affinity_key now r) m
  unfolding after_idle
  after_idle-SameNames (some id, n) m h = finish-SameNames service id n ∙ h
  after_idle-SameNames (none, n) m h =
      let s = service_of service n in
      if-SameNamesIn (leb s.max_pool_size s.total_connections) _ _ m
        (finish-SameNames service 0 n ∙ h)
        (create_at-SameNames (select_backend hash draw affinity_key s) service now n ∙ h)

  pub after_breaker-SameNames :
      (r : Bool × ServiceState) (m : ConnectionManager)
      → SameNamesIn (after_breaker settings hash draw service affinity_key now r m) m
  unfolding after_breaker
  after_breaker-SameNames (false, s) m =
      finish-SameNames service 0 (change_service service (λ _. s) m)
      ∙ names-change_entry service _ m.services
  after_breaker-SameNames (true, s) m =
      let admitted = change_service service (λ _. s) m in
      after_idle-SameNames _ m (
        take_idle-SameNames (length s.idle_connections) settings service now admitted
        ∙ names-change_entry service _ m.services)

release_backend-SameNames :
    (o : Option BackendServer) (id : ℕ) (info : ConnectionInfo) (now : ℕ) (m : ConnectionManager)
    → SameNames (release_backend o id info now m) m
unfolding release_backend park
release_backend-SameNames none id info now m = remove_connection-SameNames id info m
release_backend-SameNames (some b) id info now m =
    if-SameNames b.healthy _ _ m (names-change_entry info.service _ m.services)
      (remove_connection-SameNames id info m)

release_service-SameNames :
    (o : Option ServiceState) (id : ℕ) (info : ConnectionInfo) (now : ℕ) (m : ConnectionManager)
    → SameNames (release_service o id info now m) m
unfolding release_service
release_service-SameNames none id info now m = remove_connection-SameNames id info m
release_service-SameNames (some s) id info now m =
    release_backend-SameNames (find_backend info.remote_host info.remote_port s.backends) id info
      now m

release_found-SameNames :
    (o : Option ConnectionInfo) (id now : ℕ) (m : ConnectionManager)
    → SameNames (release_found o id now m) m
unfolding release_found
release_found-SameNames none id now m = refl
release_found-SameNames (some info) id now m =
    if-SameNames info.is_active _ m m
      (release_service-SameNames (find_service info.service m.services) id info now m) refl

pub release_connection-SameNames :
    (id now : ℕ) (m : ConnectionManager) → SameNames (release_connection id now m) m
unfolding release_connection
release_connection-SameNames id now m =
    release_found-SameNames (find_connection id m.connections) id now m

close_found-SameNames :
    (o : Option ConnectionInfo) (id : ℕ) (m : ConnectionManager) → SameNames (close_found o id m) m
unfolding close_found
close_found-SameNames none id m = refl
close_found-SameNames (some info) id m = remove_connection-SameNames id info m

pub close_connection-SameNames :
    (id : ℕ) (m : ConnectionManager) → SameNames (close_connection id m) m
unfolding close_connection
close_connection-SameNames id m = close_found-SameNames (find_connection id m.connections) id m
