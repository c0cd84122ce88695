-- ===== src/ConnectionManager/Names.antt =====
-- The calls of src/ConnectionManager.cpp that leave the names of the services alone.
pub mod Acquire
pub mod Backends
use fast_net.Prelude.{ℕ, zero, suc, ◌+◌, ◌≡◌, refl, ap, ◌∙◌, Bool, true, false, not, ◌&&◌, ◌||◌}
use fast_net.Prelude.{
  Option, none, some, List, [], ◌∷◌, length, map, ◌==◌, ltb, leb, if◌then◌else◌, is_empty,
  same_text, Bool-cases, inl, inr, arith,
}
use fast_net.ConnectionManager.State.{
  BackendServer, ConnectionInfo, ServiceState, Settings, ConnectionManager, find_connection,
  assign_connection, find_service, change_entry, change_service, change_all, service_of,
  find_backend,
}
use fast_net.ConnectionManager.Pool.{
  create_connection, remove_connection, remove_if, remove_where, cleanup_expired_connections,
  perform_health_check, maintain, connection_ids, is_expired,
}
use fast_net.ConnectionManager.Acquire.{
  reuse, try_candidate, try_front, continue_with, take_idle, finish, create_at, after_idle,
  after_breaker, park, release_backend, release_service, release_found, release_connection,
  close_found, close_connection,
}
use fast_net.ConnectionManager.Select.{select_backend, backend_at}

unfoldable pub names : List (List ℕ × ServiceState) → List (List ℕ)
names [] = []
names ((service, s) ∷ l) = service ∷ names l

pub names-change_entry :
    (service : List ℕ) (f : ServiceState → ServiceState) (l : List (List ℕ × ServiceState))
    → names (change_entry service f l) ≡ names l
unfolding names change_entry
names-change_entry service f [] = refl
names-change_entry service f ((key, s) ∷ l) = elim (Bool-cases (same_text key service)) [
  | inl e ↦ rw e refl
  | inr e ↦ rw e (ap (λ t. key ∷ t) (names-change_entry service f l))
]

pub names-change_all :
    (f : ServiceState → ServiceState) (l : List (List ℕ × ServiceState))
    → names (change_all f l) ≡ names l
unfolding names change_all
names-change_all f [] = refl
names-change_all f ((key, s) ∷ l) = ap (λ t. key ∷ t) (names-change_all f l)

-- The names are those of `m`.
abbrev pub SameNames : ConnectionManager → ConnectionManager → Type 0
SameNames after m = names after.services ≡ names m.services

pub remove_connection-SameNames :
    (id : ℕ) (info : ConnectionInfo) (m : ConnectionManager)
    → SameNames (remove_connection id info m) m
unfolding remove_connection
remove_connection-SameNames id info m = names-change_entry info.service _ m.services

pub if-SameNames :
    (t : Bool) (a b m : ConnectionManager)
    → SameNames a m
    → SameNames b m
    → SameNames (if t then a else b) m
if-SameNames true a b m h k = h
if-SameNames false a b m h k = k

remove_if-SameNames :
    (test : ConnectionInfo → Bool) (id : ℕ) (o : Option ConnectionInfo) (m : ConnectionManager)
    → SameNames (remove_if test id o m) m
remove_if-SameNames test id none m = refl
remove_if-SameNames test id (some info) m =
    if-SameNames (test info) _ m m (remove_connection-SameNames id info m) refl

pub remove_where-SameNames :
    (test : ConnectionInfo → Bool) (ids : List ℕ) (m : ConnectionManager)
    → SameNames (remove_where test ids m) m
unfolding remove_where
remove_where-SameNames test [] m = refl
remove_where-SameNames test (id ∷ ids) m =
    let o = find_connection id m.connections in
    remove_where-SameNames test ids (remove_if test id o m) ∙ remove_if-SameNames test id o m

pub maintain-SameNames :
    (settings : Settings) (now : ℕ) (m : ConnectionManager) → SameNames (maintain settings now m) m
unfolding maintain perform_health_check cleanup_expired_connections
maintain-SameNames settings now m =
    names-change_all _ _
    ∙ names-change_all _ _
    ∙ remove_where-SameNames (is_expired settings now) (connection_ids m) m
