-- ===== src/ConnectionManager/Inv/Pool.antt =====
-- Creation, removal and maintenance of src/ConnectionManager.cpp keep the accounting.
use fast_net.Prelude.{ℕ, ◌≤◌, ◌≡◌, refl, Bool, true, false, arith}
use fast_net.Prelude.{
  Option, none, some, List, [], ◌∷◌, All, ◌==◌, Bool-cases, inl, inr, if◌then◌else◌,
}
use fast_net.ConnectionManager.State.{
  ConnectionInfo, ServiceState, Settings, ConnectionManager, find_connection, erase_connection,
  service_of,
}
use fast_net.ConnectionManager.Pool.{
  decrement, without, is_idle, idle_of, ensured, ensure_service_state, drop_connection,
  remove_connection, remove_if, remove_where, connection_ids, prune_idle_connections, is_expired,
  cleanup_expired_connections, check_service, perform_health_check, maintain,
}
use fast_net.ConnectionManager.Tables.{
  count_of, count_of-erase, length-erase, find_connection-erase_none, find_service-change, Unique,
  Unique-erase, find_connection-erase,
}
use fast_net.ConnectionManager.Inv.{IsValid, IsOwned, All-IsOwned, change_entry-All}
use fast_net.ConnectionManager.Inv.Services.{
  Grows, Grows-same, change_all-IsValid, set_service-IsValid,
}

-- The two counts of the service at a text, as one operation changes both.
removed_counts :
    (k : List ℕ) (id : ℕ) (info : ConnectionInfo) (m : ConnectionManager)
    → find_connection id m.connections ≡ some info
    → (service_of k m).total_connections ≡ count_of k m.connections
    → ((service_of k (remove_connection id info m)).total_connections
        ≡ count_of k (remove_connection id info m).connections)
      × ((service_of k (remove_connection id info m)).max_pool_size
          ≡ (service_of k m).max_pool_size)
      × ((service_of k (remove_connection id info m)).total_connections
          ≤ (service_of k m).total_connections)
unfolding service_of remove_connection drop_connection decrement
removed_counts k id info m h e = ground (
  arith,
  count_of-erase k id m.connections,
  find_service-change k info.service (drop_connection id info) m.services,
)

pub All-without : (P : ℕ → Type 0) (id : ℕ) (ids : List ℕ) → All P ids → All P (without id ids)
unfolding without
All-without P id [] h = tt
All-without P id (x ∷ ids) (p, h) = elim (Bool-cases (x == id)) [
  | inl same ↦ rw same (All-without P id ids h)
  | inr other ↦ rw other (p, All-without P id ids h)
]

erased-IsOwned :
    (k : List ℕ) (next id j : ℕ) (l : List (ℕ × ConnectionInfo))
    → Unique l
    → IsOwned k next l j
    → IsOwned k next (erase_connection id l) j
erased-IsOwned k next id j l u o = record {
  issued = o.issued;
  own = λ i f. ground (arith, find_connection-erase j id l u, o.own i);
}

pub remove_connection-IsValid :
    (n id : ℕ) (info : ConnectionInfo) (m : ConnectionManager)
    → find_connection id m.connections ≡ some info
    → IsValid n m
    → IsValid n (remove_connection id info m)
unfolding remove_connection drop_connection service_of
remove_connection-IsValid n id info m h v =
    let next = m.next_connection_id in
    record {
      counted = λ k. (removed_counts k id info m h (v.counted k)).0;
      bounded = λ k. omega (arith, removed_counts k id info m h (v.counted k), v.bounded k);
      owned = λ k.
          let Kept = IsOwned k next (erase_connection id m.connections) in
          change_entry-All Kept k info.service (drop_connection id info) m.services
            (λ _ s. All-without Kept id s.idle_connections)
            (All-IsOwned k next next m.connections (erase_connection id m.connections)
              (λ j. erased-IsOwned k next id j m.connections v.unique)
              (service_of k m).idle_connections (v.owned k));
      fresh = λ j above. find_connection-erase_none j id m.connections (v.fresh j above);
      unique = Unique-erase id m.connections v.unique;
      room = omega (arith, v.room, length-erase id m.connections);
      small = v.small;
    }

remove_if-IsValid :
    (n id : ℕ) (test : ConnectionInfo → Bool) (o : Option ConnectionInfo) (m : ConnectionManager)
    → find_connection id m.connections ≡ o
    → IsValid n m
    → IsValid n (remove_if test id o m)
remove_if-IsValid n id test none m h v = v
remove_if-IsValid n id test (some info) m h v =
    kept (test info) (remove_connection-IsValid n id info m h v)
  where
    kept :
        (t : Bool)
        → IsValid n (remove_connection id info m)
        → IsValid n (if t then remove_connection id info m else m)
    kept true w = w
    kept false w = v

pub remove_where-IsValid :
    (n : ℕ) (test : ConnectionInfo → Bool) (ids : List ℕ) (m : ConnectionManager)
    → IsValid n m
    → IsValid n (remove_where test ids m)
unfolding remove_where
remove_where-IsValid n test [] m v = v
remove_where-IsValid n test (id ∷ ids) m v =
    remove_where-IsValid n test ids (remove_if test id (find_connection id m.connections) m)
      (remove_if-IsValid n id test (find_connection id m.connections) m refl v)

All-idle_of :
    (P : ℕ → Type 0) (l : List (ℕ × ConnectionInfo)) (ids : List ℕ)
    → All P ids
    → All P (idle_of l ids)
unfolding idle_of
All-idle_of P l [] h = tt
All-idle_of P l (id ∷ ids) (p, h) = elim (Bool-cases (is_idle (find_connection id l))) [
  | inl kept ↦ rw kept (p, All-idle_of P l ids h)
  | inr gone ↦ rw gone (All-idle_of P l ids h)
]

pub maintain-IsValid :
    (n : ℕ) (settings : Settings) (now : ℕ) (m : ConnectionManager)
    → IsValid n m
    → IsValid n (maintain settings now m)
unfolding maintain cleanup_expired_connections perform_health_check check_service
    prune_idle_connections
maintain-IsValid n settings now m v =
    let removed = remove_where (is_expired settings now) (connection_ids m) m in
    let cleaned = cleanup_expired_connections settings now m in
    change_all-IsValid n cleaned (check_service settings now cleaned.connections)
      (λ s. (refl, omega arith, λ P. All-idle_of P cleaned.connections s.idle_connections))
      (change_all-IsValid n removed (prune_idle_connections removed.connections)
        (λ s. (refl, omega arith, λ P. All-idle_of P removed.connections s.idle_connections))
        (remove_where-IsValid n (is_expired settings now) (connection_ids m) m v))

ensured-Grows : (settings : Settings) (s : ServiceState) → Grows s (ensured settings s)
unfolding ensured
ensured-Grows settings s = elim (Bool-cases (s.max_pool_size == 0)) [
  | inl new ↦ rw new (refl, ground arith, λ P h. h)
  | inr old ↦ rw old (Grows-same s)
]

pub ensure_service_state-IsValid :
    (n : ℕ) (settings : Settings) (service : List ℕ) (m : ConnectionManager)
    → IsValid n m
    → IsValid n (ensure_service_state settings service m)
unfolding ensure_service_state
ensure_service_state-IsValid n settings service m v =
    set_service-IsValid n m service (ensured settings (service_of service m))
      (ensured-Grows settings (service_of service m)) v
