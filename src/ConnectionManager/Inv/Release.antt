-- ===== src/ConnectionManager/Inv/Release.antt =====
-- `releaseConnection`, `closeConnection` and `cleanup` of src/ConnectionManager.cpp keep the
-- accounting.
use fast_net.Prelude.{
  ℕ, ◌≡◌, refl, Bool, true, false, arith, Option, none, some, List, [], ◌∷◌, ◌++◌, ◌∙◌, All-append,
}
use fast_net.Prelude.{same_text_iff}
use fast_net.Prelude.{if◌then◌else◌}
use fast_net.ConnectionManager.State.{
  BackendServer, ConnectionInfo, ServiceState, ConnectionManager, find_connection,
  assign_connection, find_service, find_backend, service_of, change_backend, change_service,
}
use fast_net.ConnectionManager.Pool.{remove_connection, lose}
use fast_net.ConnectionManager.Acquire.{
  park, release_backend, release_service, release_found, release_connection, close_found,
  close_connection, clean_up,
}
use fast_net.ConnectionManager.Tables.{
  count_of, Unique, find_connection-assign, find_service-change,
}
use fast_net.ConnectionManager.Inv.{IsValid, IsOwned, change_entry-All, assign_connection-IsValid}
use fast_net.ConnectionManager.Inv.Pool.{remove_connection-IsValid}

pub IsValid-if :
    (n : ℕ) (t : Bool) (x y : ConnectionManager)
    → IsValid n x
    → IsValid n y
    → IsValid n (if t then x else y)
IsValid-if n true x y h k = h
IsValid-if n false x y h k = k

abbrev parked : ℕ → ConnectionInfo → ServiceState → ServiceState
parked id info s = record s {
  idle_connections = s.idle_connections ++ id ∷ [];
  backends = change_backend info.remote_host info.remote_port lose s.backends;
}

parked_counts :
    (k : List ℕ) (id : ℕ) (info : ConnectionInfo) (m : ConnectionManager)
    → ((service_of k (change_service info.service (parked id info) m)).total_connections
        ≡ (service_of k m).total_connections)
      × ((service_of k (change_service info.service (parked id info) m)).max_pool_size
          ≡ (service_of k m).max_pool_size)
unfolding service_of
parked_counts k id info m =
    ground (arith, find_service-change k info.service (parked id info) m.services)

joined-IsValid :
    (n id : ℕ) (info : ConnectionInfo) (m : ConnectionManager)
    → find_connection id m.connections ≡ some info
    → IsValid n m
    → IsValid n (change_service info.service (parked id info) m)
unfolding service_of
joined-IsValid n id info m h v = record {
  counted = λ k. (parked_counts k id info m).0 ∙ v.counted k;
  bounded = λ k. omega (arith, parked_counts k id info m, v.bounded k);
  owned = λ k.
      let Own = IsOwned k m.next_connection_id m.connections in
      change_entry-All Own k info.service (parked id info) m.services
        (λ same s a. All-append Own s.idle_connections (id ∷ []) a (
          record {
            issued = ground (arith, v.fresh id);
            own = λ i f. ground (arith, same_text_iff info.service k);
          },
          tt,
        ))
        (v.owned k);
  fresh = v.fresh;
  unique = v.unique;
  room = v.room;
  small = v.small;
}

park-IsValid :
    (n id : ℕ) (info : ConnectionInfo) (now : ℕ) (m : ConnectionManager)
    → find_connection id m.connections ≡ some info
    → IsValid n m
    → IsValid n (park id info now m)
unfolding park
park-IsValid n id info now m h v =
    let idle : ConnectionInfo = record info { is_active = false; last_used = now } in
    let table = assign_connection id idle m.connections in
    joined-IsValid n id idle (record m { connections = table })
      (ground (arith, find_connection-assign id id idle m.connections))
      (assign_connection-IsValid n id info idle m h refl v)

release_backend-IsValid :
    (n : ℕ) (b : Option BackendServer) (id : ℕ) (info : ConnectionInfo) (now : ℕ)
    (m : ConnectionManager)
    → find_connection id m.connections ≡ some info
    → IsValid n m
    → IsValid n (release_backend b id info now m)
unfolding release_backend
release_backend-IsValid n none id info now m h v = remove_connection-IsValid n id info m h v
release_backend-IsValid n (some b) id info now m h v =
    IsValid-if n b.healthy (park id info now m) (remove_connection id info m)
      (park-IsValid n id info now m h v) (remove_connection-IsValid n id info m h v)

release_service-IsValid :
    (n : ℕ) (o : Option ServiceState) (id : ℕ) (info : ConnectionInfo) (now : ℕ)
    (m : ConnectionManager)
    → find_connection id m.connections ≡ some info
    → IsValid n m
    → IsValid n (release_service o id info now m)
unfolding release_service
release_service-IsValid n none id info now m h v = remove_connection-IsValid n id info m h v
release_service-IsValid n (some s) id info now m h v =
    release_backend-IsValid n (find_backend info.remote_host info.remote_port s.backends) id info
      now m h v

release_found-IsValid :
    (n : ℕ) (o : Option ConnectionInfo) (id now : ℕ) (m : ConnectionManager)
    → find_connection id m.connections ≡ o
    → IsValid n m
    → IsValid n (release_found o id now m)
unfolding release_found
release_found-IsValid n none id now m h v = v
release_found-IsValid n (some info) id now m h v =
    IsValid-if n info.is_active _ m
      (release_service-IsValid n (find_service info.service m.services) id info now m h v) v

pub release_connection-IsValid :
    (n id now : ℕ) (m : ConnectionManager) → IsValid n m → IsValid n (release_connection id now m)
unfolding release_connection
release_connection-IsValid n id now m v =
    release_found-IsValid n (find_connection id m.connections) id now m refl v

close_found-IsValid :
    (n : ℕ) (o : Option ConnectionInfo) (id : ℕ) (m : ConnectionManager)
    → find_connection id m.connections ≡ o
    → IsValid n m
    → IsValid n (close_found o id m)
unfolding close_found
close_found-IsValid n none id m h v = v
close_found-IsValid n (some info) id m h v = remove_connection-IsValid n id info m h v

pub close_connection-IsValid :
    (n id : ℕ) (m : ConnectionManager) → IsValid n m → IsValid n (close_connection id m)
unfolding close_connection
close_connection-IsValid n id m v =
    close_found-IsValid n (find_connection id m.connections) id m refl v

pub clean_up-IsValid : (n : ℕ) (m : ConnectionManager) → IsValid n m → IsValid n (clean_up m)
unfolding clean_up service_of find_service find_connection count_of Unique
clean_up-IsValid n m v = record {
  counted = λ k. refl;
  bounded = λ k. omega arith;
  owned = λ k. tt;
  fresh = λ id above. refl;
  unique = tt;
  room = omega (arith, v.room);
  small = v.small;
}
