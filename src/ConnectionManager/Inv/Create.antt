-- ===== src/ConnectionManager/Inv/Create.antt =====
-- `createConnectionLocked` of src/ConnectionManager.cpp keeps the invariant.
use fast_net.Prelude.{ℕ, ◌+◌, ◌^◌, ◌≤◌, ◌<◌, ◌≡◌, refl, subst, arith}
use fast_net.Prelude.{none, List, length, All, same_text_iff}
use fast_net.ConnectionManager.State.{
  ConnectionInfo, ConnectionManager, increment, find_connection, assign_connection, find_service,
  change_entry, or_new, service_of,
}
use fast_net.ConnectionManager.Select.{backend_at}
use fast_net.ConnectionManager.Pool.{new_info, gain_at, create_connection}
use fast_net.ConnectionManager.Tables.{
  count_of, find_connection-assign, count_of-assign, length-assign, count_of-le-length,
  find_service-change, Unique-assign,
}
use fast_net.ConnectionManager.Inv.{IsValid, IsOwned, All-IsOwned, change_entry-All}
use fast_net.ConnectionManager.Inv.Services.{}

-- The counts where there is room for one more connection of the service.
created_counts :
    (k service : List ℕ) (i now : ℕ) (m : ConnectionManager)
    → (service_of k m).total_connections ≡ count_of k m.connections
    → (service_of service m).total_connections < (service_of service m).max_pool_size
    → find_connection m.next_connection_id m.connections ≡ none
    → length m.connections + 1 < 2 ^ 64
    → (service_of k m).total_connections ≤ (service_of k m).max_pool_size
    → ((service_of k (create_connection service i now m).1).total_connections
        ≡ count_of k (create_connection service i now m).1.connections)
      × ((service_of k (create_connection service i now m).1).total_connections
          ≤ (service_of k (create_connection service i now m).1).max_pool_size)
unfolding service_of create_connection
created_counts k service i now m e below h bound within =
    let info =
      new_info m.next_connection_id service (backend_at (service_of service m).backends i) now in
    ground (
      arith,
      count_of-assign k m.next_connection_id info m.connections,
      find_service-change k service (gain_at i) m.services,
      count_of-le-length k m.connections,
      same_text_iff service k,
    )

created-IsOwned :
    (k : List ℕ) (next id j : ℕ) (info : ConnectionInfo) (l : List (ℕ × ConnectionInfo))
    → id ≡ next
    → IsOwned k next l j
    → IsOwned k (next + 1) (assign_connection id info l) j
created-IsOwned k next id j info l e o = record {
  issued = omega (arith, o.issued);
  own = λ i f. ground (arith, find_connection-assign j id info l, o.own i, o.issued);
}

pub create_connection-IsValid :
    (n : ℕ) (service : List ℕ) (i now : ℕ) (m : ConnectionManager)
    → (service_of service m).total_connections < (service_of service m).max_pool_size
    → n + 1 < 2 ^ 64
    → IsValid n m
    → IsValid (n + 1) (create_connection service i now m).1
unfolding create_connection service_of
create_connection-IsValid n service i now m below bound v =
    let id = m.next_connection_id in
    let info = new_info id service (backend_at (service_of service m).backends i) now in
    let new = assign_connection id info m.connections in
    let old = v.fresh id (omega arith) in
    let short : length m.connections + 1 < 2 ^ 64 = omega (arith, v.room, v.small) in
    let next : id + 1 ≡ increment id = omega (arith, v.small) in
    record {
      counted =
          λ k. (created_counts k service i now m (v.counted k) below old short (v.bounded k)).0;
      bounded =
          λ k. (created_counts k service i now m (v.counted k) below old short (v.bounded k)).1;
      owned = λ k.
          subst
            (λ j.
              All (IsOwned k j new)
                (or_new
                  (find_service k (change_entry service (gain_at i) m.services))).idle_connections)
            next
            (change_entry-All (IsOwned k (id + 1) new) k service (gain_at i) m.services (λ _ s h. h)
              (All-IsOwned k id (id + 1) m.connections new
                (λ j. created-IsOwned k id id j info m.connections refl)
                (service_of k m).idle_connections (v.owned k)));
      fresh = λ j above.
          ground (arith, find_connection-assign j id info m.connections, v.fresh j, v.small);
      unique = Unique-assign id info m.connections v.unique;
      room = omega (arith, v.room, v.small, length-assign id info m.connections);
      small = omega (arith, v.small);
    }
