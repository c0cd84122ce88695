-- ===== src/ConnectionManager/Inv.antt =====
-- The invariant of the tables of src/ConnectionManager.cpp, and what keeps it when they change.
pub mod Services
pub mod Pool
pub mod Create
pub mod Idle
pub mod Acquire
pub mod Release
pub mod Backends
use fast_net.Prelude.{
  ℕ, suc, ◌+◌, ◌%◌, ◌^◌, ◌≤◌, ◌<◌, ◌≡◌, refl, ap, sym, ◌∙◌, subst, Bool, true, false, arith,
}
use fast_net.Prelude.{
  Option, none, some, List, [], ◌∷◌, length, All, ◌==◌, if◌then◌else◌, same_text, same_text_iff,
  Bool-cases, inl, inr,
}
use fast_net.ConnectionManager.State.{
  ConnectionInfo, ServiceState, ConnectionManager, find_connection, assign_connection,
  erase_connection, find_service, assign_service, change_entry, change_service, change_all, or_new,
  new_service, service_of, new_manager, set_service, increment,
}
use fast_net.ConnectionManager.Tables.{
  count_of, share, present, changed, find_connection-assign, count_of-assign, length-assign,
  count_of-erase, length-erase, find_connection-erase_none, count_of-le-length, find_service-assign,
  find_service-change, find_service-change_all, Unique, Unique-assign,
}

-- An idle identifier has been handed out, and its connection is one of the service.
pub record IsOwned (k : List ℕ) (next : ℕ) (l : List (ℕ × ConnectionInfo)) (id : ℕ) : Type 0 where
  pub issued : id < next
  pub own : (info : ConnectionInfo) → find_connection id l ≡ some info → info.service ≡ k

-- Each service counts its connections, within its limit; the identifiers that are left are
-- fresh, at most `n` have been reached, and each entry has its own.
pub record IsValid (n : ℕ) (m : ConnectionManager) : Type 0 where
  pub counted : (k : List ℕ) → (service_of k m).total_connections ≡ count_of k m.connections
  pub bounded : (k : List ℕ) → (service_of k m).total_connections ≤ (service_of k m).max_pool_size
  pub owned :
      (k : List ℕ)
      → All (IsOwned k m.next_connection_id m.connections) (service_of k m).idle_connections
  pub fresh : (id : ℕ) → m.next_connection_id ≤ id → find_connection id m.connections ≡ none
  pub unique : Unique m.connections
  pub room : length m.connections < m.next_connection_id
  pub small : m.next_connection_id ≤ n

pub new_manager-IsValid : IsValid 1 new_manager
unfolding service_of find_service find_connection count_of Unique
new_manager-IsValid = record {
  counted = λ k. refl;
  bounded = λ k. omega arith;
  owned = λ k. tt;
  fresh = λ id above. refl;
  unique = tt;
  room = omega arith;
  small = omega arith;
}

pub IsValid-le : (n p : ℕ) (m : ConnectionManager) → n ≤ p → IsValid n m → IsValid p m
IsValid-le n p m h v = record {
  counted = v.counted;
  bounded = v.bounded;
  owned = v.owned;
  fresh = v.fresh;
  unique = v.unique;
  room = v.room;
  small = omega (arith, v.small);
}

-- What all idle identifiers keep when the table or the next identifier changes.
pub All-IsOwned :
    (k : List ℕ) (next after : ℕ) (l new : List (ℕ × ConnectionInfo))
    → ((id : ℕ) → IsOwned k next l id → IsOwned k after new id)
    → (ids : List ℕ) → All (IsOwned k next l) ids
    → All (IsOwned k after new) ids
All-IsOwned k next after l new f [] h = tt
All-IsOwned k next after l new f (id ∷ ids) (p, h) =
    (f id p, All-IsOwned k next after l new f ids h)

-- The idle identifiers of a service once one service is changed.
pub change_entry-All :
    (P : ℕ → Type 0) (k service : List ℕ) (f : ServiceState → ServiceState)
    (l : List (List ℕ × ServiceState))
    → (same_text service k ≡ true
        → (s : ServiceState) → All P s.idle_connections
        → All P (f s).idle_connections)
    → All P (or_new (find_service k l)).idle_connections
    → All P (or_new (find_service k (change_entry service f l))).idle_connections
change_entry-All P k service f l keep h =
    rw (find_service-change k service f l) (elim (Bool-cases (same_text service k)) [
      | inl same ↦ rw same (at_one (find_service k l) (keep same) h)
      | inr other ↦ rw other h
    ])
  where
    at_one :
        (o : Option ServiceState)
        → ((s : ServiceState) → All P s.idle_connections → All P (f s).idle_connections)
        → All P (or_new o).idle_connections
        → All P (or_new (changed f o)).idle_connections
    at_one none g a = tt
    at_one (some t) g a = g t a

-- An entry of the table is replaced by one of the same service.
pub assign_connection-IsValid :
    (n id : ℕ) (old info : ConnectionInfo) (m : ConnectionManager)
    → find_connection id m.connections ≡ some old
    → info.service ≡ old.service
    → IsValid n m
    → IsValid n (record m { connections = assign_connection id info m.connections })
unfolding service_of
assign_connection-IsValid n id old info m h e v =
    let next = m.next_connection_id in
    let new = assign_connection id info m.connections in
    record {
      counted = λ k.
          ground (
            arith,
            v.counted k,
            count_of-assign k id info m.connections,
            ap (λ t. same_text t k) e,
          );
      bounded = v.bounded;
      owned = λ k.
          All-IsOwned k next next m.connections new
            (λ j o. record {
              issued = o.issued;
              own = λ i f.
                  ground
                    (arith, find_connection-assign j id info m.connections, o.own i, o.own old);
            })
            (service_of k m).idle_connections (v.owned k);
      fresh = λ j above.
          ground
            (arith, find_connection-assign j id info m.connections, v.fresh j above, v.fresh id);
      unique = Unique-assign id info m.connections v.unique;
      room = ground (arith, v.room, length-assign id info m.connections);
      small = v.small;
    }
