-- ===== src/ConnectionManager/Inv/Services.antt =====
-- Changes of services that keep the invariant of the tables of src/ConnectionManager.cpp.
use fast_net.Prelude.{ℕ, ◌≤◌, ◌≡◌, refl, sym, ◌∙◌, subst, arith}
use fast_net.Prelude.{Option, none, some, List, All, same_text, same_text_iff, Bool-cases, inl, inr}
use fast_net.ConnectionManager.State.{
  ServiceState, ConnectionManager, find_service, assign_service, change_entry, change_service,
  change_all, or_new, new_service, service_of, set_service,
}
use fast_net.ConnectionManager.Tables.{
  changed, find_service-assign, find_service-change, find_service-change_all,
}
use fast_net.ConnectionManager.Inv.{IsValid, IsOwned}

-- A change of the state of a service that leaves the count, no smaller limit and no new idle
-- identifiers.
abbrev pub Grows : ServiceState → ServiceState → Type 1
Grows s t =
    (t.total_connections ≡ s.total_connections)
    × (s.max_pool_size ≤ t.max_pool_size)
    × ((P : ℕ → Type 0) → All P s.idle_connections → All P t.idle_connections)

pub alike-Grows :
    (s t : ServiceState)
    → t.total_connections ≡ s.total_connections
    → t.max_pool_size ≡ s.max_pool_size
    → t.idle_connections ≡ s.idle_connections
    → Grows s t
alike-Grows s t e f g = (e, omega arith, λ P h. subst (All P) (sym g) h)

pub Grows-same : (s : ServiceState) → Grows s s
Grows-same s = (refl, omega arith, λ P h. h)

pub services-IsValid :
    (n : ℕ) (m : ConnectionManager) (l : List (List ℕ × ServiceState)) (pending : ℕ)
    → ((k : List ℕ) → Grows (service_of k m) (or_new (find_service k l)))
    → IsValid n m
    → IsValid n (record m { services = l; pending_requests = pending })
unfolding service_of
services-IsValid n m l pending g v = record {
  counted = λ k. (g k).0 ∙ v.counted k;
  bounded = λ k. omega (arith, (g k).0, (g k).1, v.bounded k);
  owned = λ k. (g k).2 (IsOwned k m.next_connection_id m.connections) (v.owned k);
  fresh = v.fresh;
  unique = v.unique;
  room = v.room;
  small = v.small;
}

-- Where one service is changed, by what the change is at that service.
changed-Grows :
    (f : ServiceState → ServiceState) (o : Option ServiceState)
    → Grows (or_new o) (f (or_new o))
    → Grows (or_new o) (or_new (changed f o))
changed-Grows f none g = Grows-same new_service
changed-Grows f (some s) g = g

change_entry-Grows :
    (k service : List ℕ) (f : ServiceState → ServiceState) (l : List (List ℕ × ServiceState))
    → Grows (or_new (find_service service l)) (f (or_new (find_service service l)))
    → Grows (or_new (find_service k l)) (or_new (find_service k (change_entry service f l)))
change_entry-Grows k service f l g =
    rw (find_service-change k service f l) (elim (Bool-cases (same_text service k)) [
      | inl same ↦ rw same (
          changed-Grows f (find_service k l) (
            subst (λ j. Grows (or_new (find_service j l)) (f (or_new (find_service j l))))
              ((same_text_iff service k).0 same) g))
      | inr other ↦ rw other (Grows-same (or_new (find_service k l)))
    ])

pub change_service-IsValid :
    (n : ℕ) (m : ConnectionManager) (service : List ℕ) (f : ServiceState → ServiceState)
    → Grows (service_of service m) (f (service_of service m))
    → IsValid n m
    → IsValid n (change_service service f m)
unfolding service_of
change_service-IsValid n m service f g v =
    services-IsValid n m (change_entry service f m.services) m.pending_requests
      (λ k. change_entry-Grows k service f m.services g) v

pub change_all-IsValid :
    (n : ℕ) (m : ConnectionManager) (f : ServiceState → ServiceState)
    → ((s : ServiceState) → Grows s (f s))
    → IsValid n m
    → IsValid n (record m { services = change_all f m.services })
unfolding service_of
change_all-IsValid n m f g v =
    services-IsValid n m (change_all f m.services) m.pending_requests
      (λ k.
        rw (find_service-change_all k f m.services)
          (changed-Grows f (find_service k m.services) (g (or_new (find_service k m.services)))))
      v

assign_service-Grows :
    (k service : List ℕ) (t : ServiceState) (l : List (List ℕ × ServiceState))
    → Grows (or_new (find_service service l)) t
    → Grows (or_new (find_service k l)) (or_new (find_service k (assign_service service t l)))
assign_service-Grows k service t l g =
    rw (find_service-assign k service t l) (elim (Bool-cases (same_text service k)) [
      | inl same ↦
          rw same
            (subst (λ j. Grows (or_new (find_service j l)) t) ((same_text_iff service k).0 same) g)
      | inr other ↦ rw other (Grows-same (or_new (find_service k l)))
    ])

pub set_service-IsValid :
    (n : ℕ) (m : ConnectionManager) (service : List ℕ) (t : ServiceState)
    → Grows (service_of service m) t
    → IsValid n m
    → IsValid n (set_service service t m)
unfolding service_of
set_service-IsValid n m service t g v =
    services-IsValid n m (assign_service service t m.services) m.pending_requests
      (λ k. assign_service-Grows k service t m.services g) v

pub pending_requests-IsValid :
    (n pending : ℕ) (m : ConnectionManager)
    → IsValid n m
    → IsValid n (record m { pending_requests = pending })
unfolding service_of
pending_requests-IsValid n pending m v =
    services-IsValid n m m.services pending (λ k. Grows-same (service_of k m)) v
