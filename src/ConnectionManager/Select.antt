-- ===== src/ConnectionManager/Select.antt =====
-- `selectBackendLocked` of src/ConnectionManager.cpp. A pointer to a backend is its index.
use fast_net.Prelude.{ℕ, ◌+◌, ◌%◌, Bool, true, false, ◌&&◌, ◌||◌, ℤ, pos, ◌+ℤ◌, ◌-ℤ◌, ltb_ℤ}
use fast_net.Prelude.{Option, none, some, List, [], ◌∷◌, length, get_elem?, get_or, set, is_empty}
use fast_net.Prelude.{ltb, ◌==◌, if◌then◌else◌}
use fast_net.ConnectionManager.State.{
  BackendServer, LoadBalancingStrategy, LoadBalancingStrategy.round_robin,
  LoadBalancingStrategy.random, LoadBalancingStrategy.least_connections,
  LoadBalancingStrategy.weighted_round_robin, LoadBalancingStrategy.ip_hash, ServiceState,
  increment, at_least_one,
}

-- The initial values of the members of `BackendServer`.
abbrev pub new_backend : BackendServer
new_backend = record {
  host = [];
  port = 0;
  weight = pos 1;
  healthy = true;
  active_connections = 0;
  failure_count = 0;
  current_weight = pos 0;
  last_check_time = 0;
  last_failure_time = 0;
}

-- The backend that a pointer points to.
abbrev pub backend_at : List BackendServer → ℕ → BackendServer
backend_at backends i = get_or backends i new_backend

-- The pointers to the healthy ones among the backends from the index on.
unfoldable pub healthy_backends : ℕ → List BackendServer → List ℕ
healthy_backends i [] = []
healthy_backends i (b ∷ backends) =
    let rest = healthy_backends (i + 1) backends in if b.healthy then i ∷ rest else rest

unfoldable pub equal_ℤ : ℤ → ℤ → Bool
equal_ℤ a b = if ltb_ℤ a b then false else if ltb_ℤ b a then false else true

-- The order that `min_element` is given.
unfoldable pub has_less_load : BackendServer → BackendServer → Bool
has_less_load l r =
    if l.active_connections == r.active_connections
    then ltb_ℤ r.weight l.weight
    else ltb l.active_connections r.active_connections

-- `std::min_element`, from the pointer that is the least so far.
unfoldable pub least_loaded : List BackendServer → ℕ → List ℕ → ℕ
least_loaded backends best [] = best
least_loaded backends best (i ∷ rest) =
    least_loaded backends
      (if has_less_load (backend_at backends i) (backend_at backends best) then i else best) rest

unfoldable pub is_better : List BackendServer → ℕ → Option ℕ → Bool
unfolding equal_ℤ
is_better backends i none = true
is_better backends i (some best) =
    let b = backend_at backends i in
    let c = backend_at backends best in
    ltb_ℤ c.current_weight b.current_weight
    || equal_ℤ b.current_weight c.current_weight && ltb b.active_connections c.active_connections

abbrev pub add_weight : ℤ → BackendServer → BackendServer
add_weight weight b = record b { current_weight = b.current_weight +ℤ weight }

-- The loop of the weighted strategy: the backends, the best of them and the total weight.
unfoldable pub weigh :
    List ℕ → List BackendServer → Option ℕ → ℤ → List BackendServer × (Option ℕ × ℤ)
unfolding at_least_one is_better
weigh [] backends best total = (backends, (best, total))
weigh (i ∷ rest) backends best total =
    let b = backend_at backends i in
    let effective = at_least_one b.weight in
    let added = set backends i (add_weight effective b) in
    weigh rest added (if is_better added i best then some i else best) (total +ℤ effective)

abbrev pub pay : List BackendServer × (Option ℕ × ℤ) → List BackendServer
pay (backends, (none, total)) = backends
pay (backends, (some best, total)) =
    let b = backend_at backends best in
    set backends best (record b { current_weight = b.current_weight -ℤ total })

-- The next pointer in turn.
unfoldable pub take_turn : List ℕ → ServiceState → Option ℕ × ServiceState
take_turn healthy s = (
  get_elem? healthy (s.round_robin_index % length healthy),
  record s { round_robin_index = increment s.round_robin_index },
)

-- `hash` is `std::hash` on texts, and `draw n` what the distribution over the numbers below `n`
-- gives.
unfoldable pub choose :
    (List ℕ → ℕ)
    → (ℕ → ℕ)
    → LoadBalancingStrategy
    → List ℕ
    → List ℕ
    → ServiceState
    → Option ℕ × ServiceState
unfolding take_turn
choose hash draw strategy [] affinity_key s = (none, s)
choose hash draw random (i ∷ healthy) affinity_key s =
    (get_elem? (i ∷ healthy) (draw (length (i ∷ healthy))), s)
choose hash draw least_connections (i ∷ healthy) affinity_key s =
    (some (least_loaded s.backends i healthy), s)
choose hash draw weighted_round_robin (i ∷ healthy) affinity_key s =
    let weighed = weigh (i ∷ healthy) s.backends none (pos 0) in
    (weighed.1.0, record s { backends = pay weighed })
choose hash draw ip_hash (i ∷ healthy) affinity_key s =
    if is_empty affinity_key
    then take_turn (i ∷ healthy) s
    else (get_elem? (i ∷ healthy) (hash affinity_key % length (i ∷ healthy)), s)
choose hash draw round_robin (i ∷ healthy) affinity_key s = take_turn (i ∷ healthy) s

unfoldable pub select_backend :
    (List ℕ → ℕ) → (ℕ → ℕ) → List ℕ → ServiceState → Option ℕ × ServiceState
unfolding choose healthy_backends
select_backend hash draw affinity_key s =
    choose hash draw s.strategy (healthy_backends 0 s.backends) affinity_key s
