-- ===== src/ConnectionManager/Weights.antt =====
-- The current weights of the backends of src/ConnectionManager.cpp.
pub mod Range
use fast_net.Prelude.{ℕ, zero, suc, ◌+◌, ◌<◌, ◌≡◌, refl, ◌∙◌, arith}
use fast_net.Prelude.{
  Option, none, some, List, [], ◌∷◌, All, length, if◌then◌else◌, set, length-set, Bool-cases, inl,
  inr,
}
use fast_net.Prelude.{ℤ, pos, pos_part, neg_part, ◌+ℤ◌, ◌-ℤ◌, +ℤ_parts, -ℤ_parts, eq_of_parts}
use fast_net.ConnectionManager.State.{
  BackendServer, LoadBalancingStrategy, LoadBalancingStrategy.round_robin,
  LoadBalancingStrategy.random, LoadBalancingStrategy.least_connections,
  LoadBalancingStrategy.weighted_round_robin, LoadBalancingStrategy.ip_hash, ServiceState,
  at_least_one,
}
use fast_net.ConnectionManager.Weights.Range.{
  IsBounded, IsBounded-le, length-healthy_backends, weigh_room, select_backend-IsBounded,
}
use fast_net.Prelude.{◌-◌, ◌*◌, ◌^◌, ◌≤◌, ◌++◌, ap, length-append}
use fast_net.ConnectionManager.Choice.{IsBest, weigh_first-IsBest}
use fast_net.ConnectionManager.Select.{
  backend_at, healthy_backends, is_better, add_weight, weigh, pay, take_turn, choose,
  select_backend,
}

-- The sum of the current weights.
unfoldable pub weight_sum : List BackendServer → ℤ
weight_sum [] = pos 0
weight_sum (b ∷ backends) = b.current_weight +ℤ weight_sum backends

-- The two signed sums are equal.
abbrev pub Balances : ℤ → ℤ → ℤ → ℤ → Type 0
Balances a b c d =
    pos_part a + pos_part b + (neg_part c + neg_part d)
    ≡ pos_part c + pos_part d + (neg_part a + neg_part b)

-- Writing a backend changes the sum by what it changes its weight by.
weight_sum-set :
    (backends : List BackendServer) (i : ℕ) (b : BackendServer)
    → i < length backends
    → Balances
        (weight_sum (set backends i b))
        (backend_at backends i).current_weight
        (weight_sum backends)
        b.current_weight
unfolding weight_sum
weight_sum-set [] i b h = absurd (omega arith)
weight_sum-set (c ∷ backends) zero b h = omega (
  arith,
  +ℤ_parts b.current_weight (weight_sum backends),
  +ℤ_parts c.current_weight (weight_sum backends),
)
weight_sum-set (c ∷ backends) (suc i) b h = omega (
  arith,
  weight_sum-set backends i b (omega arith),
  +ℤ_parts c.current_weight (weight_sum (set backends i b)),
  +ℤ_parts c.current_weight (weight_sum backends),
)

-- The loop adds the same to the sum and to the total.
weigh-Balances :
    (l : List ℕ) (backends : List BackendServer) (best : Option ℕ) (total : ℤ)
    → All (λ i. i < length backends) l
    → Balances
        (weight_sum (weigh l backends best total).0)
        total
        (weight_sum backends)
        (weigh l backends best total).1.1
unfolding weigh
weigh-Balances [] backends best total h = refl
weigh-Balances (i ∷ l) backends best total h =
    let b = backend_at backends i in
    let effective = at_least_one b.weight in
    let added = set backends i (add_weight effective b) in
    omega (
      arith,
      weigh-Balances l added (if is_better added i best then some i else best) (total +ℤ effective)
          (within l added (length-set backends i (add_weight effective b)) h.1),
      weight_sum-set backends i (add_weight effective b) h.0,
      +ℤ_parts b.current_weight effective,
      +ℤ_parts total effective,
    )
  where
    within :
        (l : List ℕ) (added : List BackendServer)
        → length added ≡ length backends
        → All (λ i. i < length backends) l
        → All (λ i. i < length added) l
    within [] added e h = tt
    within (j ∷ l) added e h = (omega arith, within l added e h.1)

weigh-length :
    (l : List ℕ) (backends : List BackendServer) (best : Option ℕ) (total : ℤ)
    → length (weigh l backends best total).0 ≡ length backends
unfolding weigh
weigh-length [] backends best total = refl
weigh-length (i ∷ l) backends best total =
    let effective = at_least_one (backend_at backends i).weight in
    let added = set backends i (add_weight effective (backend_at backends i)) in
    weigh-length l added (if is_better added i best then some i else best) (total +ℤ effective)
    ∙ length-set backends i (add_weight effective (backend_at backends i))

-- The best one pays the total.
pay-Balances :
    (backends : List BackendServer) (best : Option ℕ) (total : ℤ)
    → IsBest (λ i. i < length backends) best
    → Balances (weight_sum (pay (backends, (best, total)))) total (weight_sum backends) (pos 0)
pay-Balances backends none total h = absurd h
pay-Balances backends (some best) total h =
    let b = backend_at backends best in
    omega (
      arith,
      weight_sum-set backends best (record b { current_weight = b.current_weight -ℤ total }) h,
      -ℤ_parts b.current_weight total,
    )

healthy_backends-lt :
    (n i : ℕ) (backends : List BackendServer)
    → i + length backends ≡ n
    → All (λ j. j < n) (healthy_backends i backends)
unfolding healthy_backends
healthy_backends-lt n i [] e = tt
healthy_backends-lt n i (b ∷ backends) e =
    let rest = healthy_backends-lt n (i + 1) backends (omega arith) in
    elim (Bool-cases b.healthy) [
      | inl healthy ↦ rw healthy (omega arith, rest)
      | inr ill ↦ rw ill rest
    ]

weighed_sum :
    (i : ℕ) (l : List ℕ) (backends : List BackendServer)
    → All (λ j. j < length backends) (i ∷ l)
    → weight_sum (pay (weigh (i ∷ l) backends none (pos 0))) ≡ weight_sum backends
weighed_sum i l backends h =
    let r = weigh (i ∷ l) backends none (pos 0) in
    let best = weigh_first-IsBest (λ j. j < length backends) i l backends (pos 0) h.0 h.1 in
    eq_of_parts (weight_sum (pay r)) (weight_sum backends) (
      omega (
        arith,
        weigh-Balances (i ∷ l) backends none (pos 0) h,
        pay-Balances r.0 r.1.0 r.1.1
            (in_range r.1.0 (weigh-length (i ∷ l) backends none (pos 0)) best),
      ))
  where
    in_range :
        (o : Option ℕ)
        → length (weigh (i ∷ l) backends none (pos 0)).0 ≡ length backends
        → IsBest (λ j. j < length backends) o
        → IsBest (λ j. j < length (weigh (i ∷ l) backends none (pos 0)).0) o
    in_range none e h = h
    in_range (some j) e h = omega arith

choose_sum :
    (hash : List ℕ → ℕ) (draw : ℕ → ℕ) (strategy : LoadBalancingStrategy) (l affinity_key : List ℕ)
    (s : ServiceState)
    → All (λ j. j < length s.backends) l
    → weight_sum (choose hash draw strategy l affinity_key s).1.backends ≡ weight_sum s.backends
unfolding choose take_turn
choose_sum hash draw round_robin [] affinity_key s h = refl
choose_sum hash draw random [] affinity_key s h = refl
choose_sum hash draw least_connections [] affinity_key s h = refl
choose_sum hash draw weighted_round_robin [] affinity_key s h = refl
choose_sum hash draw ip_hash [] affinity_key s h = refl
choose_sum hash draw round_robin (i ∷ l) affinity_key s h = refl
choose_sum hash draw random (i ∷ l) affinity_key s h = refl
choose_sum hash draw least_connections (i ∷ l) affinity_key s h = refl
choose_sum hash draw weighted_round_robin (i ∷ l) affinity_key s h = weighed_sum i l s.backends h
choose_sum hash draw ip_hash (i ∷ l) [] s h = refl
choose_sum hash draw ip_hash (i ∷ l) (c ∷ affinity_key) s h = refl

select_backend-sum :
    (hash : List ℕ → ℕ) (draw : ℕ → ℕ) (affinity_key : List ℕ) (s : ServiceState)
    → weight_sum (select_backend hash draw affinity_key s).1.backends ≡ weight_sum s.backends
unfolding select_backend
select_backend-sum hash draw affinity_key s =
    choose_sum hash draw s.strategy (healthy_backends 0 s.backends) affinity_key s
      (healthy_backends-lt (length s.backends) 0 s.backends (omega arith))

-- When the weights are at most a limit that is not zero, the current weights are within a bound on
-- either side of zero, and the bound and twice the limit for each backend make less than 2 ^ 31,
-- then selecting a backend leaves the sum of the current weights of all backends as it was, and no
-- sum of the weighted strategy leaves the range of an int: neither the current weights and the
-- total after any number of rounds of its loop, nor the current weights that it leaves.
pub select_backend-weight_sum :
    (hash : List ℕ → ℕ) (draw : ℕ → ℕ) (affinity_key : List ℕ) (s : ServiceState) (limit bound : ℕ)
    (front rest : List ℕ)
    → 1 ≤ limit
    → All (IsBounded limit bound) s.backends
    → bound + 2 * (length s.backends * limit) < 2 ^ 31
    → front ++ rest ≡ healthy_backends 0 s.backends
    → (weight_sum (select_backend hash draw affinity_key s).1.backends ≡ weight_sum s.backends)
      × All (IsBounded limit (2 ^ 31 - 1)) (weigh front s.backends none (pos 0)).0
      × (pos_part (weigh front s.backends none (pos 0)).1.1 ≤ 2 ^ 31 - 1)
      × (neg_part (weigh front s.backends none (pos 0)).1.1 ≡ 0)
      × All (IsBounded limit (2 ^ 31 - 1)) (select_backend hash draw affinity_key s).1.backends
select_backend-weight_sum hash draw affinity_key s limit bound front rest one a room whole =
    let n = length s.backends * limit in
    let few : length front ≤ length s.backends =
      omega
        (arith, length-append front rest, ap length whole, length-healthy_backends 0 s.backends) in
    let (each, total, positive) = weigh_room front s limit bound one a few in
    (
      select_backend-sum hash draw affinity_key s,
      IsBounded-le limit (bound + n) (2 ^ 31 - 1) _ (omega (arith, room)) each,
      omega (arith, total, room),
      positive,
      IsBounded-le limit (bound + n + n) (2 ^ 31 - 1) _ (omega (arith, room))
          (select_backend-IsBounded hash draw affinity_key s limit bound one a),
    )
