-- ===== src/ConnectionManager/Weights/Range.antt =====
-- The weights of src/ConnectionManager.cpp are ints: when their sums fit.
use fast_net.Prelude.{ℕ, zero, suc, ◌+◌, ◌*◌, ◌≤◌, ◌≡◌, refl, arith}
use fast_net.Prelude.{Option, none, some, List, [], ◌∷◌, All, length, if◌then◌else◌, set}
use fast_net.Prelude.{ℤ, pos, pos_part, neg_part, ◌+ℤ◌, ◌-ℤ◌}
use fast_net.ConnectionManager.State.{
  BackendServer, LoadBalancingStrategy, LoadBalancingStrategy.round_robin,
  LoadBalancingStrategy.random, LoadBalancingStrategy.least_connections,
  LoadBalancingStrategy.weighted_round_robin, LoadBalancingStrategy.ip_hash, ServiceState,
  at_least_one,
}
use fast_net.ConnectionManager.Select.{
  backend_at, healthy_backends, is_better, add_weight, weigh, pay, take_turn, choose,
  select_backend,
}

-- Weights up to `limit`, and current weights up to `bound` on either side of zero.
abbrev pub IsBounded : ℕ → ℕ → BackendServer → Type 0
IsBounded limit bound b =
    (pos_part b.weight ≤ limit)
    × (pos_part b.current_weight ≤ bound)
    × (neg_part b.current_weight ≤ bound)

pub IsBounded-le :
    (limit m n : ℕ) (l : List BackendServer)
    → m ≤ n
    → All (IsBounded limit m) l
    → All (IsBounded limit n) l
IsBounded-le limit m n [] h a = tt
IsBounded-le limit m n (b ∷ l) h (p, a) = (omega (arith, p), IsBounded-le limit m n l h a)

All-set :
    (P : BackendServer → Type 0) (l : List BackendServer) (i : ℕ) (b : BackendServer)
    → All P l
    → P b
    → All P (set l i b)
All-set P [] i b a p = tt
All-set P (c ∷ l) zero b a p = (p, a.1)
All-set P (c ∷ l) (suc i) b a p = (a.0, All-set P l i b a.1 p)

backend_at-IsBounded :
    (limit bound : ℕ) (l : List BackendServer) (i : ℕ)
    → 1 ≤ limit
    → All (IsBounded limit bound) l
    → IsBounded limit bound (backend_at l i)
backend_at-IsBounded limit bound [] i h a = omega (arith, h)
backend_at-IsBounded limit bound (b ∷ l) zero h a = a.0
backend_at-IsBounded limit bound (b ∷ l) (suc i) h a = backend_at-IsBounded limit bound l i h a.1

at_least_one-bound :
    (limit : ℕ) (w : ℤ)
    → 1 ≤ limit
    → pos_part w ≤ limit
    → (pos_part (at_least_one w) ≤ limit) × (neg_part (at_least_one w) ≡ 0)
unfolding at_least_one
at_least_one-bound limit w h k = ground arith

add-bound :
    (a b : ℤ) (m n : ℕ)
    → pos_part a ≤ m
    → neg_part a ≤ m
    → pos_part b ≤ n
    → neg_part b ≡ 0
    → (pos_part (a +ℤ b) ≤ m + n) × (neg_part (a +ℤ b) ≤ m)
unfolding ◌+ℤ◌
add-bound a b m n h0 h1 h2 h3 = ground arith

sub-bound :
    (a b : ℤ) (m n : ℕ)
    → pos_part a ≤ m
    → neg_part a ≤ m
    → pos_part b ≤ n
    → neg_part b ≡ 0
    → (pos_part (a -ℤ b) ≤ m) × (neg_part (a -ℤ b) ≤ m + n)
unfolding ◌-ℤ◌
sub-bound a b m n h0 h1 h2 h3 = ground arith

-- The loop over `l`: the current weights that it leaves, each of which it writes once where `l`
-- names it once, and the total, which only grows.
pub weigh-IsBounded :
    (l : List ℕ) (backends : List BackendServer) (best : Option ℕ) (total : ℤ) (limit m n : ℕ)
    → 1 ≤ limit
    → All (IsBounded limit m) backends
    → pos_part total ≤ n
    → neg_part total ≡ 0
    → All (IsBounded limit (m + length l * limit)) (weigh l backends best total).0
      × (pos_part (weigh l backends best total).1.1 ≤ n + length l * limit)
      × (neg_part (weigh l backends best total).1.1 ≡ 0)
unfolding weigh
weigh-IsBounded [] backends best total limit m n one a h k =
    (IsBounded-le limit m (m + 0 * limit) backends (omega arith) a, omega (arith, h), k)
weigh-IsBounded (i ∷ l) backends best total limit m n one a h k =
    let b = backend_at backends i in
    let effective = at_least_one b.weight in
    let (w, up, down) = backend_at-IsBounded limit m backends i one a in
    let (small, whole) = at_least_one-bound limit b.weight one w in
    let (up', down') = add-bound b.current_weight effective m limit up down small whole in
    let added = set backends i (add_weight effective b) in
    let sum = total_bound total effective n limit h k small whole in
    let (rest, more, none_below) =
      weigh-IsBounded l added (if is_better added i best then some i else best) (total +ℤ effective)
        limit (m + limit) (n + limit) one
        (All-set (IsBounded limit (m + limit)) backends i (add_weight effective b)
          (IsBounded-le limit m (m + limit) backends (omega arith) a)
          (w, up', omega (arith, down')))
        sum.0 sum.1 in
    let grown : (x : ℕ) → x + limit + length l * limit ≡ x + suc (length l) * limit =
      λ x. omega arith in
    (
      IsBounded-le limit (m + limit + length l * limit) (m + suc (length l) * limit) _
          (omega (arith, grown m)) rest,
      omega (arith, more, grown n),
      none_below,
    )
  where
    total_bound :
        (a b : ℤ) (n limit : ℕ)
        → pos_part a ≤ n
        → neg_part a ≡ 0
        → pos_part b ≤ limit
        → neg_part b ≡ 0
        → (pos_part (a +ℤ b) ≤ n + limit) × (neg_part (a +ℤ b) ≡ 0)
    total_bound a b n limit h k p q = unfold ◌+ℤ◌ in ground arith

pub pay-IsBounded :
    (backends : List BackendServer) (best : Option ℕ) (total : ℤ) (limit m n : ℕ)
    → 1 ≤ limit
    → All (IsBounded limit m) backends
    → pos_part total ≤ n
    → neg_part total ≡ 0
    → All (IsBounded limit (m + n)) (pay (backends, (best, total)))
pay-IsBounded backends none total limit m n one a h k =
    IsBounded-le limit m (m + n) backends (omega arith) a
pay-IsBounded backends (some best) total limit m n one a h k =
    let b = backend_at backends best in
    let (w, up, down) = backend_at-IsBounded limit m backends best one a in
    let (up', down') = sub-bound b.current_weight total m n up down h k in
    All-set (IsBounded limit (m + n)) backends best
      (record b { current_weight = b.current_weight -ℤ total })
      (IsBounded-le limit m (m + n) backends (omega arith) a) (w, omega (arith, up'), down')

pub length-healthy_backends :
    (i : ℕ) (backends : List BackendServer) → length (healthy_backends i backends) ≤ length backends
unfolding healthy_backends
length-healthy_backends i [] = omega arith
length-healthy_backends i (b ∷ backends) = ground (arith, length-healthy_backends (i + 1) backends)

times_le : (k n limit : ℕ) → k ≤ n → k * limit ≤ n * limit
times_le zero n limit h = omega arith
times_le (suc k) zero limit h = absurd (omega arith)
times_le (suc k) (suc n) limit h = omega (arith, times_le k n limit (omega arith))

-- The sums of a loop over as many backends as there are at most.
pub weigh_room :
    (l : List ℕ) (s : ServiceState) (limit bound : ℕ)
    → 1 ≤ limit
    → All (IsBounded limit bound) s.backends
    → length l ≤ length s.backends
    → All (IsBounded limit (bound + length s.backends * limit)) (weigh l s.backends none (pos 0)).0
      × (pos_part (weigh l s.backends none (pos 0)).1.1 ≤ length s.backends * limit)
      × (neg_part (weigh l s.backends none (pos 0)).1.1 ≡ 0)
weigh_room l s limit bound one a h =
    let (each, total, whole) =
      weigh-IsBounded l s.backends none (pos 0) limit bound 0 one a (omega arith) refl in
    let few = times_le (length l) (length s.backends) limit h in
    (
      IsBounded-le limit (bound + length l * limit) (bound + length s.backends * limit) _
          (omega (arith, few)) each,
      omega (arith, total, few),
      whole,
    )

pub select_backend-IsBounded :
    (hash : List ℕ → ℕ) (draw : ℕ → ℕ) (affinity_key : List ℕ) (s : ServiceState) (limit bound : ℕ)
    → 1 ≤ limit
    → All (IsBounded limit bound) s.backends
    → All
        (IsBounded limit (bound + length s.backends * limit + length s.backends * limit))
        (select_backend hash draw affinity_key s).1.backends
unfolding select_backend choose take_turn
select_backend-IsBounded hash draw affinity_key s limit bound one a =
    chosen s.strategy (healthy_backends 0 s.backends) affinity_key
      (length-healthy_backends 0 s.backends)
  where
    room : ℕ
    room = bound + length s.backends * limit + length s.backends * limit

    same : All (IsBounded limit room) s.backends
    same = IsBounded-le limit bound room s.backends (omega arith) a

    chosen :
        (strategy : LoadBalancingStrategy) (l key : List ℕ)
        → length l ≤ length s.backends
        → All (IsBounded limit room) (choose hash draw strategy l key s).1.backends
    chosen round_robin [] key h = same
    chosen random [] key h = same
    chosen least_connections [] key h = same
    chosen weighted_round_robin [] key h = same
    chosen ip_hash [] key h = same
    chosen round_robin (i ∷ l) key h = same
    chosen random (i ∷ l) key h = same
    chosen least_connections (i ∷ l) key h = same
    chosen weighted_round_robin (i ∷ l) key h =
        let (each, total, whole) = weigh_room (i ∷ l) s limit bound one a h in
        pay-IsBounded (weigh (i ∷ l) s.backends none (pos 0)).0
          (weigh (i ∷ l) s.backends none (pos 0)).1.0 (weigh (i ∷ l) s.backends none (pos 0)).1.1
          limit (bound + length s.backends * limit) (length s.backends * limit) one each total whole
    chosen ip_hash (i ∷ l) [] h = same
    chosen ip_hash (i ∷ l) (c ∷ key) h = same
