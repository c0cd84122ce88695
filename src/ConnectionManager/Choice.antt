-- ===== src/ConnectionManager/Choice.antt =====
-- Which backend `selectBackendLocked` of src/ConnectionManager.cpp chooses.
use fast_net.Prelude.{ℕ, zero, suc, ◌+◌, ◌<◌, ◌≡◌, refl, ap, ◌∙◌, Bool, true, false, arith}
use fast_net.Prelude.{
  Option, none, some, List, [], ◌∷◌, All, length, get_elem?, if◌then◌else◌, Bool-cases, inl, inr, ℤ,
  pos, ◌+ℤ◌, set,
}
use fast_net.ConnectionManager.State.{
  BackendServer, LoadBalancingStrategy, LoadBalancingStrategy.round_robin,
  LoadBalancingStrategy.random, LoadBalancingStrategy.least_connections,
  LoadBalancingStrategy.weighted_round_robin, LoadBalancingStrategy.ip_hash, ServiceState,
  at_least_one,
}
use fast_net.ConnectionManager.Select.{
  backend_at, healthy_backends, has_less_load, least_loaded, is_better, add_weight, weigh,
  take_turn, choose, select_backend,
}

-- The index points to a healthy backend.
abbrev pub IsHealthyAt : List BackendServer → ℕ → Type 0
IsHealthyAt backends i = (b : BackendServer) × (get_elem? backends i ≡ some b) × (b.healthy ≡ true)

-- What may be returned: a healthy backend, or no pointer where no backend is healthy.
abbrev pub IsChoice : List BackendServer → Option ℕ → Type 0
IsChoice backends none = All (λ b. b.healthy ≡ false) backends
IsChoice backends (some i) = IsHealthyAt backends i

pub healthy_backends-IsHealthyAt :
    (every : List BackendServer) (i : ℕ) (backends : List BackendServer)
    → ((j : ℕ) → get_elem? every (i + j) ≡ get_elem? backends j)
    → All (IsHealthyAt every) (healthy_backends i backends)
unfolding healthy_backends
healthy_backends-IsHealthyAt every i [] f = tt
healthy_backends-IsHealthyAt every i (b ∷ backends) f =
    let rest =
      healthy_backends-IsHealthyAt every (i + 1) backends
        (λ j. ap (get_elem? every) (omega arith) ∙ f (suc j)) in
    elim (Bool-cases b.healthy) [
      | inl healthy ↦ rw healthy ((b, ap (get_elem? every) (omega arith) ∙ f 0, healthy), rest)
      | inr ill ↦ rw ill rest
    ]

healthy_backends-empty :
    (i : ℕ) (backends : List BackendServer)
    → healthy_backends i backends ≡ []
    → All (λ b. b.healthy ≡ false) backends
unfolding healthy_backends
healthy_backends-empty i [] e = tt
healthy_backends-empty i (b ∷ backends) e = elim (Bool-cases b.healthy) [
  | inl healthy ↦ absurd (ground arith)
  | inr ill ↦ (ill, healthy_backends-empty (i + 1) backends (ground arith))
]

-- A pointer in range, of those that are all good.
picked-IsChoice :
    (backends : List BackendServer) (l : List ℕ) (k : ℕ)
    → All (IsHealthyAt backends) l
    → k < length l
    → IsChoice backends (get_elem? l k)
picked-IsChoice backends [] k h lt = absurd (omega arith)
picked-IsChoice backends (i ∷ l) zero h lt = h.0
picked-IsChoice backends (i ∷ l) (suc k) h lt = picked-IsChoice backends l k h.1 (omega arith)

module _ (P : ℕ → Type 0) where
  keep_one : (t : Bool) (i j : ℕ) → P i → P j → P (if t then i else j)
  keep_one true i j p q = p
  keep_one false i j p q = q

  least_loaded-All :
      (backends : List BackendServer) (best : ℕ) (l : List ℕ)
      → P best
      → All P l
      → P (least_loaded backends best l)
  unfolding least_loaded
  least_loaded-All backends best [] p h = p
  least_loaded-All backends best (i ∷ l) p h =
      let less = has_less_load (backend_at backends i) (backend_at backends best) in
      least_loaded-All backends (if less then i else best) l (keep_one less i best h.0 p) h.1

  -- The best one so far is some pointer that was met.
  abbrev pub IsBest : Option ℕ → Type 0
  IsBest none = ⊥
  IsBest (some i) = P i

  keep-IsBest :
      (t : Bool) (i : ℕ) (best : Option ℕ)
      → P i
      → (t ≡ false → IsBest best)
      → IsBest (if t then some i else best)
  keep-IsBest true i best p h = p
  keep-IsBest false i best p h = h refl

  pub weigh-IsBest :
      (l : List ℕ) (backends : List BackendServer) (best : Option ℕ) (total : ℤ)
      → All P l
      → IsBest best
      → IsBest (weigh l backends best total).1.0
  unfolding weigh
  weigh-IsBest [] backends best total h b = b
  weigh-IsBest (i ∷ l) backends best total h b =
      let effective = at_least_one (backend_at backends i).weight in
      let added = set backends i (add_weight effective (backend_at backends i)) in
      weigh-IsBest l added (if is_better added i best then some i else best) (total +ℤ effective)
        h.1 (keep-IsBest (is_better added i best) i best h.0 (λ worse. b))

  pub weigh_first-IsBest :
      (i : ℕ) (l : List ℕ) (backends : List BackendServer) (total : ℤ)
      → P i
      → All P l
      → IsBest (weigh (i ∷ l) backends none total).1.0
  unfolding weigh is_better
  weigh_first-IsBest i l backends total p h =
      let effective = at_least_one (backend_at backends i).weight in
      weigh-IsBest l (set backends i (add_weight effective (backend_at backends i))) (some i)
        (total +ℤ effective) h p

best-IsChoice :
    (backends : List BackendServer) (o : Option ℕ)
    → IsBest (IsHealthyAt backends) o
    → IsChoice backends o
best-IsChoice backends none h = absurd h
best-IsChoice backends (some i) h = h

choose-IsChoice :
    (hash : List ℕ → ℕ) (draw : ℕ → ℕ) (strategy : LoadBalancingStrategy) (i : ℕ) (l : List ℕ)
    (affinity_key : List ℕ) (s : ServiceState)
    → ((n : ℕ) → 0 < n → draw n < n)
    → All (IsHealthyAt s.backends) (i ∷ l)
    → IsChoice s.backends (choose hash draw strategy (i ∷ l) affinity_key s).0
unfolding choose take_turn
choose-IsChoice hash draw random i l affinity_key s d h =
    picked-IsChoice s.backends (i ∷ l) (draw (length (i ∷ l))) h (d (length (i ∷ l)) (omega arith))
choose-IsChoice hash draw least_connections i l affinity_key s d h =
    least_loaded-All (IsHealthyAt s.backends) s.backends i l h.0 h.1
choose-IsChoice hash draw weighted_round_robin i l affinity_key s d h =
    best-IsChoice s.backends (weigh (i ∷ l) s.backends none (pos 0)).1.0
      (weigh_first-IsBest (IsHealthyAt s.backends) i l s.backends (pos 0) h.0 h.1)
choose-IsChoice hash draw ip_hash i l [] s d h =
    picked-IsChoice s.backends (i ∷ l) _ h (omega arith)
choose-IsChoice hash draw ip_hash i l (c ∷ affinity_key) s d h =
    picked-IsChoice s.backends (i ∷ l) _ h (omega arith)
choose-IsChoice hash draw round_robin i l affinity_key s d h =
    picked-IsChoice s.backends (i ∷ l) _ h (omega arith)

chosen-IsChoice :
    (hash : List ℕ → ℕ) (draw : ℕ → ℕ) (affinity_key : List ℕ) (l : List ℕ) (s : ServiceState)
    → ((n : ℕ) → 0 < n → draw n < n)
    → (l ≡ [] → All (λ b. b.healthy ≡ false) s.backends)
    → All (IsHealthyAt s.backends) l
    → IsChoice s.backends (choose hash draw s.strategy l affinity_key s).0
unfolding choose
chosen-IsChoice hash draw affinity_key [] s d e h = e refl
chosen-IsChoice hash draw affinity_key (i ∷ l) s d e h =
    choose-IsChoice hash draw s.strategy i l affinity_key s d h

-- When the random distribution draws below its bound, selecting returns a healthy backend for
-- every strategy, and it returns none only when no backend is healthy.
pub select_backend-IsChoice :
    (hash : List ℕ → ℕ) (draw : ℕ → ℕ) (affinity_key : List ℕ) (s : ServiceState)
    → ((n : ℕ) → 0 < n → draw n < n)
    → IsChoice s.backends (select_backend hash draw affinity_key s).0
unfolding select_backend
select_backend-IsChoice hash draw affinity_key s d =
    chosen-IsChoice hash draw affinity_key (healthy_backends 0 s.backends) s d
      (healthy_backends-empty 0 s.backends)
      (healthy_backends-IsHealthyAt s.backends 0 s.backends
        (λ j. ap (get_elem? s.backends) (omega arith)))
