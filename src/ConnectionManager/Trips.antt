-- ===== src/ConnectionManager/Trips.antt =====
-- When the circuit breaker of src/ConnectionManager.cpp opens, and what it then refuses.
use fast_net.Prelude.{ℕ, ◌+◌, ◌^◌, ◌≤◌, ◌<◌, ◌≡◌, ◌↔◌, refl, ap, sym, ◌∙◌, subst, arith}
use fast_net.Prelude.{
  Bool, true, false, List, [], ◌∷◌, ◌++◌, length, length-append, leb, append_assoc, All, All-append,
  Bool-cases, inl, inr, ◌⊎◌,
}
use fast_net.ConnectionManager.State.{
  CircuitBreakerState.closed, CircuitBreakerState.tripped, CircuitBreakerStats, new_breaker,
  increment,
}
use fast_net.ConnectionManager.Breaker.{apply_execution_result}

-- The results that a breaker is told, each at its time.
unfoldable pub told : ℕ → ℕ → List (Bool × ℕ) → CircuitBreakerStats → CircuitBreakerStats
told t attempts [] b = b
told t attempts ((success, now) ∷ results) b =
    told t attempts results (apply_execution_result success t attempts now b)

-- Closed with `c` failures, or open.
abbrev IsAfter : ℕ → ℕ → CircuitBreakerStats → Type 0
IsAfter t n b =
    ((b.state ≡ closed) × (b.failure_count < t) × (b.failure_count ≤ n)) ⊎ (b.state ≡ tripped)

tripped-told :
    (t attempts : ℕ) (results : List (Bool × ℕ)) (b : CircuitBreakerStats)
    → b.state ≡ tripped
    → (told t attempts results b).state ≡ tripped
unfolding told apply_execution_result
tripped-told t attempts [] b h = h
tripped-told t attempts ((true, now) ∷ results) b h =
    tripped-told t attempts results (apply_execution_result true t attempts now b) (ground arith)
tripped-told t attempts ((false, now) ∷ results) b h =
    tripped-told t attempts results (apply_execution_result false t attempts now b) (ground arith)

told-append :
    (t attempts : ℕ) (xs ys : List (Bool × ℕ)) (b : CircuitBreakerStats)
    → told t attempts (xs ++ ys) b ≡ told t attempts ys (told t attempts xs b)
unfolding told
told-append t attempts [] ys b = refl
told-append t attempts ((success, now) ∷ xs) ys b =
    told-append t attempts xs ys (apply_execution_result success t attempts now b)

result-IsAfter :
    (t attempts n now : ℕ) (success : Bool) (b : CircuitBreakerStats)
    → 0 < t
    → n + 1 < 2 ^ 64
    → IsAfter t n b
    → IsAfter t (n + 1) (apply_execution_result success t attempts now b)
unfolding apply_execution_result
result-IsAfter t attempts n now true b h k (inl c) = inl (ground arith)
result-IsAfter t attempts n now true b h k (inr o) = inr (ground arith)
result-IsAfter t attempts n now false b h k (inr o) = inr (ground arith)
result-IsAfter t attempts n now false b h k (inl c) =
    elim (Bool-cases (leb t (increment b.failure_count))) [
      | inl many ↦ inr (ground arith)
      | inr few ↦ inl (ground arith)
    ]

told-IsAfter :
    (t attempts n : ℕ) (results : List (Bool × ℕ)) (b : CircuitBreakerStats)
    → 0 < t
    → n + length results < 2 ^ 64
    → IsAfter t n b
    → IsAfter t (n + length results) (told t attempts results b)
unfolding told
told-IsAfter t attempts n [] b h k i = subst (λ j. IsAfter t j b) (omega arith) i
told-IsAfter t attempts n ((success, now) ∷ results) b h k i =
    let next = apply_execution_result success t attempts now b in
    subst (λ j. IsAfter t j (told t attempts results next)) (omega arith)
      (told-IsAfter t attempts (n + 1) results next h (omega arith)
        (result-IsAfter t attempts n now success b h (omega arith) i))

failures-tripped :
    (t attempts : ℕ) (failures : List (Bool × ℕ)) (b : CircuitBreakerStats)
    → b.state ≡ closed
    → All (λ r. r.0 ≡ false) failures
    → b.failure_count < t
    → t ≤ b.failure_count + length failures
    → b.failure_count + length failures < 2 ^ 64
    → (told t attempts failures b).state ≡ tripped
unfolding told apply_execution_result
failures-tripped t attempts [] b e a lt le bound = absurd (omega arith)
failures-tripped t attempts ((true, now) ∷ failures) b e a lt le bound = absurd (cc (a.0))
failures-tripped t attempts ((false, now) ∷ failures) b e a lt le bound =
    let next = apply_execution_result false t attempts now b in
    elim (Bool-cases (leb t (increment b.failure_count))) [
      | inl many ↦ tripped-told t attempts failures next (ground arith)
      | inr few ↦
          failures-tripped t attempts failures next (ground arith) a.1 (ground arith) (ground arith)
            (ground arith)
    ]

-- `t` failures in a row somewhere among the results.
abbrev pub HasRun : ℕ → List (Bool × ℕ) → Type 0
HasRun t results =
    (before : List (Bool × ℕ)) × (failures : List (Bool × ℕ)) × (after : List (Bool × ℕ)) × (results
      ≡ before ++ (failures ++ after))
    × (length failures ≡ t)
    × All (λ r. r.0 ≡ false) failures

run-tripped :
    (t attempts : ℕ) (results : List (Bool × ℕ))
    → 0 < t
    → length results < 2 ^ 64
    → HasRun t results
    → (told t attempts results new_breaker).state ≡ tripped
run-tripped t attempts results h k (before, failures, after, e, n, a) =
    let total : length results ≡ length before + (length failures + length after) =
      ap length e
      ∙ length-append before (failures ++ after)
      ∙ ap (λ (j : ℕ). length before + j) (length-append failures after) in
    let start = told t attempts before new_breaker in
    let opened : (told t attempts failures start).state ≡ tripped =
      elim (told-IsAfter t attempts 0 before new_breaker h (omega arith)
        (inl (refl, h, omega arith))) [
          | inl c ↦ failures-tripped t attempts failures start c.0 a c.1 (omega arith) (omega arith)
          | inr o ↦ tripped-told t attempts failures start o
        ] in
    let split : told t attempts results new_breaker
        ≡ told t attempts after (told t attempts failures start) =
      ap (λ l. told t attempts l new_breaker) e
      ∙ told-append t attempts before (failures ++ after) new_breaker
      ∙ told-append t attempts failures after start in
    ap (λ (b : CircuitBreakerStats). b.state) split
    ∙ tripped-told t attempts after (told t attempts failures start) opened

-- The other way, with the failures in a row that a closed breaker has counted.
tripped-HasRun :
    (t attempts : ℕ) (counted results : List (Bool × ℕ)) (b : CircuitBreakerStats)
    → b.state ≡ closed
    → b.failure_count ≡ length counted
    → length counted < t
    → length counted + length results < 2 ^ 64
    → All (λ r. r.0 ≡ false) counted
    → (told t attempts results b).state ≡ tripped
    → HasRun t (counted ++ results)
unfolding told apply_execution_result
tripped-HasRun t attempts counted [] b e c lt bound a o = absurd (ground arith)
tripped-HasRun t attempts counted ((true, now) ∷ results) b e c lt bound a o =
    let next = apply_execution_result true t attempts now b in
    let (before, failures, after, split, n, f) =
      tripped-HasRun t attempts [] results next (ground arith) (ground arith) (omega arith)
        (omega arith) tt o in
    (
      counted ++ (true, now) ∷ before,
      failures,
      after,
      ap (λ l. counted ++ (true, now) ∷ l) split
          ∙ sym (append_assoc counted ((true, now) ∷ before) (failures ++ after)),
      n,
      f,
    )
tripped-HasRun t attempts counted ((false, now) ∷ results) b e c lt bound a o =
    let next = apply_execution_result false t attempts now b in
    let more = counted ++ (false, now) ∷ [] in
    let count = length-append counted ((false, now) ∷ []) in
    let all = All-append (λ (r : Bool × ℕ). r.0 ≡ false) counted ((false, now) ∷ []) a (refl, tt) in
    elim (Bool-cases (leb t (increment b.failure_count))) [
      | inl many ↦ (
        [],
        more,
        results,
        sym (append_assoc counted ((false, now) ∷ []) results),
        ground arith,
        all,
      )
      | inr few ↦ subst (HasRun t) (append_assoc counted ((false, now) ∷ []) results) (
          tripped-HasRun t attempts more results next (ground arith) (ground arith) (ground arith)
            (omega arith) all o)
    ]

-- A new circuit breaker with a positive threshold that is told results, fewer than 2 ^ 64 and
-- with nothing that half opens it in between, is open exactly when as many failures as the
-- threshold have come in a row somewhere among them.
pub told-HasRun :
    (t attempts : ℕ) (results : List (Bool × ℕ))
    → 0 < t
    → length results < 2 ^ 64
    → ((told t attempts results new_breaker).state ≡ tripped) ↔ HasRun t results
told-HasRun t attempts results h k = (
  tripped-HasRun t attempts [] results new_breaker refl refl h (omega arith) tt,
  run-tripped t attempts results h k,
)
