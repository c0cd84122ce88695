-- ===== src/MpscQueue/Waiting.antt =====
-- The producers of the queue of include/FastNet/MpscQueue.h that have still to store a link, and
-- what its invariant uses of lists.
use fast_net.Prelude.{ℕ, zero, suc, ◌+◌, ◌≤◌, ◌≡◌, refl, ap, subst}
use fast_net.Prelude.{
  none, some, List, [], ◌∷◌, ◌++◌, length, get_elem?, take, All, ltb, ◌==◌, if◌then◌else◌, arith,
}
use fast_net.MpscQueue.Queue.{drop_nth}

-- How many producers have still to link a node behind `p`.
unfoldable pub waiting : ℕ → List (ℕ × ℕ) → ℕ
waiting p [] = 0
waiting p ((prev, node) ∷ l) = (if prev == p then 1 else 0) + waiting p l

pub waiting-append :
    (p prev node : ℕ) (l : List (ℕ × ℕ))
    → waiting p (l ++ (prev, node) ∷ []) ≡ waiting p l + (if prev == p then 1 else 0)
unfolding waiting
waiting-append p prev node [] = omega arith
waiting-append p prev node ((a, b) ∷ l) = omega (arith, waiting-append p prev node l)

pub waiting-drop :
    (p prev node i : ℕ) (l : List (ℕ × ℕ))
    → get_elem? l i ≡ some (prev, node)
    → waiting p (drop_nth i l) + (if prev == p then 1 else 0) ≡ waiting p l
unfolding waiting drop_nth
waiting-drop p prev node i [] h = absurd (cc (h))
waiting-drop p prev node zero ((a, b) ∷ l) h = ground arith
waiting-drop p prev node (suc i) ((a, b) ∷ l) h = omega (arith, waiting-drop p prev node i l h)

pub All-drop_nth : (P : ℕ × ℕ → Type 0) (i : ℕ) (l : List (ℕ × ℕ)) → All P l → All P (drop_nth i l)
unfolding drop_nth
All-drop_nth P i [] h = tt
All-drop_nth P zero (e ∷ l) h = h.1
All-drop_nth P (suc i) (e ∷ l) h = (h.0, All-drop_nth P i l h.1)

pub All-at :
    (P : ℕ × ℕ → Type 0) (i : ℕ) (l : List (ℕ × ℕ)) (e : ℕ × ℕ)
    → get_elem? l i ≡ some e
    → All P l
    → P e
All-at P i [] e f h = absurd (cc (f))
All-at P zero (d ∷ l) e f h =
    subst (λ o. elim o as (λ _. Type 0) [ none ↦ P e | some c ↦ P c ]) f h.0
All-at P (suc i) (d ∷ l) e f h = All-at P i l e f h.1

module _ {A : Type 0} where
  pub get_elem?-last :
      (l : List A) (v : A) (i : ℕ)
      → get_elem? (l ++ v ∷ []) i
        ≡ (if ltb i (length l) then get_elem? l i else if i == length l then some v else none)
  get_elem?-last [] v zero = refl
  get_elem?-last [] v (suc i) = ground arith
  get_elem?-last (x ∷ l) v zero = ground arith
  get_elem?-last (x ∷ l) v (suc i) = ground (arith, get_elem?-last l v i)

  pub take-last : (n : ℕ) (l : List A) (v : A) → n ≤ length l → take n (l ++ v ∷ []) ≡ take n l
  take-last zero l v h = refl
  take-last (suc n) [] v h = absurd (omega arith)
  take-last (suc n) (x ∷ l) v h = ap (λ t. x ∷ t) (take-last n l v (omega arith))

  pub take-get_elem? :
      (n : ℕ) (l : List A) (v : A) → get_elem? l n ≡ some v → take (suc n) l ≡ take n l ++ v ∷ []
  take-get_elem? n [] v h = absurd (cc (h))
  take-get_elem? zero (x ∷ l) v h = cc (h)
  take-get_elem? (suc n) (x ∷ l) v h = ap (λ t. x ∷ t) (take-get_elem? n l v h)
