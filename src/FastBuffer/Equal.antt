-- ===== src/FastBuffer/Equal.antt =====
-- include/FastNet/FastBuffer.h: `operator==`.
use fast_net.FastBuffer.{FastBuffer, bytes_equal, equal, read_data}
use fast_net.FastBuffer.Storage.{Holds, Holds-size}
use fast_net.FastBuffer.Refine.{read_data-seen}
use fast_net.Prelude.{ℕ, ◌≡◌, refl, ap, sym, subst, ◌∙◌, true, false, not, ◌↔◌}
use fast_net.Prelude.{List, [], ◌∷◌, ◌==◌, Bool-cases, inl, inr, if_true, if_false, length, arith}
use fast_net.Prelude.Slices.{take_all}

bytes_equal_refl : (xs : List ℕ) → bytes_equal xs xs ≡ true
unfolding bytes_equal
bytes_equal_refl [] = refl
bytes_equal_refl (x ∷ xs) = ground (arith, bytes_equal_refl xs)

bytes_equal→eq : (xs ys : List ℕ) → bytes_equal xs ys ≡ true → xs ≡ ys
unfolding bytes_equal
bytes_equal→eq [] [] h = refl
bytes_equal→eq [] (y ∷ ys) h = absurd (cc h)
bytes_equal→eq (x ∷ xs) [] h = absurd (cc h)
bytes_equal→eq (x ∷ xs) (y ∷ ys) h =
    let heads : x ≡ y = ground arith in
    let tails : xs ≡ ys = bytes_equal→eq xs ys (ground arith) in cc (heads, tails)

bytes_equal_empty : (xs ys : List ℕ) → length xs ≡ 0 → length ys ≡ 0 → bytes_equal xs ys ≡ true
unfolding bytes_equal
bytes_equal_empty [] [] h k = refl
bytes_equal_empty [] (y ∷ ys) h k = absurd (omega arith)
bytes_equal_empty (x ∷ xs) ys h k = absurd (omega arith)

all_read :
    (b : FastBuffer) (bytes : List ℕ) (n : ℕ) → Holds b bytes → n ≡ b.size → read_data b 0 n ≡ bytes
all_read b bytes n h e =
    read_data-seen b bytes 0 n h (omega arith)
    ∙ take_all n bytes (omega (arith, Holds-size b bytes h))

-- With equal sizes the bytes decide.
equal-bytes_equal :
    (b c : FastBuffer) (xs ys : List ℕ)
    → Holds b xs
    → Holds c ys
    → b.size ≡ c.size
    → equal b c ≡ bytes_equal xs ys
unfolding equal
equal-bytes_equal b c xs ys h k e =
    let n = Holds-size b xs h in
    let m = Holds-size c ys k in
    let same : not (b.size == c.size) ≡ false = ground arith in
    if_false _ _ same ∙ elim (Bool-cases (b.size == 0)) [
      | inl z ↦
          if_true _ _ z ∙ sym (bytes_equal_empty xs ys (ground (arith, n)) (ground (arith, m)))
      | inr nz ↦
          if_false _ _ nz
          ∙ ap (λ l. bytes_equal l (read_data c 0 b.size)) (all_read b xs b.size h refl)
          ∙ ap (bytes_equal xs) (all_read c ys b.size k e)
    ]

-- Two valid buffers compare equal exactly when they hold the same bytes, wherever in whichever
-- storage these stand.
pub equal_iff :
    (b c : FastBuffer) (xs ys : List ℕ) → Holds b xs → Holds c ys → (equal b c ≡ true) ↔ (xs ≡ ys)
unfolding equal
equal_iff b c xs ys h k =
    let n = Holds-size b xs h in
    let m = Holds-size c ys k in
    elim (Bool-cases (b.size == c.size)) [
      | inl e ↦
          let bytes = equal-bytes_equal b c xs ys h k (ground arith) in
          (
            λ r. bytes_equal→eq xs ys (sym bytes ∙ r),
            λ r. bytes ∙ subst (λ l. bytes_equal xs l ≡ true) r (bytes_equal_refl xs),
          )
      | inr e ↦
          let differ : equal b c ≡ false = if_true _ _ (ap not e) in
          (λ r. absurd (cc (sym differ ∙ r)), λ r. absurd (ground (arith, ap length r, n, m)))
    ]
