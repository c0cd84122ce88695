-- ===== src/Prelude/Slices.antt =====
-- Reading a part of a memory that was written.
use Prim.Native.Nat.{ℕ, zero, suc, ◌+◌, ◌≤◌}
use mathlib.Core.Path.{◌≡◌, refl, ap, sym, ◌∙◌}
use mathlib.Core.List.{List, [], ◌∷◌, ◌++◌, append_assoc}
use native.Mathlib.Omega.{arith}
use fast_net.Prelude.Lists.{
  length, take, drop, length-append, length-take, length-drop, take-append-drop, take-append,
  drop-append,
}
use fast_net.Prelude.Memory.{write_bytes, write_bytes-append}

module _ {ℓ} {A : Type ℓ} where
  pub take-add : (m n k : ℕ) (xs : List A) → k ≡ m + n → take k xs ≡ take m xs ++ take n (drop m xs)
  take-add zero n k xs e = ap (λ j. take j xs) (e ∙ omega arith)
  take-add (suc m) n zero xs e = absurd (omega arith)
  take-add (suc m) zero (suc k) [] e = refl
  take-add (suc m) (suc n) (suc k) [] e = refl
  take-add (suc m) n (suc k) (x ∷ xs) e = ap (λ l. x ∷ l) (take-add m n k xs (omega arith))

  pub drop-drop : (m n k : ℕ) (xs : List A) → k ≡ m + n → drop n (drop m xs) ≡ drop k xs
  drop-drop zero n k xs e = ap (λ j. drop j xs) (omega arith)
  drop-drop (suc m) n zero xs e = absurd (omega arith)
  drop-drop (suc m) zero (suc k) [] e = refl
  drop-drop (suc m) (suc n) (suc k) [] e = refl
  drop-drop (suc m) n (suc k) (x ∷ xs) e = drop-drop m n k xs (omega arith)

  -- What is written stands between what was before it and behind it.
  pub write_bytes-split :
      (memory : List A) (offset : ℕ) (bs : List A)
      → offset + length bs ≤ length memory
      → write_bytes memory offset bs
        ≡ take offset memory ++ (bs ++ drop (offset + length bs) memory)
  write_bytes-split memory offset bs h =
      let n = length bs in
      let front = take offset memory in
      let tail = drop offset memory in
      ap (λ l. write_bytes l offset bs)
        (sym (take-append-drop offset memory)
          ∙ ap (λ l. front ++ l) (sym (take-append-drop n tail)))
      ∙ write_bytes-append front (take n tail) bs (drop n tail) offset
          (omega (arith, length-take n tail, length-drop offset memory))
          (omega (arith, length-take offset memory))
      ∙ ap (λ l. front ++ (bs ++ l)) (drop-drop offset n (offset + n) memory refl)

  -- A part that begins `k` bytes before what is written, and ends with it.
  pub slice-write :
      (memory : List A) (from k : ℕ) (bs : List A)
      → from + k + length bs ≤ length memory
      → take (k + length bs) (drop from (write_bytes memory (from + k) bs))
        ≡ take k (drop from memory) ++ bs
  slice-write memory from k bs h =
      let kept = take k (drop from memory) in
      let rest = drop (from + k + length bs) memory in
      ap (λ l. take (k + length bs) (drop from l))
        (write_bytes-split memory (from + k) bs h
          ∙ ap (λ l. l ++ (bs ++ rest)) (take-add from k (from + k) memory refl)
          ∙ append_assoc (take from memory) kept (bs ++ rest))
      ∙ ap (take (k + length bs)) (
          drop-append from (take from memory) (kept ++ (bs ++ rest))
            (omega (arith, length-take from memory))
          ∙ sym (append_assoc kept bs rest))
      ∙ take-append (k + length bs) (kept ++ bs) rest (
          omega (
            arith,
            length-append kept bs,
            length-take k (drop from memory),
            length-drop from memory,
          ))

  -- Two writes side by side are one.
  pub write_bytes-append_two :
      (memory : List A) (offset : ℕ) (xs ys : List A)
      → offset + length xs + length ys ≤ length memory
      → write_bytes (write_bytes memory (offset + length xs) ys) offset xs
        ≡ write_bytes memory offset (xs ++ ys)
  write_bytes-append_two memory offset xs ys h =
      let middle = take (length xs) (drop offset memory) in
      let rest = drop (offset + length xs + length ys) memory in
      let both : length (xs ++ ys) ≡ length xs + length ys = length-append xs ys in
      ap (λ l. write_bytes l offset xs)
        (write_bytes-split memory (offset + length xs) ys h
          ∙ ap (λ l. l ++ (ys ++ rest))
              (take-add offset (length xs) (offset + length xs) memory refl)
          ∙ append_assoc (take offset memory) middle (ys ++ rest))
      ∙ write_bytes-append (take offset memory) middle xs (ys ++ rest) offset
          (omega (arith, length-take (length xs) (drop offset memory), length-drop offset memory))
          (omega (arith, length-take offset memory))
      ∙ ap (λ l. take offset memory ++ l) (sym (append_assoc xs ys rest))
      ∙ ap (λ k. take offset memory ++ ((xs ++ ys) ++ drop k memory)) (omega (arith, both))
      ∙ sym (write_bytes-split memory offset (xs ++ ys) (omega (arith, both)))

  pub take_all : (n : ℕ) (xs : List A) → length xs ≤ n → take n xs ≡ xs
  take_all zero [] h = refl
  take_all zero (x ∷ xs) h = absurd (omega arith)
  take_all (suc n) [] h = refl
  take_all (suc n) (x ∷ xs) h = ap (λ l. x ∷ l) (take_all n xs (omega arith))

  -- No elements put between two parts of a list.
  pub take-empty-drop :
      (n : ℕ) (xs middle : List A) → length middle ≡ 0 → take n xs ++ (middle ++ drop n xs) ≡ xs
  take-empty-drop n xs [] e = take-append-drop n xs
  take-empty-drop n xs (x ∷ middle) e = absurd (omega arith)
