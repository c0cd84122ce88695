-- ===== src/FastBuffer/Consume.antt =====
-- include/FastNet/FastBuffer.h: `erase_front` and `pop_back` on the byte string.
use fast_net.FastBuffer.{FastBuffer, base, to_vector, erase_front, pop_back}
use fast_net.FastBuffer.Storage.{Holds, Holds-size, clear-Holds, compact-Holds}
use fast_net.FastBuffer.Insert.{truncate-Holds}
use fast_net.Prelude.{ℕ, zero, suc, ◌+◌, ◌-◌, ◌/◌, ◌≤◌, ◌≡◌, refl, ap, sym, ◌∙◌}
use fast_net.Prelude.{inl, inr, List, [], ◌∷◌, ltb, leb, Bool-cases}
use fast_net.Prelude.{length, take, drop, arith}
use fast_net.Prelude.Slices.{drop-drop, take_all}

drop_all {ℓ} : {A : Type ℓ} → (n : ℕ) (xs : List A) → length xs ≤ n → drop n xs ≡ []
drop_all zero [] h = refl
drop_all zero (x ∷ xs) h = absurd (omega arith)
drop_all (suc n) [] h = refl
drop_all (suc n) (x ∷ xs) h = drop_all n xs (omega arith)

drop-take {ℓ} :
    {A : Type ℓ} → (m n : ℕ) (xs : List A) → drop m (take n xs) ≡ take (n - m) (drop m xs)
drop-take zero n xs = let e : n ≡ n - 0 = omega arith in ap (λ k. take k xs) e
drop-take (suc m) zero xs =
    let e : 0 ≡ 0 - suc m = omega arith in ap (λ k. take k (drop (suc m) xs)) e
drop-take (suc m) (suc n) [] = sym (take_all (suc n - suc m) [] (omega arith))
drop-take (suc m) (suc n) (x ∷ xs) =
    let e : n - m ≡ suc n - suc m = omega arith in drop-take m n xs ∙ ap (λ k. take k (drop m xs)) e

-- The cursor moves past the first `len` bytes.
advance-Holds :
    (b : FastBuffer) (bytes : List ℕ) (len : ℕ)
    → Holds b bytes
    → len ≤ b.size
    → Holds (record b { read_offset = b.read_offset + len; size = b.size - len }) (drop len bytes)
unfolding to_vector
advance-Holds b bytes len h k = record {
  valid = record {
    stack = h.valid.stack;
    room = h.valid.room;
    inline = h.valid.inline;
    fits = omega (arith, h.valid.fits);
  };
  seen =
      ap (take (b.size - len))
        (sym (drop-drop b.read_offset len (b.read_offset + len) (base b) refl))
      ∙ sym (drop-take len b.size (drop b.read_offset (base b)))
      ∙ ap (drop len) h.seen;
}

-- Erasing from the front of a valid buffer leaves a valid one that holds the bytes behind those
-- erased, whether the cursor moves, the buffer is compacted or it is cleared.
pub erase_front-Holds :
    (b : FastBuffer) (bytes : List ℕ) (len : ℕ)
    → Holds b bytes
    → Holds (erase_front b len) (drop len bytes)
unfolding erase_front
erase_front-Holds b bytes len h =
    let n = Holds-size b bytes h in
    elim (Bool-cases (leb b.size len)) [
      | inl all ↦
          rw (erase_front, all, drop_all len bytes (ground (arith, n))) (clear-Holds b h.valid)
      | inr some_left ↦
          let moved = advance-Holds b bytes len h (ground arith) in
          elim (Bool-cases (ltb (b.capacity / 2) (b.read_offset + len))) [
            | inl far ↦
                rw (erase_front, some_left, far)
                  (compact-Holds
                    (record b { read_offset = b.read_offset + len; size = b.size - len })
                    (drop len bytes) moved)
            | inr near ↦ rw (erase_front, some_left, near) moved
          ]
    ]

-- On a valid buffer pop_back leaves a valid one without the last byte, if there is one.
pub pop_back-Holds :
    (b : FastBuffer) (bytes : List ℕ)
    → Holds b bytes
    → Holds (pop_back b) (take (length bytes - 1) bytes)
unfolding pop_back
pop_back-Holds b bytes h =
    let n = Holds-size b bytes h in
    elim (Bool-cases (ltb 0 b.size)) [
      | inl full ↦ rw (pop_back, full, n) (truncate-Holds b bytes (b.size - 1) h (omega arith))
      | inr empty ↦ rw (pop_back, empty, take_all (length bytes - 1) bytes (ground (arith, n))) h
    ]
