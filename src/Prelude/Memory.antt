-- ===== src/Prelude/Memory.antt =====
-- A block of memory as the list of its bytes, written one byte after the other.
use Prim.Native.Nat.{ℕ, ◌+◌}
use mathlib.Core.Path.{◌≡◌, refl, ap, sym, ◌∙◌}
use mathlib.Core.List.{List, [], ◌∷◌, ◌++◌, append_assoc, append-nil}
use native.Mathlib.Omega.{arith}
use fast_net.Prelude.Lists.{length, set, length-set, length-append}

module _ {ℓ} {A : Type ℓ} where
  -- What `memcpy` and the `memory[offset++] = byte` loops leave.
  unfoldable pub write_bytes : List A → ℕ → List A → List A
  write_bytes memory offset [] = memory
  write_bytes memory offset (b ∷ bs) = write_bytes (set memory offset b) (offset + 1) bs

  pub length-write_bytes :
      (memory : List A) (offset : ℕ) (bs : List A)
      → length (write_bytes memory offset bs) ≡ length memory
  unfolding write_bytes
  length-write_bytes memory offset [] = refl
  length-write_bytes memory offset (b ∷ bs) =
      length-write_bytes (set memory offset b) (offset + 1) bs ∙ length-set memory offset b

  pub set-append :
      (front : List A) (old new : A) (back : List A)
      → set (front ++ (old ∷ back)) (length front) new ≡ front ++ (new ∷ back)
  set-append [] old new back = refl
  set-append (x ∷ front) old new back = ap (λ l. x ∷ l) (set-append front old new back)

  -- Writing over `old` between two parts that stay.
  pub write_bytes-append :
      (front old new back : List A) (offset : ℕ)
      → length old ≡ length new
      → offset ≡ length front
      → write_bytes (front ++ (old ++ back)) offset new ≡ front ++ (new ++ back)
  unfolding write_bytes
  write_bytes-append front [] [] back offset h e = refl
  write_bytes-append front [] (b ∷ new) back offset h e = absurd (omega arith)
  write_bytes-append front (x ∷ old) [] back offset h e = absurd (omega arith)
  write_bytes-append front (x ∷ old) (b ∷ new) back offset h e =
      rw
        (
          e,
          set-append front x b (old ++ back),
          ← append_assoc front (b ∷ []) (old ++ back),
          ← append_assoc front (b ∷ []) (new ++ back),
        )
        (write_bytes-append (front ++ (b ∷ [])) old new back (length front + 1) (omega arith)
          (omega (arith, length-append front (b ∷ []))))

  -- Overwriting the whole of it.
  pub write_all : (memory bs : List A) → length memory ≡ length bs → write_bytes memory 0 bs ≡ bs
  write_all memory bs h =
      ap (λ l. write_bytes l 0 bs) (sym (append-nil memory))
      ∙ write_bytes-append [] memory bs [] 0 h refl
      ∙ append-nil bs
