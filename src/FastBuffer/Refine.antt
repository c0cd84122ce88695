-- ===== src/FastBuffer/Refine.antt =====
-- include/FastNet/FastBuffer.h: the byte string that a buffer stands for, and what an operation
-- that asks for room does to it.
use fast_net.FastBuffer.{
  FastBuffer, Outcome, Source, Source.external, Source.own, max_size, base, read_data, read_source,
  source_length, to_vector, ensure_capacity, validate_requested_size, ◌>>=◌,
}
use fast_net.FastBuffer.Storage.{Holds, Holds-size}
use fast_net.FastBuffer.Capacity.{
  IsAllocator, HasRoom, ensure_capacity-HasRoom, ensure_capacity-none,
}
use fast_net.Prelude.{ℕ, zero, suc, ◌+◌, ◌≤◌, ◌<◌, ◌%◌, ◌^◌, ◌≡◌, refl, ap, sym, ◌∙◌}
use fast_net.Prelude.{
  inl, inr, Option, none, some, List, [], ◌∷◌, ◌++◌, ltb, Bool-cases, append-nil,
}
use fast_net.Prelude.{length, take, drop, length-take, length-drop, arith}
use fast_net.Prelude.Slices.{drop-drop}

-- What an operation leaves: the new bytes, or after an exception the old ones.
unfoldable pub Yields : (bytes new : List ℕ) → Outcome → Type 0
Yields bytes new (b, none) = Holds b new
Yields bytes new (b, some e) = Holds b bytes

-- The bytes of a source: its own, or a part of those in the buffer.
unfoldable pub source_bytes : List ℕ → Source → List ℕ
source_bytes bytes (external new) = new
source_bytes bytes (own offset len) = take len (drop offset bytes)

-- A part of the buffer lies inside it.
unfoldable pub IsPart : List ℕ → Source → Type 0
IsPart bytes (external new) = Unit
IsPart bytes (own offset len) = offset + len ≤ length bytes

pub take-drop-take {ℓ} :
    {A : Type ℓ}
    → (len offset n : ℕ) (xs : List A) → offset + len ≤ n
    → take len (drop offset (take n xs)) ≡ take len (drop offset xs)
take-drop-take zero offset n xs h = refl
take-drop-take (suc len) zero zero xs h = absurd (omega arith)
take-drop-take (suc len) zero (suc n) [] h = refl
take-drop-take (suc len) zero (suc n) (x ∷ xs) h =
    ap (λ l. x ∷ l) (take-drop-take len zero n xs (omega arith))
take-drop-take (suc len) (suc offset) zero xs h = absurd (omega arith)
take-drop-take (suc len) (suc offset) (suc n) [] h = refl
take-drop-take (suc len) (suc offset) (suc n) (x ∷ xs) h =
    take-drop-take (suc len) offset n xs (omega arith)

pub read_data-seen :
    (b : FastBuffer) (bytes : List ℕ) (offset len : ℕ)
    → Holds b bytes
    → offset + len ≤ b.size
    → read_data b offset len ≡ take len (drop offset bytes)
unfolding to_vector
read_data-seen b bytes offset len h k =
    let start : ℕ = b.read_offset in
    ap (take len) (sym (drop-drop start offset (start + offset) (base b) refl))
    ∙ sym (take-drop-take len offset b.size (drop start (base b)) k)
    ∙ ap (λ l. take len (drop offset l)) h.seen

pub read_source-seen :
    (b : FastBuffer) (bytes : List ℕ) (source : Source)
    → Holds b bytes
    → IsPart bytes source
    → read_source b source ≡ source_bytes bytes source
unfolding source_bytes IsPart
read_source-seen b bytes (external new) h k = refl
read_source-seen b bytes (own offset len) h k =
    read_data-seen b bytes offset len h (omega (arith, Holds-size b bytes h))

pub length-source_bytes :
    (bytes : List ℕ) (source : Source)
    → IsPart bytes source
    → length (source_bytes bytes source) ≡ source_length source
unfolding source_bytes IsPart
length-source_bytes bytes (external new) h = refl
length-source_bytes bytes (own offset len) h =
    omega (arith, length-take len (drop offset bytes), length-drop offset bytes)

write-Yields :
    (bytes new : List ℕ) (required : ℕ) (write : FastBuffer → FastBuffer) (r : Outcome)
    → HasRoom required bytes r
    → ((c : FastBuffer)
        → Holds c bytes
        → c.read_offset + required ≤ c.capacity
        → Holds (write c) new)
    → Yields bytes new (r >>= λ b. (write b, none))
unfolding Yields
write-Yields bytes new required write (c, none) h writes = writes c h.holds (h.room refl)
write-Yields bytes new required write (c, some e) h writes = h.holds

-- Nothing is added by no bytes.
pub append-empty : (bytes new : List ℕ) → length new ≡ 0 → bytes ++ new ≡ bytes
append-empty bytes [] e = append-nil bytes
append-empty bytes (x ∷ new) e = absurd (omega arith)

module _ (allocate : ℕ → Option (List ℕ)) where
  -- The steps that the operations which write share: make room, then write.
  unfoldable pub grow_and : FastBuffer → (required : ℕ) → (FastBuffer → FastBuffer) → Outcome
  grow_and b required write = ensure_capacity allocate b required >>= λ b. (write b, none)

  unfoldable pub check_grow_and : FastBuffer → (required : ℕ) → (FastBuffer → FastBuffer) → Outcome
  unfolding grow_and
  check_grow_and b required write =
      validate_requested_size b required >>= λ b. grow_and b required write

  pub grow_and-Yields :
      (b : FastBuffer) (bytes new : List ℕ) (required : ℕ) (write : FastBuffer → FastBuffer)
      → IsAllocator allocate
      → Holds b bytes
      → ((c : FastBuffer)
          → Holds c bytes
          → c.read_offset + required ≤ c.capacity
          → Holds (write c) new)
      → Yields bytes new (grow_and b required write)
  unfolding grow_and
  grow_and-Yields b bytes new required write allocates h writes =
      write-Yields bytes new required write (ensure_capacity allocate b required)
        (ensure_capacity-HasRoom allocate allocates b bytes required h) writes

  -- The check in front refuses what making room would refuse.
  pub check_grow_and-grow_and :
      (b : FastBuffer) (required : ℕ) (write : FastBuffer → FastBuffer)
      → check_grow_and b required write ≡ grow_and b required write
  unfolding check_grow_and grow_and validate_requested_size ensure_capacity
  check_grow_and-grow_and b required write = elim (Bool-cases (ltb max_size required)) [
    | inl big ↦ rw big refl
    | inr le ↦ rw le refl
  ]

  pub check_grow_and-Yields :
      (b : FastBuffer) (bytes new : List ℕ) (required : ℕ) (write : FastBuffer → FastBuffer)
      → IsAllocator allocate
      → Holds b bytes
      → ((c : FastBuffer)
          → Holds c bytes
          → c.read_offset + required ≤ c.capacity
          → Holds (write c) new)
      → Yields bytes new (check_grow_and b required write)
  check_grow_and-Yields b bytes new required write allocates h writes =
      rw (check_grow_and-grow_and b required write)
        (grow_and-Yields b bytes new required write allocates h writes)

  pub grow_and-none :
      (b : FastBuffer) (required : ℕ) (write : FastBuffer → FastBuffer)
      → IsAllocator allocate
      → ((n : ℕ) → ¬ (allocate n ≡ none))
      → required ≤ max_size
      → (grow_and b required write).1 ≡ none
  unfolding grow_and
  grow_and-none b required write allocates succeeds h =
      rw (grow_and, ensure_capacity-none allocate allocates b required succeeds h) refl

-- A sum that a `size_t` holds.
pub wrap-small : (n : ℕ) → n < 2 ^ 64 → n % 2 ^ 64 ≡ n
wrap-small n h = omega arith
