-- ===== src/FastBuffer/Copy.antt =====
-- include/FastNet/FastBuffer.h: copying buffers.
use fast_net.FastBuffer.{
  FastBuffer, Outcome, Source.external, empty_buffer, to_vector, equal, copy, copy_assign,
  append_buffer,
}
use fast_net.FastBuffer.Inv.{length-to_vector}
use fast_net.FastBuffer.Storage.{Holds, empty_buffer-Holds}
use fast_net.FastBuffer.Capacity.{IsAllocator}
use fast_net.FastBuffer.Refine.{Yields, source_bytes, IsPart}
use fast_net.FastBuffer.Append.{append-Yields, assign-Yields}
use fast_net.FastBuffer.Equal.{equal_iff}
use fast_net.Prelude.{
  ℕ, ◌+◌, ◌^◌, ◌<◌, ◌≡◌, arith, ◌++◌, refl, subst, true, Option, none, some, List, [],
}

-- A copy that compares equal, or an exception and the old bytes.
abbrev pub IsCopy : FastBuffer → (bytes old : List ℕ) → Outcome → Type 0
IsCopy other bytes old (b, none) = Holds b bytes × (equal b other ≡ true)
IsCopy other bytes old (b, some e) = Holds b old

module _ (allocate : ℕ → Option (List ℕ)) (allocates : IsAllocator allocate) where
  assigned-IsCopy :
      (other : FastBuffer) (bytes old : List ℕ) (r : Outcome)
      → Holds other bytes
      → Yields old bytes r
      → IsCopy other bytes old r
  unfolding Yields
  assigned-IsCopy other bytes old (b, none) k y = (y, (equal_iff b other bytes bytes y k).1 refl)
  assigned-IsCopy other bytes old (b, some e) k y = y

  -- With an allocator whose blocks are as long as asked for, assigning a valid buffer to another
  -- leaves that one valid, with the same bytes and equal to it, or after an exception with its old
  -- bytes.
  pub copy_assign-IsCopy :
      (b other : FastBuffer) (old bytes : List ℕ)
      → Holds b old
      → Holds other bytes
      → IsCopy other bytes old (copy_assign allocate b other)
  unfolding copy_assign source_bytes IsPart
  copy_assign-IsCopy b other old bytes h k = assigned-IsCopy other bytes old _ k (
      subst (λ l. Yields old l (copy_assign allocate b other)) k.seen
        (assign-Yields allocate allocates b old (external (to_vector other)) h tt))

  -- The copy constructor makes an equal buffer, or throws.
  pub copy-IsCopy :
      (other : FastBuffer) (bytes : List ℕ)
      → Holds other bytes
      → IsCopy other bytes [] (copy allocate other)
  unfolding copy copy_assign
  copy-IsCopy other bytes k = copy_assign-IsCopy empty_buffer other [] bytes empty_buffer-Holds k

  -- Another valid buffer is appended by its bytes, when a size_t holds the sum of the sizes.
  pub append_buffer-Yields :
      (b other : FastBuffer) (old bytes : List ℕ)
      → Holds b old
      → Holds other bytes
      → b.size + other.size < 2 ^ 64
      → Yields old (old ++ bytes) (append_buffer allocate b other)
  unfolding append_buffer source_bytes IsPart
  append_buffer-Yields b other old bytes h k held =
      subst (λ l. Yields old (old ++ l) (append_buffer allocate b other)) k.seen
        (append-Yields allocate allocates b old (external (to_vector other)) h tt
          (omega (arith, length-to_vector other k.valid)))
