-- ===== src/FastBuffer/Append.antt =====
-- include/FastNet/FastBuffer.h: `append`, `push_back` and `assign` on the byte string.
use fast_net.FastBuffer.{
  FastBuffer, Source, read_source, source_length, write_data, append, append_fill, push_back,
  assign,
}
use fast_net.FastBuffer.Storage.{
  Holds, Holds-size, write_data-Holds, write_front-Holds, clear-Holds,
}
use fast_net.FastBuffer.Capacity.{IsAllocator}
use fast_net.FastBuffer.Refine.{
  Yields, source_bytes, IsPart, read_source-seen, length-source_bytes, grow_and, check_grow_and,
  grow_and-Yields, check_grow_and-Yields, append-empty, wrap-small,
}
use fast_net.Prelude.{ℕ, ◌+◌, ◌≤◌, ◌<◌, ◌%◌, ◌^◌, ◌≡◌, sym, ◌∙◌}
use fast_net.Prelude.{inl, inr, Option, List, [], ◌∷◌, ◌++◌, ◌==◌, Bool-cases, subst}
use fast_net.Prelude.{length, replicate, length-replicate, arith}

module _ (allocate : ℕ → Option (List ℕ)) (allocates : IsAllocator allocate) where
  -- Writing `new` behind the bytes, at the size that the buffer had before it grew.
  write_behind :
      (b c : FastBuffer) (bytes new : List ℕ) (len : ℕ)
      → Holds b bytes
      → Holds c bytes
      → length new ≡ len
      → b.size + len < 2 ^ 64
      → c.read_offset + (b.size + len) % 2 ^ 64 ≤ c.capacity
      → Holds (record (write_data c b.size new) { size = (b.size + len) % 2 ^ 64 }) (bytes ++ new)
  write_behind b c bytes new len h k e held room =
      let whole = wrap-small (b.size + len) held in
      let same : c.size ≡ b.size = sym (Holds-size c bytes k) ∙ Holds-size b bytes h in
      subst
        (λ n. Holds (record (write_data c n new) { size = (b.size + len) % 2 ^ 64 }) (bytes ++ new))
        same (write_data-Holds c bytes new ((b.size + len) % 2 ^ 64) k (omega (arith, whole)) room)

  -- With an allocator whose blocks are as long as asked for, and sizes whose sum a size_t
  -- holds, appending bytes from elsewhere or a part of the buffer itself to a valid buffer
  -- leaves a valid one that holds the old bytes and the new ones behind them, or after an
  -- exception the old ones.
  pub append-Yields :
      (b : FastBuffer) (bytes : List ℕ) (source : Source)
      → Holds b bytes
      → IsPart bytes source
      → b.size + source_length source < 2 ^ 64
      → Yields bytes (bytes ++ source_bytes bytes source) (append allocate b source)
  unfolding append check_grow_and grow_and Yields
  append-Yields b bytes source h part held =
      let len = source_length source in
      let new = source_bytes bytes source in
      let count = length-source_bytes bytes source part in
      elim (Bool-cases (len == 0)) [
        | inl z ↦ rw (append, z, append-empty bytes new (ground arith)) h
        | inr nz ↦
            rw (append, nz)
              (check_grow_and-Yields allocate b bytes (bytes ++ new) ((b.size + len) % 2 ^ 64)
                (λ c. record (write_data c b.size (read_source c source)) {
                  size = (b.size + len) % 2 ^ 64;
                })
                allocates h
                (λ c k room.
                  rw (read_source-seen c bytes source k part)
                    (write_behind b c bytes new len h k count held room)))
      ]

  -- With an allocator whose blocks are as long as asked for, and sizes whose sum a size_t
  -- holds, appending copies of a byte to a valid buffer leaves a valid one with the old bytes
  -- and the copies behind them, or after an exception the old ones.
  pub append_fill-Yields :
      (b : FastBuffer) (bytes : List ℕ) (count fill : ℕ)
      → Holds b bytes
      → b.size + count < 2 ^ 64
      → Yields bytes (bytes ++ replicate count fill) (append_fill allocate b count fill)
  unfolding append_fill check_grow_and grow_and Yields
  append_fill-Yields b bytes count fill h held =
      let new = replicate count fill in
      let long : length new ≡ count = length-replicate {A = ℕ} count fill in
      elim (Bool-cases (count == 0)) [
        | inl z ↦ rw (append_fill, z, append-empty bytes new (ground (arith, long))) h
        | inr nz ↦
            rw (append_fill, nz)
              (check_grow_and-Yields allocate b bytes (bytes ++ new) ((b.size + count) % 2 ^ 64)
                (λ c. record (write_data c b.size new) { size = (b.size + count) % 2 ^ 64 })
                allocates h (λ c k room. write_behind b c bytes new count h k long held room))
      ]

  -- With an allocator whose blocks are as long as asked for, and a new size that a size_t
  -- holds, push_back on a valid buffer leaves a valid one with the byte behind the old ones, or
  -- after an exception the old ones.
  pub push_back-Yields :
      (b : FastBuffer) (bytes : List ℕ) (byte : ℕ)
      → Holds b bytes
      → b.size + 1 < 2 ^ 64
      → Yields bytes (bytes ++ (byte ∷ [])) (push_back allocate b byte)
  unfolding push_back grow_and
  push_back-Yields b bytes byte h held =
      let whole = wrap-small (b.size + 1) held in
      grow_and-Yields allocate b bytes (bytes ++ (byte ∷ [])) ((b.size + 1) % 2 ^ 64)
        (λ c. record (write_data c c.size (byte ∷ [])) { size = (c.size + 1) % 2 ^ 64 }) allocates h
        (λ c k room.
          let same : c.size ≡ b.size = sym (Holds-size c bytes k) ∙ Holds-size b bytes h in
          write_data-Holds c bytes (byte ∷ []) ((c.size + 1) % 2 ^ 64) k
            (omega (arith, same, whole)) (omega (arith, same, whole)))

  -- With an allocator whose blocks are as long as asked for, assigning bytes from elsewhere or
  -- a part of the buffer itself to a valid buffer leaves a valid one that holds just those, or
  -- after an exception the old ones.
  pub assign-Yields :
      (b : FastBuffer) (bytes : List ℕ) (source : Source)
      → Holds b bytes
      → IsPart bytes source
      → Yields bytes (source_bytes bytes source) (assign allocate b source)
  unfolding assign check_grow_and grow_and Yields
  assign-Yields b bytes source h part =
      let len = source_length source in
      let new = source_bytes bytes source in
      let count = length-source_bytes bytes source part in
      elim (Bool-cases (len == 0)) [
        | inl z ↦ rw (assign, z, append-empty [] new (ground arith)) (clear-Holds b h.valid)
        | inr nz ↦
            rw (assign, nz)
              (check_grow_and-Yields allocate b bytes new len
                (λ c. record (write_data c 0 (read_source c source)) { size = len }) allocates h
                (λ c k room.
                  rw (read_source-seen c bytes source k part)
                    (write_front-Holds c new len k.valid (sym count) room)))
      ]
