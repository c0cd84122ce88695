-- ===== src/FastBuffer/Insert.antt =====
-- include/FastNet/FastBuffer.h: `insert` and `resize` on the byte string.
use fast_net.FastBuffer.{
  FastBuffer, base, set_base, read_data, write_data, to_vector, validate_requested_size, resize,
  insert,
}
use fast_net.FastBuffer.Inv.{base-set_base, set_base-IsValid}
use fast_net.FastBuffer.Storage.{Holds, Holds-size, write_data-Holds}
use fast_net.FastBuffer.Capacity.{IsAllocator}
use fast_net.FastBuffer.Refine.{
  Yields, read_data-seen, take-drop-take, grow_and, check_grow_and, check_grow_and-Yields,
  append-empty, wrap-small,
}
use fast_net.Prelude.{ℕ, ◌+◌, ◌-◌, ◌≤◌, ◌<◌, ◌%◌, ◌^◌, ◌≡◌, ap, sym, ◌∙◌, false}
use fast_net.Prelude.{inl, inr, Option, List, ◌++◌, ltb, ◌==◌, Bool-cases, if◌then◌else◌, subst}
use fast_net.Prelude.{
  length, take, drop, replicate, length-append, length-drop, length-replicate, arith,
}
use fast_net.Prelude.Memory.{write_bytes, length-write_bytes}
use fast_net.Prelude.Slices.{slice-write, write_bytes-append_two, take_all, take-empty-drop}

-- Fewer of the bytes.
pub truncate-Holds :
    (b : FastBuffer) (bytes : List ℕ) (n : ℕ)
    → Holds b bytes
    → n ≤ b.size
    → Holds (record b { size = n }) (take n bytes)
unfolding to_vector
truncate-Holds b bytes n h k = record {
  valid = record {
    stack = h.valid.stack;
    room = h.valid.room;
    inline = h.valid.inline;
    fits = omega (arith, h.valid.fits);
  };
  seen =
      sym (take-drop-take n 0 b.size (drop b.read_offset (base b)) (omega arith))
      ∙ ap (take n) h.seen;
}

-- The last bytes moved up by as many as are inserted, and those written in between.
pub insert_write-Holds :
    (b : FastBuffer) (bytes new : List ℕ) (offset size : ℕ)
    → Holds b bytes
    → offset ≤ b.size
    → size ≡ b.size + length new
    → b.read_offset + size ≤ b.capacity
    → Holds
        (record (write_data
          (write_data b (offset + length new) (read_data b offset (b.size - offset)))
          offset
          new) { size = size })
        (take offset bytes ++ (new ++ drop offset bytes))
unfolding to_vector
insert_write-Holds b bytes new offset size h inside e room =
    let start : ℕ = b.read_offset in
    let n = Holds-size b bytes h in
    let back = read_data b offset (b.size - offset) in
    let back_seen : back ≡ drop offset bytes =
      read_data-seen b bytes offset (b.size - offset) h (omega arith)
      ∙ take_all (b.size - offset) (drop offset bytes)
          (omega (arith, n, length-drop offset bytes)) in
    let back_length : length back ≡ b.size - offset =
      ap length back_seen ∙ omega (arith, length-drop offset bytes) in
    let moved = write_bytes (base b) (start + (offset + length new)) back in
    let b1 = set_base b moved in
    let written = write_bytes (base b1) (start + offset) new in
    let kept =
      set_base-IsValid b moved h.valid
        (length-write_bytes (base b) (start + (offset + length new)) back) in
    let valid =
      set_base-IsValid b1 written kept (length-write_bytes (base b1) (start + offset) new) in
    let both : length (new ++ back) ≡ length new + length back = length-append new back in
    record {
      valid = record { stack = valid.stack; room = valid.room; inline = valid.inline; fits = room };
      seen =
          ap (λ l. take size (drop start l))
            (base-set_base b1 written
              ∙ ap (λ l. write_bytes l (start + offset) new) (base-set_base b moved)
              ∙ ap (λ k. write_bytes (write_bytes (base b) k back) (start + offset) new)
                  (omega arith)
              ∙ write_bytes-append_two (base b) (start + offset) new back
                  (omega (arith, back_length, h.valid.room)))
          ∙ ap (λ k. take k (drop start (write_bytes (base b) (start + offset) (new ++ back))))
              (omega (arith, both, back_length))
          ∙ slice-write (base b) start offset (new ++ back)
              (omega (arith, both, back_length, h.valid.room))
          ∙ ap (λ l. l ++ (new ++ back))
              (sym (take-drop-take offset 0 b.size (drop start (base b)) (omega arith))
                ∙ ap (take offset) h.seen)
          ∙ ap (λ l. take offset bytes ++ (new ++ l)) back_seen;
    }

-- The size is set, and the bytes that come in are `fill`.
resize_write-Holds :
    (c : FastBuffer) (bytes : List ℕ) (new_size fill : ℕ)
    → Holds c bytes
    → c.read_offset + new_size ≤ c.capacity
    → Holds
        (record (if ltb c.size new_size
          then write_data c c.size (replicate (new_size - c.size) fill)
          else c) { size = new_size })
        (take new_size bytes ++ replicate (new_size - length bytes) fill)
resize_write-Holds c bytes new_size fill h room =
    let n = Holds-size c bytes h in
    let added = replicate (new_size - c.size) fill in
    let long : length added ≡ new_size - c.size =
      length-replicate {A = ℕ} (new_size - c.size) fill in
    elim (Bool-cases (ltb c.size new_size)) [
      | inl more ↦
          rw (more, n, take_all new_size bytes (ground (arith, n)))
            (write_data-Holds c bytes added new_size h (ground (arith, long)) room)
      | inr less ↦
          rw (less, n, append-empty (take new_size bytes) added (ground (arith, long)))
            (truncate-Holds c bytes new_size h (ground arith))
    ]

module _ (allocate : ℕ → Option (List ℕ)) (allocates : IsAllocator allocate) where
  -- With an allocator whose blocks are as long as asked for, and sizes whose sum a size_t
  -- holds, inserting inside the bytes of a valid buffer leaves a valid one that holds those
  -- before the position, the new ones and those behind it, or after an exception the old ones.
  pub insert-Yields :
      (b : FastBuffer) (bytes new : List ℕ) (offset : ℕ)
      → Holds b bytes
      → offset ≤ length bytes
      → b.size + length new < 2 ^ 64
      → Yields bytes
          (take offset bytes ++ (new ++ drop offset bytes))
          (insert allocate b offset new)
  unfolding insert check_grow_and grow_and Yields validate_requested_size
  insert-Yields b bytes new offset h inside held =
      let whole = wrap-small (b.size + length new) held in
      let n = Holds-size b bytes h in
      let within : ltb b.size offset ≡ false = ground arith in
      elim (Bool-cases (length new == 0)) [
        | inl z ↦
            rw (insert, within, z)
              (subst (Holds b) (sym (take-empty-drop offset bytes new (ground arith))) h)
        | inr nz ↦
            rw (insert, within, nz)
              (check_grow_and-Yields allocate b bytes
                (take offset bytes ++ (new ++ drop offset bytes)) ((b.size + length new) % 2 ^ 64)
                (λ c.
                  record (write_data
                    (write_data c (offset + length new) (read_data c offset (c.size - offset)))
                    offset new) { size = (c.size + length new) % 2 ^ 64 })
                allocates h
                (λ c k room.
                  let same : c.size ≡ b.size = sym (Holds-size c bytes k) ∙ n in
                  insert_write-Holds c bytes new offset ((c.size + length new) % 2 ^ 64) k
                    (omega (arith, n, same)) (omega (arith, same, whole))
                    (omega (arith, same, whole))))
      ]

  -- With an allocator whose blocks are as long as asked for, resizing a valid buffer leaves a
  -- valid one that holds the first bytes, filled up to the new size, or after an exception the
  -- old ones.
  pub resize-Yields :
      (b : FastBuffer) (bytes : List ℕ) (new_size fill : ℕ)
      → Holds b bytes
      → Yields bytes
          (take new_size bytes ++ replicate (new_size - length bytes) fill)
          (resize allocate b new_size fill)
  unfolding resize check_grow_and grow_and
  resize-Yields b bytes new_size fill h =
      check_grow_and-Yields allocate b bytes
        (take new_size bytes ++ replicate (new_size - length bytes) fill) new_size
        (λ c.
          record (if ltb c.size new_size
            then write_data c c.size (replicate (new_size - c.size) fill)
            else c) { size = new_size })
        allocates h (λ c k room. resize_write-Holds c bytes new_size fill k room)
