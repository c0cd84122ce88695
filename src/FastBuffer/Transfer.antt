-- ===== src/FastBuffer/Transfer.antt =====
-- include/FastNet/FastBuffer.h: moving and swapping buffers.
use fast_net.FastBuffer.{
  FastBuffer, stack_size, base, to_vector, empty_buffer, release_heap, move_from, move_assign, swap,
}
use fast_net.FastBuffer.Inv.{IsValid, length-to_vector}
use fast_net.FastBuffer.Storage.{Holds, empty_buffer-Holds}
use fast_net.FastBuffer.Capacity.{copy-seen}
use fast_net.Prelude.{ℕ, ◌≡◌, refl, ap, sym, ◌∙◌, true, ◌&&◌}
use fast_net.Prelude.{inl, inr, List, [], ltb, Bool-cases, if◌then◌else◌, if_true, if_false, subst}
use fast_net.Prelude.{length, take, drop, arith}
use fast_net.Prelude.Memory.{write_bytes, length-write_bytes}

-- The target of a move only has to have its inline array.
abbrev pub HasStack : FastBuffer → Type 0
HasStack b = length b.stack_buffer ≡ stack_size

move_from-left :
    (b other : FastBuffer) (bytes : List ℕ) → Holds other bytes → Holds (move_from b other).1 []
unfolding move_from to_vector
move_from-left b other bytes h = record {
  valid = record {
    stack = h.valid.stack;
    room = omega (arith, h.valid.stack);
    inline = λ e. refl;
    fits = omega arith;
  };
  seen = refl;
}

move_from-taken :
    (b other : FastBuffer) (bytes : List ℕ)
    → HasStack b
    → Holds other bytes
    → Holds (move_from b other).0 bytes
unfolding move_from to_vector
move_from-taken b other bytes s h =
    let live = take other.size (drop other.read_offset other.stack_buffer) in
    elim (Bool-cases other.using_heap) [
      | inl heap ↦
          let in_use : base other ≡ other.heap_buffer = if_true _ _ heap in
          rw heap (record {
            valid = record {
              stack = s;
              room = omega (arith, h.valid.room, ap length in_use);
              inline = λ e. absurd (cc e);
              fits = h.valid.fits;
            };
            seen = ap (λ l. take other.size (drop other.read_offset l)) (sym in_use) ∙ h.seen;
          })
      | inr inline ↦
          let in_use : base other ≡ other.stack_buffer = if_false _ _ inline in
          let capacity = h.valid.inline inline in
          elim (Bool-cases (ltb 0 other.size)) [
            | inl full ↦
                let live_seen : live ≡ to_vector other =
                  ap (λ l. take other.size (drop other.read_offset l)) (sym in_use) in
                let count : length live ≡ other.size =
                  ap length live_seen ∙ length-to_vector other h.valid in
                let long : length (write_bytes b.stack_buffer 0 live) ≡ stack_size =
                  length-write_bytes b.stack_buffer 0 live ∙ s in
                rw (inline, full)
                  (record {
                    valid = record {
                      stack = long;
                      room = omega (arith, long, capacity);
                      inline = λ e. capacity;
                      fits = omega (arith, h.valid.fits);
                    };
                    seen =
                        copy-seen b.stack_buffer live other.size count
                          (omega (arith, capacity, s, h.valid.fits))
                        ∙ live_seen
                        ∙ h.seen;
                  })
            | inr empty ↦
                let none_left : other.size ≡ 0 = ground arith in
                rw (inline, empty)
                  (record {
                    valid = record {
                      stack = s;
                      room = omega (arith, s, capacity);
                      inline = λ e. capacity;
                      fits = h.valid.fits;
                    };
                    seen =
                        ap (λ k. take k (drop other.read_offset b.stack_buffer)) none_left
                        ∙ sym (ap (λ k. take k (drop other.read_offset (base other))) none_left)
                        ∙ h.seen;
                  })
          ]
    ]

pub move_from-Holds :
    (b other : FastBuffer) (bytes : List ℕ)
    → HasStack b
    → Holds other bytes
    → Holds (move_from b other).0 bytes × Holds (move_from b other).1 []
move_from-Holds b other bytes s h =
    (move_from-taken b other bytes s h, move_from-left b other bytes h)

release_heap-stack : (b : FastBuffer) → length (release_heap b).stack_buffer ≡ length b.stack_buffer
unfolding release_heap
release_heap-stack b = ground arith

-- Moving a valid buffer into another leaves the bytes in the target, and an empty valid buffer
-- behind.
pub move_assign-Holds :
    (b other : FastBuffer) (bytes : List ℕ)
    → IsValid b
    → Holds other bytes
    → Holds (move_assign b other).0 bytes × Holds (move_assign b other).1 []
unfolding move_assign
move_assign-Holds b other bytes v h =
    move_from-Holds (release_heap b) other bytes (release_heap-stack b ∙ v.stack) h

-- A heap buffer that takes over the block of another.
adopt-Holds :
    (b other : FastBuffer) (bytes : List ℕ)
    → IsValid b
    → Holds other bytes
    → b.using_heap ≡ true
    → other.using_heap ≡ true
    → Holds
        (record b {
          heap_buffer = other.heap_buffer;
          size = other.size;
          capacity = other.capacity;
          read_offset = other.read_offset;
        })
        bytes
unfolding to_vector
adopt-Holds b other bytes v h heap heap_other =
    let in_use : base other ≡ other.heap_buffer = if_true _ _ heap_other in
    let new_base : (if b.using_heap then other.heap_buffer else b.stack_buffer) ≡ base other =
      if_true _ _ heap ∙ sym in_use in
    record {
      valid = record {
        stack = v.stack;
        room = omega (arith, ap length new_base, h.valid.room);
        inline = λ e. absurd (cc (sym heap ∙ e));
        fits = h.valid.fits;
      };
      seen = ap (λ l. take other.size (drop other.read_offset l)) new_base ∙ h.seen;
    }

-- Swapping two valid buffers leaves two valid ones, each with the bytes of the other, whichever
-- storage they use.
pub swap-Holds :
    (b other : FastBuffer) (bytes others : List ℕ)
    → Holds b bytes
    → Holds other others
    → Holds (swap b other).0 others × Holds (swap b other).1 bytes
unfolding swap
swap-Holds b other bytes others h k =
    let Swapped : FastBuffer × FastBuffer → Type 0 = λ r. Holds r.0 others × Holds r.1 bytes in
    elim (Bool-cases (b.using_heap && other.using_heap)) [
      | inl both ↦
          let heap : b.using_heap ≡ true = ground arith in
          let heap_other : other.using_heap ≡ true = ground arith in
          subst Swapped (sym (if_true _ _ both)) (
            adopt-Holds b other others h.valid k heap heap_other,
            adopt-Holds other b bytes k.valid h heap_other heap,
          )
      | inr one ↦
          let (tmp, other1) =
            move_from-Holds empty_buffer other others empty_buffer-Holds.valid.stack k in
          let (other2, b1) = move_assign-Holds _ b bytes other1.valid h in
          let (b2, tmp1) = move_assign-Holds _ _ others b1.valid tmp in
          subst Swapped (sym (if_false _ _ one)) (b2, other2)
    ]
