-- ===== src/FastBuffer/Tests.antt =====
-- include/FastNet/FastBuffer.h: concrete buffers, and the theorems at them.
use fast_net.FastBuffer.{
  FastBuffer, Source.own, write_data, empty_buffer, append, append_fill, push_back, resize, insert,
  reset, move_to_stack, shrink_to_fit, allocate_aligned,
}
use fast_net.FastBuffer.Inv.{IsValid}
use fast_net.FastBuffer.Storage.{Holds, empty_buffer-Holds, write_data-Holds}
use fast_net.FastBuffer.Capacity.{IsAllocator}
use fast_net.FastBuffer.Refine.{Yields, IsPart, source_bytes}
use fast_net.FastBuffer.Append.{append-Yields}
use fast_net.FastBuffer.Insert.{insert-Yields}
use fast_net.FastBuffer.Shrink.{reset-Holds, move_to_stack-Holds, shrink_to_fit-breaks}
use fast_net.FastBuffer.Errors.{refusal, growth-refusal}
use fast_net.Prelude.{ℕ, ◌-◌, ◌^◌, ◌≡◌, refl, ap, true}
use fast_net.Prelude.{Option, none, some, List, [], ◌∷◌, replicate, length, length-replicate, arith}

-- An allocator with blocks of zeros.
abbrev zeros : ℕ → Option (List ℕ)
zeros n = some (replicate n 0)

zeros-IsAllocator : IsAllocator zeros
zeros-IsAllocator n block e =
    let same : replicate n 0 ≡ block = cc e in
    omega (arith, length-replicate {A = ℕ} n 0, ap length same)

zeros-succeeds : (n : ℕ) → ¬ (zeros n ≡ none)
zeros-succeeds n e = cc e

abbrev three_bytes : FastBuffer
three_bytes = record (write_data empty_buffer 0 (7 ∷ 8 ∷ 9 ∷ [])) { size = 3 }

three_bytes-Holds : Holds three_bytes (7 ∷ 8 ∷ 9 ∷ [])
unfolding empty_buffer
three_bytes-Holds =
    write_data-Holds empty_buffer [] (7 ∷ 8 ∷ 9 ∷ []) 3 empty_buffer-Holds refl (omega arith)

append-Yields_example :
    Yields (7 ∷ 8 ∷ 9 ∷ []) (7 ∷ 8 ∷ 9 ∷ 8 ∷ 9 ∷ []) (append zeros three_bytes (own 1 2))
unfolding IsPart source_bytes
append-Yields_example =
    append-Yields zeros zeros-IsAllocator three_bytes (7 ∷ 8 ∷ 9 ∷ []) (own 1 2) three_bytes-Holds
      (omega arith) (omega arith)

insert-Yields_example :
    Yields (7 ∷ 8 ∷ 9 ∷ []) (7 ∷ 1 ∷ 2 ∷ 8 ∷ 9 ∷ []) (insert zeros three_bytes 1 (1 ∷ 2 ∷ []))
insert-Yields_example =
    insert-Yields zeros zeros-IsAllocator three_bytes (7 ∷ 8 ∷ 9 ∷ []) (1 ∷ 2 ∷ []) 1
      three_bytes-Holds (omega arith) (omega arith)

reset-Holds_example : Holds (reset three_bytes) []
reset-Holds_example = reset-Holds three_bytes three_bytes-Holds.valid

move_to_stack-Holds_example : Holds (move_to_stack three_bytes) (7 ∷ 8 ∷ 9 ∷ [])
unfolding empty_buffer
move_to_stack-Holds_example =
    move_to_stack-Holds three_bytes (7 ∷ 8 ∷ 9 ∷ []) three_bytes-Holds (omega arith)

-- Ten of 5010 bytes on the heap are read.
abbrev partly_read : FastBuffer
partly_read = record {
  stack_buffer = replicate 4096 0;
  heap_buffer = replicate 8192 0;
  size = 5000;
  capacity = 8192;
  read_offset = 10;
  using_heap = true;
}

partly_read-IsValid : IsValid partly_read
partly_read-IsValid = record {
  stack = length-replicate {A = ℕ} 4096 0;
  room = omega (arith, length-replicate {A = ℕ} 8192 0);
  inline = λ e. absurd (cc e);
  fits = omega arith;
}

shrink_to_fit-breaks_example : ¬ IsValid (shrink_to_fit zeros partly_read).0
unfolding allocate_aligned
shrink_to_fit-breaks_example =
    shrink_to_fit-breaks zeros zeros-IsAllocator partly_read (replicate 5056 0) partly_read-IsValid
      refl (omega arith) (omega arith) refl

growth-refusal_example :
    ((push_back zeros three_bytes 1).1 ≡ refusal 4)
    × ((resize zeros three_bytes 70000000 1).1 ≡ refusal 70000000)
    × ((append zeros three_bytes (own 0 3)).1 ≡ refusal 6)
    × ((append_fill zeros three_bytes (2 ^ 64 - 3) 1).1 ≡ refusal 0)
    × ((insert zeros three_bytes 3 (1 ∷ [])).1 ≡ refusal 4)
unfolding empty_buffer
growth-refusal_example =
    growth-refusal zeros zeros-IsAllocator zeros-succeeds three_bytes (own 0 3) 3 70000000
      (2 ^ 64 - 3) 1 (1 ∷ []) (omega arith) (omega arith) (omega arith) (omega arith)
