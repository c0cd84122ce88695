-- ===== src/FastBuffer/Shrink.antt =====
-- include/FastNet/FastBuffer.h: `reset`, `moveToStack` and `shrink_to_fit` on the byte string.
use fast_net.FastBuffer.{
  FastBuffer, Outcome, Exception.bad_alloc, stack_size, base, read_data, to_vector, release_heap,
  reset, move_to_stack, shrink_to_fit, allocate_aligned,
}
use fast_net.FastBuffer.Inv.{IsValid, length-to_vector}
use fast_net.FastBuffer.Storage.{Holds}
use fast_net.FastBuffer.Capacity.{IsAllocator, allocate_aligned-length, copy-seen, copy-guard}
use fast_net.FastBuffer.Refine.{Yields}
use fast_net.Prelude.{ℕ, ◌≤◌, ◌<◌, ◌≡◌, refl, ap, sym, ◌∙◌, true, false, not}
use fast_net.Prelude.{
  inl, inr, Option, none, some, List, [], leb, ◌==◌, Bool-cases, Option-cases, if◌then◌else◌,
  if_true, if_false, subst,
}
use fast_net.Prelude.{length, take, drop, arith}
use fast_net.Prelude.Memory.{write_bytes, length-write_bytes}

-- A valid buffer is valid and empty once it is reset.
pub reset-Holds : (b : FastBuffer) → IsValid b → Holds (reset b) []
unfolding reset release_heap to_vector
reset-Holds b h = elim (Bool-cases b.using_heap) [
  | inl heap ↦
      rw (reset, release_heap, heap)
        (record {
          valid = record {
            stack = h.stack;
            room = omega (arith, h.stack);
            inline = λ e. refl;
            fits = omega arith;
          };
          seen = refl;
        })
  | inr stack ↦
      subst (λ c. Holds c []) (sym (if_false _ _ stack))
        (record {
          valid = record { stack = h.stack; room = h.room; inline = h.inline; fits = omega arith };
          seen = refl;
        })
]

-- Bytes that fit inline are kept when they move there.
pub move_to_stack-Holds :
    (b : FastBuffer) (bytes : List ℕ)
    → Holds b bytes
    → b.size ≤ stack_size
    → Holds (move_to_stack b) bytes
unfolding move_to_stack to_vector
move_to_stack-Holds b bytes h small =
    let live = read_data b 0 b.size in
    let live_seen : live ≡ to_vector b = ap (λ k. take b.size (drop k (base b))) (omega arith) in
    let count : length live ≡ b.size = ap length live_seen ∙ length-to_vector b h.valid in
    let memory = write_bytes b.stack_buffer 0 live in
    let long : length memory ≡ stack_size =
      length-write_bytes b.stack_buffer 0 live ∙ h.valid.stack in
    let copied = copy-guard b.stack_buffer live b.size count in
    elim (Bool-cases b.using_heap) [
      | inl heap ↦
          subst (λ c. Holds c bytes) (sym (if_false _ _ (ap not heap)))
            (record {
              valid = record {
                stack = ap length copied ∙ long;
                room = omega (arith, ap length copied, long);
                inline = λ e. refl;
                fits = omega arith;
              };
              seen =
                  ap (take b.size) copied
                  ∙ copy-seen b.stack_buffer live b.size count (omega (arith, h.valid.stack))
                  ∙ live_seen
                  ∙ h.seen;
            })
      | inr stack ↦ subst (λ c. Holds c bytes) (sym (if_true _ _ (ap not stack))) h
    ]

-- The block that `shrink_to_fit` takes over, when the bytes start at its base.
shrunk-Holds :
    (b : FastBuffer) (bytes block : List ℕ)
    → Holds b bytes
    → b.read_offset ≡ 0
    → b.using_heap ≡ true
    → b.size ≤ length block
    → Holds
        (record b {
          heap_buffer = write_bytes block 0 (take b.size b.heap_buffer);
          capacity = b.size;
        })
        bytes
unfolding to_vector
shrunk-Holds b bytes block h start heap long =
    let live = take b.size b.heap_buffer in
    let memory = write_bytes block 0 live in
    let in_use : base b ≡ b.heap_buffer = if_true _ _ heap in
    let new_base : (if b.using_heap then memory else b.stack_buffer) ≡ memory = if_true _ _ heap in
    let live_seen : live ≡ to_vector b =
      ap (take b.size) (sym in_use) ∙ ap (λ k. take b.size (drop k (base b))) (sym start) in
    let count : length live ≡ b.size = ap length live_seen ∙ length-to_vector b h.valid in
    let kept : length memory ≡ length block = length-write_bytes block 0 live in
    record {
      valid = record {
        stack = h.valid.stack;
        room = omega (arith, ap length new_base, kept);
        inline = λ e. absurd (cc (sym heap ∙ e));
        fits = omega arith;
      };
      seen =
          ap (λ l. take b.size (drop b.read_offset l)) new_base
          ∙ ap (λ k. take b.size (drop k memory)) start
          ∙ copy-seen block live b.size count long
          ∙ live_seen
          ∙ h.seen;
    }

module _ (allocate : ℕ → Option (List ℕ)) (allocates : IsAllocator allocate) where
  -- With an allocator whose blocks are as long as asked for, shrinking a valid buffer that
  -- reads from the start of its storage keeps its bytes, also after an exception.
  pub shrink_to_fit-Yields :
      (b : FastBuffer) (bytes : List ℕ)
      → Holds b bytes
      → b.read_offset ≡ 0
      → Yields bytes bytes (shrink_to_fit allocate b)
  unfolding shrink_to_fit Yields
  shrink_to_fit-Yields b bytes h start =
      let to : (r s : Outcome) → r ≡ s → Yields bytes bytes s → Yields bytes bytes r =
        λ r s e y. subst (Yields bytes bytes) (sym e) y in
      elim (Bool-cases b.using_heap) [
        | inr stack ↦ to _ _ (if_true _ _ (ap not stack)) h
        | inl heap ↦
            let on_heap = ap not heap in
            elim (Bool-cases (leb b.size stack_size)) [
              | inl small ↦
                  to _ _ (if_false _ _ on_heap ∙ if_true _ _ small)
                    (move_to_stack-Holds b bytes h (ground arith))
              | inr big ↦ elim (Bool-cases (b.size == b.capacity)) [
                | inl full ↦ to _ _ (if_false _ _ on_heap ∙ if_false _ _ big ∙ if_true _ _ full) h
                | inr loose ↦
                    to _ _ (if_false _ _ on_heap ∙ if_false _ _ big ∙ if_false _ _ loose)
                      (elim (Option-cases (allocate_aligned allocate b.size)) [
                        | inl e ↦ rw e h
                        | inr (block, e) ↦ rw e (
                            shrunk-Holds b bytes block h start heap
                              (allocate_aligned-length allocate allocates b.size block e))
                      ])
              ]
            ]
      ]

  -- When a valid heap buffer of more bytes than fit inline has been partly read, and a block is
  -- allocated, shrink_to_fit leaves a buffer that is not valid.
  pub shrink_to_fit-breaks :
      (b : FastBuffer) (block : List ℕ)
      → IsValid b
      → b.using_heap ≡ true
      → 0 < b.read_offset
      → stack_size < b.size
      → allocate_aligned allocate b.size ≡ some block
      → ¬ IsValid (shrink_to_fit allocate b).0
  unfolding shrink_to_fit
  shrink_to_fit-breaks b block h heap start big e valid =
      let big_size : leb b.size stack_size ≡ false = ground arith in
      let loose : (b.size == b.capacity) ≡ false = ground (arith, h.fits) in
      let steps =
        if_false _ _ (ap not heap)
        ∙ if_false _ _ big_size
        ∙ if_false _ _ loose
        ∙ ap
            (λ m. elim m as (λ m. Outcome) [
              | none ↦ (b, some bad_alloc)
              | some block ↦ (
                record b {
                  heap_buffer = write_bytes block 0 (take b.size b.heap_buffer);
                  capacity = b.size;
                },
                none,
              )
            ])
            e in
      let broken = subst (λ r. IsValid (r.0)) steps valid in absurd (omega (arith, broken.fits))
