-- ===== src/FastBuffer/Errors.antt =====
-- include/FastNet/FastBuffer.h: which exceptions the operations that grow a buffer throw.
use fast_net.FastBuffer.{
  FastBuffer, Exception, Exception.length_error, Outcome, Source, source_length, read_source,
  read_data, write_data, max_size, validate_requested_size, append, append_fill, push_back, resize,
  insert,
}
use fast_net.FastBuffer.Capacity.{IsAllocator, ensure_capacity-length_error}
use fast_net.FastBuffer.Refine.{grow_and, check_grow_and, check_grow_and-grow_and, grow_and-none}
use fast_net.Prelude.{ℕ, ◌+◌, ◌-◌, ◌≤◌, ◌<◌, ◌%◌, ◌^◌, ◌≡◌, refl, ap, sym, ◌∙◌, false}
use fast_net.Prelude.{
  inl, inr, Option, none, some, List, [], ◌∷◌, ltb, ◌==◌, Bool-cases, if◌then◌else◌, if_false,
  replicate, length, arith,
}

-- What a request for `required` bytes ends in while there is memory.
unfoldable pub refusal : ℕ → Option Exception
refusal required = if ltb max_size required then some length_error else none

module _ (allocate : ℕ → Option (List ℕ)) (allocates : IsAllocator allocate)
    (succeeds : (n : ℕ) → ¬ (allocate n ≡ none)) where
  grow_and-refusal :
      (b : FastBuffer) (required : ℕ) (write : FastBuffer → FastBuffer)
      → (grow_and allocate b required write).1 ≡ refusal required
  unfolding grow_and refusal
  grow_and-refusal b required write = elim (Bool-cases (ltb max_size required)) [
    | inl big ↦
        let refused = ensure_capacity-length_error allocate allocates b required (ground arith) in
        rw (grow_and, refused, refusal, big) refl
    | inr small ↦
        grow_and-none allocate b required write allocates succeeds (ground arith)
        ∙ sym (if_false _ _ small)
  ]

  check_grow_and-refusal :
      (b : FastBuffer) (required : ℕ) (write : FastBuffer → FastBuffer)
      → (check_grow_and allocate b required write).1 ≡ refusal required
  check_grow_and-refusal b required write =
      ap (λ (r : Outcome). r.1) (check_grow_and-grow_and allocate b required write)
      ∙ grow_and-refusal b required write

  pub push_back-refusal :
      (b : FastBuffer) (byte : ℕ) → (push_back allocate b byte).1 ≡ refusal ((b.size + 1) % 2 ^ 64)
  unfolding push_back grow_and
  push_back-refusal b byte =
      grow_and-refusal b ((b.size + 1) % 2 ^ 64)
        (λ c. record (write_data c c.size (byte ∷ [])) { size = (c.size + 1) % 2 ^ 64 })

  pub resize-refusal :
      (b : FastBuffer) (new_size fill : ℕ) → (resize allocate b new_size fill).1 ≡ refusal new_size
  unfolding resize check_grow_and grow_and
  resize-refusal b new_size fill = check_grow_and-refusal b new_size (λ c.
      record (if ltb c.size new_size
        then write_data c c.size (replicate (new_size - c.size) fill)
        else c) { size = new_size })

  pub append-refusal :
      (b : FastBuffer) (source : Source)
      → 0 < source_length source
      → (append allocate b source).1 ≡ refusal ((b.size + source_length source) % 2 ^ 64)
  unfolding append check_grow_and grow_and
  append-refusal b source h =
      let nonempty : (source_length source == 0) ≡ false = ground arith in
      ap (λ (r : Outcome). r.1) (if_false _ _ nonempty)
      ∙ check_grow_and-refusal b ((b.size + source_length source) % 2 ^ 64) (λ c.
        record (write_data c b.size (read_source c source)) {
          size = (b.size + source_length source) % 2 ^ 64;
        })

  pub append_fill-refusal :
      (b : FastBuffer) (count fill : ℕ)
      → 0 < count
      → (append_fill allocate b count fill).1 ≡ refusal ((b.size + count) % 2 ^ 64)
  unfolding append_fill check_grow_and grow_and
  append_fill-refusal b count fill h =
      let nonempty : (count == 0) ≡ false = ground arith in
      ap (λ (r : Outcome). r.1) (if_false _ _ nonempty)
      ∙ check_grow_and-refusal b ((b.size + count) % 2 ^ 64) (λ c.
        record (write_data c b.size (replicate count fill)) { size = (b.size + count) % 2 ^ 64 })

  pub insert-refusal :
      (b : FastBuffer) (offset : ℕ) (new : List ℕ)
      → offset ≤ b.size
      → 0 < length new
      → (insert allocate b offset new).1 ≡ refusal ((b.size + length new) % 2 ^ 64)
  unfolding insert check_grow_and grow_and validate_requested_size
  insert-refusal b offset new h k =
      let within : ltb b.size offset ≡ false = ground arith in
      let nonempty : (length new == 0) ≡ false = ground arith in
      ap (λ (r : Outcome). r.1) (if_false _ _ within ∙ if_false _ _ nonempty)
      ∙ check_grow_and-refusal b ((b.size + length new) % 2 ^ 64) (λ c.
        record (write_data
          (write_data c (offset + length new) (read_data c offset (c.size - offset))) offset new) {
            size = (c.size + length new) % 2 ^ 64;
          })

  -- While the allocator hands out blocks as long as asked for and never none, push_back,
  -- resize, the two forms of append, and insert end in a length_error exactly when the new
  -- size, wrapped to 64 bits, is above the limit, and else in no exception; what is appended or
  -- inserted is not empty, and inserted inside the bytes.
  pub growth-refusal :
      (b : FastBuffer) (source : Source) (offset new_size count byte : ℕ) (new : List ℕ)
      → offset ≤ b.size
      → 0 < length new
      → 0 < source_length source
      → 0 < count
      → ((push_back allocate b byte).1 ≡ refusal ((b.size + 1) % 2 ^ 64))
        × ((resize allocate b new_size byte).1 ≡ refusal new_size)
        × ((append allocate b source).1 ≡ refusal ((b.size + source_length source) % 2 ^ 64))
        × ((append_fill allocate b count byte).1 ≡ refusal ((b.size + count) % 2 ^ 64))
        × ((insert allocate b offset new).1 ≡ refusal ((b.size + length new) % 2 ^ 64))
  growth-refusal b source offset new_size count byte new h k l n = (
    push_back-refusal b byte,
    resize-refusal b new_size byte,
    append-refusal b source l,
    append_fill-refusal b count byte n,
    insert-refusal b offset new h k,
  )
