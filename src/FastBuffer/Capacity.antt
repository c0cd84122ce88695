-- ===== src/FastBuffer/Capacity.antt =====
-- include/FastNet/FastBuffer.h: `ensureCapacity`, its compaction and its allocation.
use fast_net.FastBuffer.{
  FastBuffer, Exception.length_error, Outcome, max_size, base, read_data, to_vector, compact,
  release_heap, allocate_aligned, reallocate, ensure_capacity, validate_requested_size,
  new_capacity_for,
}
use fast_net.FastBuffer.Inv.{length-to_vector}
use fast_net.FastBuffer.Storage.{Holds, compact-Holds, compact-fields}
use fast_net.FastBuffer.Growth.{new_capacity_for-bounds}
use fast_net.Prelude.{ℕ, ◌+◌, ◌-◌, ◌*◌, ◌/◌, ◌≤◌, ◌<◌, ◌≡◌, refl, ap, sym, ◌∙◌, true, false}
use fast_net.Prelude.{
  inl, inr, Option, none, some, List, [], ◌∷◌, ltb, leb, ◌==◌, Bool-cases, Option-cases,
  if◌then◌else◌, ◌&&◌,
}
use fast_net.Prelude.{length, take, drop, arith}
use fast_net.Prelude.Memory.{write_bytes, length-write_bytes}
use fast_net.Prelude.Slices.{slice-write}

-- A block that the allocator hands out is as long as was asked for.
abbrev pub IsAllocator : (ℕ → Option (List ℕ)) → Type 0
IsAllocator allocate = (n : ℕ) (block : List ℕ) → allocate n ≡ some block → n ≤ length block

-- A buffer that keeps its bytes, with room for `required` of them unless there is an exception.
pub record HasRoom (required : ℕ) (bytes : List ℕ) (r : Outcome) : Type 0 where
  pub holds : Holds (r.0) bytes
  pub room : r.1 ≡ none → r.0.read_offset + required ≤ r.0.capacity

pub release_heap-fields :
    (b : FastBuffer)
    → b.read_offset ≡ 0
    → ((release_heap b).read_offset ≡ 0)
      × ((release_heap b).size ≡ b.size)
      × ((release_heap b).stack_buffer ≡ b.stack_buffer)
unfolding release_heap
release_heap-fields b e = (ground arith, ground arith, ground arith)

-- The copy is left out when there is nothing to copy.
pub copy-guard :
    (block live : List ℕ) (n : ℕ)
    → length live ≡ n
    → (if ltb 0 n then write_bytes block 0 live else block) ≡ write_bytes block 0 live
unfolding write_bytes
copy-guard block [] n e = rw (sym e) refl
copy-guard block (x ∷ live) n e = ground arith

pub copy-seen :
    (block live : List ℕ) (n : ℕ)
    → length live ≡ n
    → n ≤ length block
    → take n (write_bytes block 0 live) ≡ live
copy-seen block live n e h =
    let from_zero : n ≡ 0 + length live = omega arith in
    ap (λ k. take k (write_bytes block 0 live)) from_zero ∙ slice-write block 0 0 live (omega arith)

module _ (allocate : ℕ → Option (List ℕ)) (allocates : IsAllocator allocate) where
  pub allocate_aligned-length :
      (n : ℕ) (block : List ℕ) → allocate_aligned allocate n ≡ some block → n ≤ length block
  unfolding allocate_aligned
  allocate_aligned-length n block e = elim (Bool-cases (n == 0)) [
    | inl z ↦ ground arith
    | inr z ↦ let big = allocates ((n + 63) / 64 * 64) block (ground arith) in omega (arith, big)
  ]

  pub reallocate-HasRoom :
      (b : FastBuffer) (bytes : List ℕ) (required : ℕ)
      → Holds b bytes
      → b.size ≤ required
      → required ≤ max_size
      → b.read_offset ≡ 0
      → HasRoom required bytes (reallocate allocate b required)
  unfolding reallocate to_vector
  reallocate-HasRoom b bytes required h small fits start =
      let n = new_capacity_for b.capacity required in
      let bounds = new_capacity_for-bounds b.capacity required fits in
      let (offset, size, stack) = release_heap-fields b start in
      let live = read_data b 0 b.size in
      let live_seen : live ≡ to_vector b = ap (λ k. take b.size (drop k (base b))) (omega arith) in
      let count : length live ≡ b.size = ap length live_seen ∙ length-to_vector b h.valid in
      elim (Option-cases (allocate_aligned allocate n)) [
        | inl e ↦ rw (reallocate, e) (record { holds = h; room = λ r. absurd (cc r) })
        | inr (block, e) ↦
            let big : n ≤ length block = allocate_aligned-length n block e in
            let long : length (if ltb 0 b.size then write_bytes block 0 live else block)
                ≡ length block =
              ap length (copy-guard block live b.size count) ∙ length-write_bytes block 0 live in
            rw (reallocate, e)
              (record {
                holds = record {
                  valid = record {
                    stack = ap length stack ∙ h.valid.stack;
                    room = omega (arith, long);
                    inline = λ e. absurd (cc e);
                    fits = omega (arith, offset, size, bounds.0);
                  };
                  seen =
                      rw (offset, size, copy-guard block live b.size count)
                        (copy-seen block live b.size count (omega (arith, bounds.0))
                          ∙ live_seen
                          ∙ h.seen);
                };
                room = λ r. omega (arith, offset, bounds.0);
              })
      ]

  -- Room for `required` bytes, or an exception; what is read stays in both cases.
  pub ensure_capacity-HasRoom :
      (b : FastBuffer) (bytes : List ℕ) (required : ℕ)
      → Holds b bytes
      → HasRoom required bytes (ensure_capacity allocate b required)
  unfolding ensure_capacity validate_requested_size
  ensure_capacity-HasRoom b bytes required h = elim (Bool-cases (ltb max_size required)) [
    | inl big ↦ rw (ensure_capacity, big) (record { holds = h; room = λ r. absurd (cc r) })
    | inr le ↦ elim (Bool-cases (leb required (b.capacity - b.read_offset))) [
      | inl now ↦
          rw (ensure_capacity, le, now)
            (record { holds = h; room = λ r. ground (arith, h.valid.fits) })
      | inr full ↦
          let moved = compact-Holds b bytes h in
          let (start, size, capacity) = compact-fields b in
          elim (Bool-cases (leb required b.capacity && ltb 0 b.read_offset)) [
            | inl inside ↦
                rw (ensure_capacity, le, full, inside)
                  (record { holds = moved; room = λ r. ground (arith, start, capacity) })
            | inr outside ↦
                rw (ensure_capacity, le, full, outside)
                  (reallocate-HasRoom (compact b) bytes required moved
                    (ground (arith, size, h.valid.fits)) (ground arith) start)
          ]
    ]
  ]

  -- A request above the limit is refused before anything is touched.
  pub ensure_capacity-length_error :
      (b : FastBuffer) (required : ℕ)
      → max_size < required
      → ensure_capacity allocate b required ≡ (b, some length_error)
  unfolding ensure_capacity validate_requested_size
  ensure_capacity-length_error b required h =
      let big : ltb max_size required ≡ true = ground arith in rw big refl

  pub reallocate-none :
      (b : FastBuffer) (required : ℕ)
      → ((n : ℕ) → ¬ (allocate n ≡ none))
      → 1 ≤ required
      → required ≤ max_size
      → (reallocate allocate b required).1 ≡ none
  unfolding reallocate allocate_aligned
  reallocate-none b required succeeds h fits =
      let n = new_capacity_for b.capacity required in
      let bounds = new_capacity_for-bounds b.capacity required fits in
      elim (Option-cases (allocate_aligned allocate n)) [
        | inl e ↦ absurd (succeeds ((n + 63) / 64 * 64) (ground (arith, bounds.0)))
        | inr (block, e) ↦ rw (reallocate, e) refl
      ]

  -- No exception while the allocator has memory and the limit is kept.
  pub ensure_capacity-none :
      (b : FastBuffer) (required : ℕ)
      → ((n : ℕ) → ¬ (allocate n ≡ none))
      → required ≤ max_size
      → (ensure_capacity allocate b required).1 ≡ none
  unfolding ensure_capacity validate_requested_size
  ensure_capacity-none b required succeeds fits =
      let le : ltb max_size required ≡ false = ground arith in
      elim (Bool-cases (leb required (b.capacity - b.read_offset))) [
        | inl now ↦ rw (ensure_capacity, le, now) refl
        | inr full ↦ elim (Bool-cases (leb required b.capacity && ltb 0 b.read_offset)) [
          | inl inside ↦ rw (ensure_capacity, le, full, inside) refl
          | inr outside ↦
              rw (ensure_capacity, le, full, outside)
                (reallocate-none (compact b) required succeeds (ground arith) fits)
        ]
      ]
