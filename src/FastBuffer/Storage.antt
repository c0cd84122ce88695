-- ===== src/FastBuffer/Storage.antt =====
-- include/FastNet/FastBuffer.h: what the bytes of a buffer are after it is compacted or written.
use fast_net.FastBuffer.{
  FastBuffer, stack_size, base, write_data, to_vector, compact, clear, empty_buffer,
}
use fast_net.FastBuffer.Inv.{IsValid, base-set_base, set_base-IsValid, length-to_vector}
use fast_net.Prelude.{ℕ, ◌+◌, ◌≤◌, ◌≡◌, refl, ap, sym, ◌∙◌}
use fast_net.Prelude.{inl, inr, List, [], ◌++◌, ◌==◌, Bool-cases, ◌||◌}
use fast_net.Prelude.{length, take, drop, length-replicate, arith}
use fast_net.Prelude.Memory.{write_bytes, length-write_bytes}
use fast_net.Prelude.Slices.{slice-write}

-- A valid buffer whose reader sees `bytes`.
pub record Holds (b : FastBuffer) (bytes : List ℕ) : Type 0 where
  pub valid : IsValid b
  pub seen : to_vector b ≡ bytes

pub Holds-size : (b : FastBuffer) (bytes : List ℕ) → Holds b bytes → length bytes ≡ b.size
Holds-size b bytes h = ap length (sym h.seen) ∙ length-to_vector b h.valid

pub empty_buffer-Holds : Holds empty_buffer []
unfolding empty_buffer to_vector
empty_buffer-Holds = record {
  valid = record {
    stack = length-replicate {A = ℕ} stack_size 0;
    room = omega (arith, length-replicate {A = ℕ} stack_size 0);
    inline = λ e. refl;
    fits = omega arith;
  };
  seen = refl;
}

pub clear-Holds : (b : FastBuffer) → IsValid b → Holds (clear b) []
unfolding clear to_vector
clear-Holds b h = record {
  valid = record { stack = h.stack; room = h.room; inline = h.inline; fits = omega arith };
  seen = refl;
}

-- Appending to the live bytes, where there is room behind them.
pub write_data-Holds :
    (b : FastBuffer) (bytes new : List ℕ) (size : ℕ)
    → Holds b bytes
    → size ≡ b.size + length new
    → b.read_offset + size ≤ b.capacity
    → Holds (record (write_data b b.size new) { size = size }) (bytes ++ new)
unfolding to_vector
write_data-Holds b bytes new size h e room =
    let memory = write_bytes (base b) (b.read_offset + b.size) new in
    let valid =
      set_base-IsValid b memory h.valid
        (length-write_bytes (base b) (b.read_offset + b.size) new) in
    record {
      valid = record { stack = valid.stack; room = valid.room; inline = valid.inline; fits = room };
      seen =
          ap (λ l. take size (drop b.read_offset l)) (base-set_base b memory)
          ∙ ap (λ k. take k (drop b.read_offset memory)) e
          ∙ slice-write (base b) b.read_offset b.size new (omega (arith, h.valid.room))
          ∙ ap (λ l. l ++ new) h.seen;
    }

-- Overwriting the live bytes from the first on.
pub write_front-Holds :
    (b : FastBuffer) (new : List ℕ) (size : ℕ)
    → IsValid b
    → size ≡ length new
    → b.read_offset + size ≤ b.capacity
    → Holds (record (write_data b 0 new) { size = size }) new
unfolding to_vector
write_front-Holds b new size h e room =
    let at = b.read_offset + 0 in
    let from_zero : length new ≡ 0 + length new = omega arith in
    let memory = write_bytes (base b) at new in
    let valid = set_base-IsValid b memory h (length-write_bytes (base b) at new) in
    record {
      valid = record { stack = valid.stack; room = valid.room; inline = valid.inline; fits = room };
      seen =
          ap (λ l. take size (drop b.read_offset l)) (base-set_base b memory)
          ∙ ap (λ k. take k (drop b.read_offset memory)) (e ∙ from_zero)
          ∙ slice-write (base b) b.read_offset 0 new (omega (arith, h.room));
    }

-- Moving the live bytes to the start of the storage changes nothing that is read.
pub compact-to_vector : (b : FastBuffer) → IsValid b → to_vector (compact b) ≡ to_vector b
unfolding compact to_vector
compact-to_vector b h = elim (Bool-cases (b.read_offset == 0)) [
  | inl e ↦ let zero_offset : b.read_offset ≡ 0 = ground arith in rw (e, zero_offset) refl
  | inr e ↦ elim (Bool-cases (b.size == 0)) [
    | inl f ↦ let zero_size : b.size ≡ 0 = ground arith in rw (e, f, zero_size) refl
    | inr f ↦
        let live = take b.size (drop b.read_offset (base b)) in
        let n : length live ≡ b.size = length-to_vector b h in
        let from_zero : length live ≡ 0 + length live = omega arith in
        rw (e, f)
          (ap (take b.size) (base-set_base b (write_bytes (base b) 0 live))
            ∙ ap (λ k. take k (write_bytes (base b) 0 live)) (sym n ∙ from_zero)
            ∙ slice-write (base b) 0 0 live (omega (arith, n, h.room, h.fits)))
  ]
]

pub compact-IsValid : (b : FastBuffer) → IsValid b → IsValid (compact b)
unfolding compact
compact-IsValid b h = elim (Bool-cases (b.read_offset == 0 || b.size == 0)) [
  | inl e ↦
      rw e
        (record { stack = h.stack; room = h.room; inline = h.inline; fits = omega (arith, h.fits) })
  | inr e ↦
      let live = take b.size (drop b.read_offset (base b)) in
      let memory = write_bytes (base b) 0 live in
      let valid = set_base-IsValid b memory h (length-write_bytes (base b) 0 live) in
      rw e (record {
        stack = valid.stack;
        room = valid.room;
        inline = valid.inline;
        fits = omega (arith, h.fits);
      })
]

pub compact-Holds : (b : FastBuffer) (bytes : List ℕ) → Holds b bytes → Holds (compact b) bytes
compact-Holds b bytes h = record {
  valid = compact-IsValid b h.valid;
  seen = compact-to_vector b h.valid ∙ h.seen;
}

-- What compacting leaves as it was, and the cursor that it resets.
pub compact-fields :
    (b : FastBuffer)
    → ((compact b).read_offset ≡ 0)
      × ((compact b).size ≡ b.size)
      × ((compact b).capacity ≡ b.capacity)
unfolding compact
compact-fields b = elim (Bool-cases (b.read_offset == 0 || b.size == 0)) [
  | inl e ↦ rw e (refl, refl, refl)
  | inr e ↦ rw e (refl, refl, refl)
]
