-- ===== src/FastBuffer/Inv.antt =====
-- include/FastNet/FastBuffer.h: the invariant of a buffer, and the storage in use.
use fast_net.FastBuffer.{FastBuffer, stack_size, base, set_base, to_vector}
use fast_net.Prelude.{ℕ, ◌+◌, ◌≤◌, ◌≡◌, false}
use fast_net.Prelude.{List}
use fast_net.Prelude.{length, drop, length-take, length-drop, arith}

-- The live bytes lie inside the storage in use, which is as big as the buffer says.
pub record IsValid (b : FastBuffer) : Type 0 where
  pub stack : length b.stack_buffer ≡ stack_size
  pub room : b.capacity ≤ length (base b)
  pub inline : b.using_heap ≡ false → b.capacity ≡ stack_size
  pub fits : b.read_offset + b.size ≤ b.capacity

pub base-set_base : (b : FastBuffer) (memory : List ℕ) → base (set_base b memory) ≡ memory
base-set_base b memory = ground arith

pub set_base-IsValid :
    (b : FastBuffer) (memory : List ℕ)
    → IsValid b
    → length memory ≡ length (base b)
    → IsValid (set_base b memory)
set_base-IsValid b memory h e = record {
  stack = ground (arith, h.stack);
  room = ground (arith, h.room);
  inline = h.inline;
  fits = h.fits;
}

pub length-to_vector : (b : FastBuffer) → IsValid b → length (to_vector b) ≡ b.size
unfolding to_vector
length-to_vector b h = omega (
  arith,
  length-take b.size (drop b.read_offset (base b)),
  length-drop b.read_offset (base b),
  h.room,
  h.fits,
)
