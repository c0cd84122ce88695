-- ===== src/FastBuffer.antt =====
-- include/FastNet/FastBuffer.h: a byte buffer with inline and heap storage and a read cursor.
-- A sum of two sizes wraps as a `size_t` does.
-- An operation that can throw returns the buffer that it leaves and the exception, if any.
pub mod Inv
pub mod Storage
pub mod Growth
pub mod Capacity
pub mod Refine
pub mod Append
pub mod Insert
pub mod Consume
pub mod Shrink
pub mod Transfer
pub mod Errors
pub mod Equal
pub mod Copy
mod Tests
use fast_net.Prelude.{
  ℕ, zero, suc, ◌+◌, ◌-◌, ◌*◌, ◌/◌, ◌%◌, ◌^◌, Bool, true, false, not, ◌&&◌, ◌||◌,
}
use fast_net.Prelude.{Option, none, some, List, [], ◌∷◌, ◌++◌, ltb, leb, ◌==◌, if◌then◌else◌}
use fast_net.Prelude.{length, take, drop, replicate}
use fast_net.Prelude.Memory.{write_bytes}

abbrev pub stack_size : ℕ
stack_size = 4096

abbrev pub max_size : ℕ
max_size = 64 * 1024 * 1024

-- The two storages are what the inline array and the heap block hold.
pub record FastBuffer : Type 0 where
  pub stack_buffer : List ℕ
  pub heap_buffer : List ℕ
  pub size : ℕ
  pub capacity : ℕ
  pub read_offset : ℕ
  pub using_heap : Bool

-- `std::length_error`, `std::bad_alloc` and `std::out_of_range`
pub data Exception : Type 0 where
  length_error bad_alloc out_of_range : Exception

abbrev pub Outcome : Type 0
Outcome = FastBuffer × Option Exception

infixl 5 ◌>>=◌
abbrev pub ◌>>=◌ : Outcome → (FastBuffer → Outcome) → Outcome
m >>= f = elim m.1 [ none ↦ f m.0 | some e ↦ (m.0, some e) ]

unfoldable pub empty_buffer : FastBuffer
empty_buffer = record {
  stack_buffer = replicate stack_size 0;
  heap_buffer = [];
  size = 0;
  capacity = stack_size;
  read_offset = 0;
  using_heap = false;
}

-- The storage in use: `data()` points `read_offset` bytes into it.
abbrev pub base : FastBuffer → List ℕ
base b = if b.using_heap then b.heap_buffer else b.stack_buffer

abbrev pub set_base : FastBuffer → List ℕ → FastBuffer
set_base b memory = record b {
  heap_buffer = if b.using_heap then memory else b.heap_buffer;
  stack_buffer = if b.using_heap then b.stack_buffer else memory;
}

-- The bytes `data()[from]` to `data()[from + count - 1]`.
abbrev pub read_data : FastBuffer → (from count : ℕ) → List ℕ
read_data b from count = take count (drop (b.read_offset + from) (base b))

-- `memcpy(data() + to, …)` and the like.
abbrev pub write_data : FastBuffer → (to : ℕ) → List ℕ → FastBuffer
write_data b to bytes = set_base b (write_bytes (base b) (b.read_offset + to) bytes)

-- `toVector()` and `toString()`: what a reader sees.
unfoldable pub to_vector : FastBuffer → List ℕ
to_vector b = take b.size (drop b.read_offset (base b))

unfoldable pub clear : FastBuffer → FastBuffer
clear b = record b { size = 0; read_offset = 0 }

unfoldable pub release_heap : FastBuffer → FastBuffer
release_heap b =
    if b.using_heap
    then record b { heap_buffer = []; using_heap = false; capacity = stack_size; read_offset = 0 }
    else b

unfoldable pub reset : FastBuffer → FastBuffer
reset b = release_heap (record b { size = 0; read_offset = 0 })

unfoldable pub compact : FastBuffer → FastBuffer
compact b =
    if b.read_offset == 0 || b.size == 0
    then record b { read_offset = 0 }
    else record (set_base b (write_bytes (base b) 0 (take b.size (drop b.read_offset (base b))))) {
      read_offset = 0;
    }

unfoldable pub move_to_stack : FastBuffer → FastBuffer
move_to_stack b = if not b.using_heap then b else record b {
  stack_buffer =
      if ltb 0 b.size then write_bytes b.stack_buffer 0 (read_data b 0 b.size) else b.stack_buffer;
  heap_buffer = [];
  capacity = stack_size;
  using_heap = false;
  read_offset = 0;
}

unfoldable pub validate_requested_size : FastBuffer → ℕ → Outcome
validate_requested_size b requested_size =
    (b, (if ltb max_size requested_size then some length_error else none))

-- `while (newCapacity < requiredCapacity)`, on fuel.
unfoldable pub grow_capacity : ℕ → (new_capacity required : ℕ) → ℕ
grow_capacity zero new_capacity required = new_capacity
grow_capacity (suc fuel) new_capacity required =
    let next =
      grow_capacity fuel (if leb new_capacity (max_size / 2) then new_capacity * 2 else max_size)
        required in
    if ltb new_capacity required then next else new_capacity

-- From one byte on, 26 doublings reach `max_size`.
abbrev pub growth_fuel : ℕ
growth_fuel = 27

unfoldable pub new_capacity_for : (capacity required : ℕ) → ℕ
unfolding grow_capacity
new_capacity_for capacity required =
    let start : ℕ = if capacity == 0 then stack_size else capacity in
    let grown = grow_capacity growth_fuel start required in
    let capped : ℕ = if ltb max_size grown then max_size else grown in
    if ltb capped required then required else capped

unfoldable pub pop_back : FastBuffer → FastBuffer
pop_back b = if ltb 0 b.size then record b { size = b.size - 1 } else b

unfoldable pub erase_front : FastBuffer → ℕ → FastBuffer
unfolding clear compact
erase_front b len =
    if leb b.size len
    then clear b
    else let moved = record b { read_offset = b.read_offset + len; size = b.size - len } in
      if ltb (b.capacity / 2) (b.read_offset + len) then compact moved else moved

-- The bytes that a caller hands over: from elsewhere, or a part of the buffer itself.
pub data Source : Type 0 where
  external : List ℕ → Source
  own : (offset len : ℕ) → Source

abbrev pub source_length : Source → ℕ
source_length (external bytes) = length bytes
source_length (own offset len) = len

-- A source in the buffer is read after the buffer has grown.
abbrev pub read_source : FastBuffer → Source → List ℕ
read_source b (external bytes) = bytes
read_source b (own offset len) = read_data b offset len

-- The allocator: `none` is `nullptr`, and a block holds anything.
module _ (allocate : ℕ → Option (List ℕ)) where
  unfoldable pub allocate_aligned : ℕ → Option (List ℕ)
  allocate_aligned size = if size == 0 then none else allocate ((size + 63) / 64 * 64)

  -- A bigger block for a compacted buffer.
  unfoldable pub reallocate : FastBuffer → ℕ → Outcome
  unfolding allocate_aligned release_heap
  reallocate b required =
      let new_capacity = new_capacity_for b.capacity required in
      elim (allocate_aligned new_capacity) [
        | none ↦ (b, some bad_alloc)
        | some block ↦
            let new_buffer =
              if ltb 0 b.size then write_bytes block 0 (read_data b 0 b.size) else block in
            (
              record (release_heap b) {
                heap_buffer = new_buffer;
                capacity = new_capacity;
                using_heap = true;
              },
              none,
            )
      ]

  unfoldable pub ensure_capacity : FastBuffer → ℕ → Outcome
  ensure_capacity b required = validate_requested_size b required >>= λ b.
      if leb required (b.capacity - b.read_offset)
      then (b, none)
      else if leb required b.capacity && ltb 0 b.read_offset
      then (compact b, none)
      else reallocate (compact b) required

  unfoldable pub resize : FastBuffer → ℕ → ℕ → Outcome
  resize b new_size fill = validate_requested_size b new_size >>= λ b.
      ensure_capacity b new_size >>= λ b.
      let filled =
        if ltb b.size new_size
        then write_data b b.size (replicate (new_size - b.size) fill)
        else b in
      (record filled { size = new_size }, none)

  unfoldable pub reserve : FastBuffer → ℕ → Outcome
  reserve b new_capacity =
      validate_requested_size b new_capacity >>= λ b. ensure_capacity b new_capacity

  unfoldable pub shrink_to_fit : FastBuffer → Outcome
  unfolding allocate_aligned move_to_stack
  shrink_to_fit b =
      if not b.using_heap
      then (b, none)
      else if leb b.size stack_size
      then (move_to_stack b, none)
      else if b.size == b.capacity
      then (b, none)
      else elim (allocate_aligned b.size) [
        | none ↦ (b, some bad_alloc)
        | some block ↦ (
          record b {
            heap_buffer = write_bytes block 0 (take b.size b.heap_buffer);
            capacity = b.size;
          },
          none,
        )
      ]

  unfoldable pub push_back : FastBuffer → ℕ → Outcome
  push_back b byte = ensure_capacity b ((b.size + 1) % 2 ^ 64) >>= λ b.
      (record (write_data b b.size (byte ∷ [])) { size = (b.size + 1) % 2 ^ 64 }, none)

  unfoldable pub append : FastBuffer → Source → Outcome
  append b source =
      let len = source_length source in
      let old_size = b.size in
      if len == 0
      then (b, none)
      else validate_requested_size b ((old_size + len) % 2 ^ 64) >>= λ b.
          ensure_capacity b ((old_size + len) % 2 ^ 64) >>= λ b. (
            record (write_data b old_size (read_source b source)) {
              size = (old_size + len) % 2 ^ 64;
            },
            none,
          )

  unfoldable pub append_fill : FastBuffer → (count fill : ℕ) → Outcome
  append_fill b count fill =
      let old_size = b.size in
      if count == 0
      then (b, none)
      else validate_requested_size b ((old_size + count) % 2 ^ 64) >>= λ b.
          ensure_capacity b ((old_size + count) % 2 ^ 64) >>= λ b. (
            record (write_data b old_size (replicate count fill)) {
              size = (old_size + count) % 2 ^ 64;
            },
            none,
          )

  unfoldable pub assign : FastBuffer → Source → Outcome
  assign b source =
      let len = source_length source in
      if len == 0
      then (clear b, none)
      else validate_requested_size b len >>= λ b. ensure_capacity b len >>= λ b.
          (record (write_data b 0 (read_source b source)) { size = len }, none)

  -- The copy constructor: what a constructor that throws has made is dropped.
  unfoldable pub copy : FastBuffer → Outcome
  unfolding to_vector empty_buffer
  copy other = assign empty_buffer (external (to_vector other))

  -- Copy assignment to another object.
  unfoldable pub copy_assign : FastBuffer → FastBuffer → Outcome
  unfolding to_vector
  copy_assign b other = assign b (external (to_vector other))

  -- The bytes of another object are appended.
  unfoldable pub append_buffer : FastBuffer → FastBuffer → Outcome
  unfolding to_vector
  append_buffer b other = append b (external (to_vector other))

  -- The bytes are copied out of their range before anything moves.
  unfoldable pub insert : FastBuffer → (offset : ℕ) → List ℕ → Outcome
  insert b offset bytes =
      if ltb b.size offset
      then (b, some out_of_range)
      else if length bytes == 0
      then (b, none)
      else validate_requested_size b ((b.size + length bytes) % 2 ^ 64) >>= λ b.
          ensure_capacity b ((b.size + length bytes) % 2 ^ 64) >>= λ b.
          let shifted =
            write_data b (offset + length bytes) (read_data b offset (b.size - offset)) in
          (
            record (write_data shifted offset bytes) { size = (b.size + length bytes) % 2 ^ 64 },
            none,
          )

-- `moveFrom`: the target, whose heap block is released, and the source that is left.
unfoldable pub move_from : FastBuffer → FastBuffer → FastBuffer × FastBuffer
move_from b other = (
  record {
    stack_buffer =
        if not other.using_heap && ltb 0 other.size
        then write_bytes b.stack_buffer 0
            (take other.size (drop other.read_offset other.stack_buffer))
        else b.stack_buffer;
    heap_buffer = if other.using_heap then other.heap_buffer else b.heap_buffer;
    size = other.size;
    capacity = other.capacity;
    read_offset = if not other.using_heap && ltb 0 other.size then 0 else other.read_offset;
    using_heap = other.using_heap;
  },
  record other {
    heap_buffer = if other.using_heap then [] else other.heap_buffer;
    size = 0;
    capacity = stack_size;
    using_heap = false;
    read_offset = 0;
  },
)

-- Move assignment to another object.
unfoldable pub move_assign : FastBuffer → FastBuffer → FastBuffer × FastBuffer
unfolding release_heap move_from
move_assign b other = move_from (release_heap b) other

-- `swap` of two objects.
unfoldable pub swap : FastBuffer → FastBuffer → FastBuffer × FastBuffer
unfolding move_from move_assign
swap b other =
    if b.using_heap && other.using_heap
    then (
      record b {
        heap_buffer = other.heap_buffer;
        size = other.size;
        capacity = other.capacity;
        read_offset = other.read_offset;
      },
      record other {
        heap_buffer = b.heap_buffer;
        size = b.size;
        capacity = b.capacity;
        read_offset = b.read_offset;
      },
    )
    else let (tmp, other1) = move_from empty_buffer other in
      let (other2, b1) = move_assign other1 b in let (b2, tmp1) = move_assign b1 tmp in (b2, other2)

-- `memcmp` of two ranges of one length is 0.
unfoldable pub bytes_equal : List ℕ → List ℕ → Bool
bytes_equal [] [] = true
bytes_equal [] (y ∷ ys) = false
bytes_equal (x ∷ xs) [] = false
bytes_equal (x ∷ xs) (y ∷ ys) = x == y && bytes_equal xs ys

unfoldable pub equal : FastBuffer → FastBuffer → Bool
unfolding bytes_equal
equal lhs rhs =
    if not (lhs.size == rhs.size)
    then false
    else if lhs.size == 0
    then true
    else bytes_equal (read_data lhs 0 lhs.size) (read_data rhs 0 lhs.size)
