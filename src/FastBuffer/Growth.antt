-- ===== src/FastBuffer/Growth.antt =====
-- include/FastNet/FastBuffer.h: the loop of `ensureCapacity` that doubles the capacity.
use fast_net.FastBuffer.{stack_size, max_size, grow_capacity, growth_fuel, new_capacity_for}
use fast_net.Prelude.{ℕ, zero, suc, ◌+◌, ◌*◌, ◌/◌, ◌^◌, ◌≤◌, ◌≡◌, refl, ap, ltb, leb, arith}
use fast_net.Prelude.{true}
use fast_net.Prelude.{if◌then◌else◌, ◌==◌}

pub grow_capacity_stops :
    (fuel start required : ℕ) → required ≤ start → grow_capacity fuel start required ≡ start
unfolding grow_capacity
grow_capacity_stops zero start required h = refl
grow_capacity_stops (suc fuel) start required h = ground arith

-- The loop never leaves `max_size` once the start is within it.
pub grow_capacity_le :
    (fuel start required : ℕ) → start ≤ max_size → grow_capacity fuel start required ≤ max_size
unfolding grow_capacity
grow_capacity_le zero start required h = h
grow_capacity_le (suc fuel) start required h =
    let rest : ℕ → ℕ = λ s. grow_capacity fuel s required in
    let twice : leb start (max_size / 2) ≡ true → rest (start * 2) ≤ max_size =
      λ e. grow_capacity_le fuel (start * 2) required (ground arith) in
    let top : rest max_size ≤ max_size = grow_capacity_le fuel max_size required (omega arith) in
    ground (arith, twice, top)

-- Each round doubles the start or stops at `max_size`: when the start has `j` binary digits and
-- `j + fuel` of them are enough for `required`, the loop gets there.
pub grow_capacity_ge :
    (fuel start required j : ℕ)
    → required ≤ max_size
    → 2 ^ j ≤ start
    → required ≤ 2 ^ (j + fuel)
    → required ≤ grow_capacity fuel start required
unfolding grow_capacity
grow_capacity_ge zero start required j h b c =
    let e : 2 ^ (j + 0) ≡ 2 ^ j = ap (λ k. 2 ^ k) (omega arith) in omega (arith, e)
grow_capacity_ge (suc fuel) start required j h b c =
    let e : 2 ^ (j + suc fuel) ≡ 2 ^ (suc j + fuel) = ap (λ k. 2 ^ k) (omega arith) in
    let d : 2 ^ suc j ≡ 2 ^ j * 2 = omega arith in
    let twice : required ≤ grow_capacity fuel (start * 2) required =
      grow_capacity_ge fuel (start * 2) required (suc j) h (omega (arith, d)) (omega (arith, e)) in
    let top : grow_capacity fuel max_size required ≡ max_size =
      grow_capacity_stops fuel max_size required h in
    ground (arith, twice, top)

-- From any capacity but 0 the growth loop reaches every size within the limit before its fuel
-- runs out.
pub grow_capacity-ends :
    (start required : ℕ)
    → 1 ≤ start
    → required ≤ max_size
    → required ≤ grow_capacity growth_fuel start required
grow_capacity-ends start required h k =
    grow_capacity_ge growth_fuel start required 0 k (omega arith) (omega arith)

at_most : (grown required : ℕ) → ℕ
at_most grown required =
    let capped : ℕ = if ltb max_size grown then max_size else grown in
    if ltb capped required then required else capped

at_most-bounds :
    (grown required : ℕ)
    → required ≤ max_size
    → (required ≤ at_most grown required) × (at_most grown required ≤ max_size)
unfolding at_most
at_most-bounds grown required h = (ground arith, ground arith)

-- A new block takes what is asked for, and is never bigger than a buffer may be.
pub new_capacity_for-bounds :
    (capacity required : ℕ)
    → required ≤ max_size
    → (required ≤ new_capacity_for capacity required)
      × (new_capacity_for capacity required ≤ max_size)
unfolding new_capacity_for at_most
new_capacity_for-bounds capacity required h =
    at_most-bounds
      (grow_capacity growth_fuel (if capacity == 0 then stack_size else capacity) required) required
      h
