-- ===== src/Timer/Manager.antt =====
-- The state of the TimerManager of src/Timer.cpp, its table of active timers and its queue.
use fast_net.Prelude.{ℕ, Bool, true, false, ◌&&◌, ◌||◌, ℤ, pos, negsuc}
use fast_net.Prelude.{Option, none, some, List, [], ◌∷◌, length}
use fast_net.Prelude.{ltb, leb, ◌==◌, if◌then◌else◌}

pub record TimerEntry : Type 0 where
  pub id : ℕ
  pub expire_time : ℕ
  pub interval : ℕ
  pub callback : ℕ
  pub repeat : Bool
  pub cancelled : Bool

-- Where the worker stands in its loop, with the `entry` that it holds. `ended` is also the thread
-- that has not been made.
pub data Worker : Type 0 where
  idle : Worker
  taken : ℕ → Worker
  calling : ℕ → Worker
  rearming : ℕ → Worker
  ended : Worker

-- The shared pointers are numbers below `allocated`, and `store` has what they point to. `stopping`
-- is true from the exchange in `stop` to its end; `calls` has the identifiers of the timers whose
-- callbacks have been called, the latest first.
pub record TimerManager : Type 0 where
  pub store : ℕ → TimerEntry
  pub allocated : ℕ
  pub timers : List ℕ
  pub active_timers : List (ℕ × ℕ)
  pub running : Bool
  pub stopping : Bool
  pub next_timer_id : ℕ
  pub worker : Worker
  pub calls : List ℕ

abbrev pub unused_entry : TimerEntry
unused_entry = record {
  id = 0;
  expire_time = 0;
  interval = 0;
  callback = 0;
  repeat = false;
  cancelled = false;
}

abbrev pub new_manager : TimerManager
new_manager = record {
  store = λ pointer. unused_entry;
  allocated = 0;
  timers = [];
  active_timers = [];
  running = false;
  stopping = false;
  next_timer_id = 1;
  worker = ended;
  calls = [];
}

-- `*pointer = entry`
unfoldable pub set_entry : (ℕ → TimerEntry) → ℕ → TimerEntry → ℕ → TimerEntry
set_entry store pointer entry p = if p == pointer then entry else store p

abbrev pub cancel_entry : TimerEntry → TimerEntry
cancel_entry entry = record entry { cancelled = true }

unfoldable pub find_timer : ℕ → List (ℕ × ℕ) → Option ℕ
find_timer id [] = none
find_timer id ((key, pointer) ∷ active) =
    let rest = find_timer id active in if key == id then some pointer else rest

-- `activeTimers_[id] = pointer`
unfoldable pub assign_timer : ℕ → ℕ → List (ℕ × ℕ) → List (ℕ × ℕ)
assign_timer id pointer [] = (id, pointer) ∷ []
assign_timer id pointer ((key, old) ∷ active) =
    let rest = assign_timer id pointer active in
    if key == id then (key, pointer) ∷ active else (key, old) ∷ rest

unfoldable pub erase_timer : ℕ → List (ℕ × ℕ) → List (ℕ × ℕ)
erase_timer id [] = []
erase_timer id ((key, pointer) ∷ active) =
    let rest = erase_timer id active in if key == id then rest else (key, pointer) ∷ rest

-- `top()` is an element that no other is due before; which one of several is left open.
unfoldable pub not_after : (ℕ → TimerEntry) → ℕ → List ℕ → Bool
not_after store top [] = true
not_after store top (p ∷ timers) =
    leb (store top).expire_time (store p).expire_time && not_after store top timers

abbrev pub is_queued : ℕ → List ℕ → Bool
is_queued pointer [] = false
is_queued pointer (p ∷ timers) = p == pointer || is_queued pointer timers

-- `pop()` of the element that `top()` gave.
unfoldable pub remove : ℕ → List ℕ → List ℕ
remove pointer [] = []
remove pointer (p ∷ timers) =
    let rest = remove pointer timers in if p == pointer then timers else p ∷ rest

-- `std::max` with a duration that may be negative.
unfoldable pub at_least : ℕ → ℤ → ℕ
at_least floor (pos n) = if ltb floor n then n else floor
at_least floor (negsuc n) = floor

abbrev pub get_active_timer_count : TimerManager → ℕ
get_active_timer_count m = length m.active_timers
