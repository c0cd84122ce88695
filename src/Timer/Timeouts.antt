-- ===== src/Timer/Timeouts.antt =====
-- The class ConnectionTimeoutManager of src/Timer.cpp, over a TimerManager. `closure` names the
-- lambda that holds a connection and its callback.
pub mod Refresh
use fast_net.Prelude.{ℕ, Bool, true, false, ℤ, Option, none, some, List, [], ◌∷◌, length}
use fast_net.Prelude.{◌==◌, if◌then◌else◌}
use fast_net.Timer.Manager.{TimerManager}
use fast_net.Timer.Clients.{schedule, cancel_timer}

pub record ConnectionTimeout : Type 0 where
  pub conn_id : ℕ
  pub timer_id : ℕ
  pub timeout : ℤ
  pub callback : Option ℕ

pub record ConnectionTimeoutManager : Type 0 where
  pub timer_manager : TimerManager
  pub connections : List (ℕ × ConnectionTimeout)

unfoldable pub find_connection : ℕ → List (ℕ × ConnectionTimeout) → Option ConnectionTimeout
find_connection id [] = none
find_connection id ((key, entry) ∷ connections) =
    let rest = find_connection id connections in if key == id then some entry else rest

-- `connections_[id] = entry`
unfoldable pub assign_connection :
    ℕ → ConnectionTimeout → List (ℕ × ConnectionTimeout) → List (ℕ × ConnectionTimeout)
assign_connection id entry [] = (id, entry) ∷ []
assign_connection id entry ((key, old) ∷ connections) =
    let rest = assign_connection id entry connections in
    if key == id then (key, entry) ∷ connections else (key, old) ∷ rest

unfoldable pub erase_connection : ℕ → List (ℕ × ConnectionTimeout) → List (ℕ × ConnectionTimeout)
erase_connection id [] = []
erase_connection id ((key, entry) ∷ connections) =
    let rest = erase_connection id connections in if key == id then rest else (key, entry) ∷ rest

abbrev pub get_managed_connection_count : ConnectionTimeoutManager → ℕ
get_managed_connection_count m = length m.connections

-- Whether the timer was still active makes no difference.
unfoldable pub cancel_existing : Option ConnectionTimeout → TimerManager → TimerManager
unfolding cancel_timer
cancel_existing none timers = timers
cancel_existing (some existing) timers = (cancel_timer existing.timer_id timers).1

module _ (closure : ℕ → Option ℕ → ℕ) (now : ℕ) where
  unfoldable pub set_connection_timeout :
      (conn_id : ℕ) (timeout : ℤ)
      → Option ℕ
      → ConnectionTimeoutManager
      → Option ConnectionTimeoutManager
  unfolding schedule assign_connection find_connection cancel_existing
  set_connection_timeout conn_id timeout callback m =
      let cancelled = cancel_existing (find_connection conn_id m.connections) m.timer_manager in
      elim (schedule now timeout (some (closure conn_id callback)) false cancelled) [
        | none ↦ none
        | some (timer_id, timers) ↦
            let entry : ConnectionTimeout = record {
              conn_id = conn_id;
              timer_id = timer_id;
              timeout = timeout;
              callback = callback;
            } in
            some (record {
              timer_manager = timers;
              connections = assign_connection conn_id entry m.connections;
            })
      ]

  unfoldable pub refresh_connection :
      (conn_id : ℕ) → ConnectionTimeoutManager → Option ConnectionTimeoutManager
  unfolding schedule assign_connection find_connection cancel_existing
  refresh_connection conn_id m = elim (find_connection conn_id m.connections) [
    | none ↦ some m
    | some entry ↦
        let cancelled = cancel_existing (some entry) m.timer_manager in
        elim (schedule now entry.timeout (some (closure conn_id entry.callback)) false cancelled) [
          | none ↦ none
          | some (timer_id, timers) ↦ some (record {
            timer_manager = timers;
            connections =
                assign_connection conn_id (record entry { timer_id = timer_id }) m.connections;
          })
        ]
  ]

unfoldable pub remove_connection :
    (conn_id : ℕ) → ConnectionTimeoutManager → ConnectionTimeoutManager
unfolding find_connection erase_connection cancel_existing
remove_connection conn_id m = elim (find_connection conn_id m.connections) [
  | none ↦ m
  | some entry ↦ record {
    timer_manager = cancel_existing (some entry) m.timer_manager;
    connections = erase_connection conn_id m.connections;
  }
]
