-- ===== src/MpscQueue/Tests.antt =====
-- Interleavings of the queue, and the theorems at concrete inputs.
use fast_net.Prelude.{ℕ, ◌≡◌, ◌↔◌, refl, true, false, none, some, List, [], ◌∷◌}
use fast_net.MpscQueue.Queue.{
  Consumer.resting, MpscQueue, new_queue, exchange, link, link_to, drop_nth, try_pop, pop_next,
  drain_round, drain_next, Action, Action.exchanges, Action.links, Action.pops, Action.begins_drain,
  Action.drains, step, run, pushed, empty, destroy,
}
use fast_net.MpscQueue.Destroy.{IsEmptied, run-destroy}
use fast_net.MpscQueue.Fifo.{IsFifo, run-IsFifo, try_pop-pushed}

-- The second producer stores first: the consumer waits for the first one.
abbrev crossed : List (Action ℕ)
crossed =
    exchanges 5
    ∷ exchanges 6
    ∷ links 1
    ∷ pops
    ∷ links 0
    ∷ begins_drain none
    ∷ drains
    ∷ exchanges 7
    ∷ drains
    ∷ drains
    ∷ []

abbrev reached : List (Action ℕ) → MpscQueue ℕ
reached actions = elim (run actions (new_queue 0)) [ none ↦ new_queue 0 | some q ↦ q ]

run-crossed :
    (run crossed (new_queue 0) ≡ some (reached crossed))
    × ((reached crossed).taken ≡ 5 ∷ 6 ∷ [])
    × (empty (reached crossed) ≡ true)
unfolding run step exchange link link_to drop_nth try_pop pop_next drain_round drain_next empty
run-crossed = (refl, refl, refl)

run-IsFifo_example : IsFifo (pushed crossed) (reached crossed)
run-IsFifo_example = run-IsFifo crossed 0 (reached crossed) run-crossed.0

abbrev done : List (Action ℕ)
done = exchanges 5 ∷ exchanges 6 ∷ links 1 ∷ links 0 ∷ pops ∷ []

run-done :
    (run done (new_queue 0) ≡ some (reached done))
    × ((reached done).consumer ≡ resting)
    × ((reached done).unlinked ≡ [])
unfolding run step exchange link link_to drop_nth try_pop pop_next
run-done = (refl, refl, refl)

try_pop-pushed_example : ((try_pop (reached done)).0 ≡ false) ↔ ((reached done).taken ≡ pushed done)
try_pop-pushed_example = try_pop-pushed done 0 (reached done) run-done.0 run-done.1 run-done.2

run-destroy_example : IsEmptied (reached done).allocated (destroy (reached done))
run-destroy_example = run-destroy done 0 (reached done) run-done.0 run-done.1 run-done.2
