-- ===== src/MpscQueue/Queue.antt =====
-- The queue of include/FastNet/MpscQueue.h and the steps of its threads. A node is a number, and no
-- number is given out twice.
use fast_net.Prelude.{ℕ, zero, suc, ◌+◌, Bool, true, false, ◌||◌}
use fast_net.Prelude.{Option, none, some, List, [], ◌∷◌, ◌++◌, get_elem?, ltb, ◌==◌, if◌then◌else◌}

-- What the consumer is at: no call, or a drain with its local tail, the number of items that it has
-- taken and its budget, which is `none` in `drainAll`.
pub data Consumer : Type 0 where
  resting : Consumer
  draining : ℕ → ℕ → Option ℕ → Consumer

-- `next` and `value` are the members of the nodes. `unlinked` has the previous head and the node of
-- each producer between its exchange and its store. `taken` is what the consumer has been given,
-- and `touched_freed` whether a deleted node has been accessed.
pub record MpscQueue (A : Type 0) : Type 0 where
  pub next : ℕ → Option ℕ
  pub value : ℕ → A
  pub freed : ℕ → Bool
  pub allocated : ℕ
  pub head : ℕ
  pub tail : ℕ
  pub consumer : Consumer
  pub unlinked : List (ℕ × ℕ)
  pub taken : List A
  pub touched_freed : Bool

abbrev pub update {ℓ} : {A : Type ℓ} → (ℕ → A) → ℕ → A → ℕ → A
update f p a q = if q == p then a else f q

unfoldable pub drop_nth : ℕ → List (ℕ × ℕ) → List (ℕ × ℕ)
drop_nth i [] = []
drop_nth zero (e ∷ l) = l
drop_nth (suc i) (e ∷ l) = e ∷ drop_nth i l

abbrev pub is_below : ℕ → Option ℕ → Bool
is_below n none = true
is_below n (some budget) = ltb n budget

abbrev pub when_resting {ℓ} : {B : Type ℓ} → Consumer → B → Option B
when_resting resting q = some q
when_resting (draining tail n budget) q = none

module _ {A : Type 0} where
  -- The queue with its stub, whose value is `T{}`.
  abbrev pub new_queue : A → MpscQueue A
  new_queue empty = record {
    next = λ p. none;
    value = λ p. empty;
    freed = λ p. false;
    allocated = 1;
    head = 0;
    tail = 0;
    consumer = resting;
    unlinked = [];
    taken = [];
    touched_freed = false;
  }

  -- `push` up to its exchange: the new node is the producer's own until then.
  unfoldable pub exchange : A → MpscQueue A → MpscQueue A
  exchange v q = record q {
    next = update q.next q.allocated none;
    value = update q.value q.allocated v;
    freed = update q.freed q.allocated false;
    allocated = q.allocated + 1;
    head = q.allocated;
    unlinked = q.unlinked ++ (q.head, q.allocated) ∷ [];
  }

  -- The store of one of the producers, which comes `i`-th in the order of their exchanges.
  unfoldable pub link_to : Option (ℕ × ℕ) → ℕ → MpscQueue A → Option (MpscQueue A)
  link_to none i q = none
  link_to (some (prev, node)) i q = some (record q {
    next = update q.next prev (some node);
    unlinked = drop_nth i q.unlinked;
    touched_freed = q.touched_freed || q.freed prev;
  })

  unfoldable pub link : ℕ → MpscQueue A → Option (MpscQueue A)
  unfolding link_to
  link i q = link_to (get_elem? q.unlinked i) i q

  -- An item is moved out of the next node, and the old tail deleted.
  abbrev pub take_next : ℕ → ℕ → MpscQueue A → MpscQueue A
  take_next tail next q = record q {
    taken = q.taken ++ q.value next ∷ [];
    freed = update q.freed tail true;
    touched_freed = q.touched_freed || q.freed tail || q.freed next;
  }

  unfoldable pub pop_next : Option ℕ → MpscQueue A → Bool × MpscQueue A
  pop_next none q = (false, record q { touched_freed = q.touched_freed || q.freed q.tail })
  pop_next (some next) q = (true, record (take_next q.tail next q) { tail = next })

  unfoldable pub try_pop : MpscQueue A → Bool × MpscQueue A
  unfolding pop_next
  try_pop q = pop_next (q.next q.tail) q

  -- The end of a drain writes the tail back.
  unfoldable pub drain_next : Option ℕ → ℕ → ℕ → Option ℕ → MpscQueue A → MpscQueue A
  drain_next none tail n budget q = record q {
    tail = tail;
    consumer = resting;
    touched_freed = q.touched_freed || q.freed tail;
  }
  drain_next (some next) tail n budget q = record (take_next tail next q) {
    consumer = draining next (n + 1) budget;
  }

  -- A round of `drainAll` or `drainUpTo`.
  unfoldable pub drain_round : Consumer → MpscQueue A → Option (MpscQueue A)
  unfolding drain_next
  drain_round resting q = none
  drain_round (draining tail n budget) q = some (
      if is_below n budget
      then drain_next (q.next tail) tail n budget q
      else record q { tail = tail; consumer = resting })

  abbrev pub begin_drain : Option ℕ → MpscQueue A → MpscQueue A
  begin_drain budget q = record q { consumer = draining q.tail 0 budget }

  unfoldable pub empty : MpscQueue A → Bool
  empty q = elim (q.next q.tail) [ none ↦ true | some next ↦ false ]

  abbrev pub delete_node : ℕ → MpscQueue A → MpscQueue A
  delete_node curr q = record q {
    freed = update q.freed curr true;
    touched_freed = q.touched_freed || q.freed curr;
  }

  -- The loop of the destructor, with fuel: `none` is where the fuel ran out.
  unfoldable pub delete_nodes : ℕ → Option ℕ → MpscQueue A → Option (MpscQueue A)
  delete_nodes fuel none q = some q
  delete_nodes zero (some curr) q = none
  delete_nodes (suc fuel) (some curr) q = delete_nodes fuel (q.next curr) (delete_node curr q)

  -- The destructor. No more nodes are linked than were allocated.
  unfoldable pub destroy : MpscQueue A → Option (MpscQueue A)
  unfolding delete_nodes
  destroy q = delete_nodes q.allocated (some q.tail) q

-- A step of a producer or of the consumer, which makes one call after the other.
pub data Action (A : Type 0) : Type 0 where
  exchanges : A → Action A
  links : ℕ → Action A
  pops : Action A
  begins_drain : Option ℕ → Action A
  drains : Action A

module _ {A : Type 0} where
  unfoldable pub step : Action A → MpscQueue A → Option (MpscQueue A)
  step (exchanges v) q = some (exchange v q)
  step (links i) q = link i q
  step pops q = when_resting q.consumer (try_pop q).1
  step (begins_drain budget) q = when_resting q.consumer (begin_drain budget q)
  step drains q = drain_round q.consumer q

  unfoldable pub run : List (Action A) → MpscQueue A → Option (MpscQueue A)
  run [] q = some q
  run (a ∷ actions) q = elim (step a q) as (λ _. Option (MpscQueue A)) [
    | none ↦ none
    | some q ↦ run actions q
  ]

  -- The values in the order of the exchanges.
  unfoldable pub pushed : List (Action A) → List A
  pushed [] = []
  pushed (exchanges v ∷ actions) = v ∷ pushed actions
  pushed (links i ∷ actions) = pushed actions
  pushed (pops ∷ actions) = pushed actions
  pushed (begins_drain budget ∷ actions) = pushed actions
  pushed (drains ∷ actions) = pushed actions
