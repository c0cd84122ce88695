-- ===== src/MpscQueue/Fifo.antt =====
-- The order of the queue of include/FastNet/MpscQueue.h, and that its nodes are used while they live.
use fast_net.Prelude.{ℕ, ◌+◌, ◌≤◌, ◌≡◌, ◌↔◌, refl, ap, sym, subst, ◌∙◌, Bool, true, false, ◌||◌}
use fast_net.Prelude.{
  Option, none, some, List, [], ◌∷◌, ◌++◌, length, length-take, append-nil, append_assoc, get_elem?,
  take, drop, take-append-drop, if◌then◌else◌, arith,
}
use fast_net.Prelude.Slices.{take_all}
use fast_net.MpscQueue.Queue.{
  Consumer, Consumer.resting, Consumer.draining, MpscQueue, new_queue, link_to, link, pop_next,
  try_pop, drain_next, drain_round, begin_drain, is_below, when_resting, Action, Action.exchanges,
  Action.links, Action.pops, Action.begins_drain, Action.drains, step, run, pushed,
}
use fast_net.MpscQueue.Waiting.{waiting}
use fast_net.MpscQueue.Inv.{
  place_of, is_linked, IsValid, new_queue-IsValid, exchange-IsValid, link-IsValid,
  take_next-IsValid, stay-IsValid,
}

module _ {A : Type 0} where
  abbrev Kept : List A → Option (MpscQueue A) → Type 0
  Kept l none = Unit {0}
  Kept l (some q) = IsValid l q

  link_to-Kept :
      (l : List A) (i : ℕ) (o : Option (ℕ × ℕ)) (q : MpscQueue A)
      → get_elem? q.unlinked i ≡ o
      → IsValid l q
      → Kept l (link_to o i q)
  unfolding link_to
  link_to-Kept l i none q h w = tt
  link_to-Kept l i (some (prev, node)) q h w = link-IsValid l prev node i q h w

  pop_next-IsValid :
      (l : List A) (o : Option ℕ) (q : MpscQueue A)
      → q.next q.tail ≡ o
      → q.consumer ≡ resting
      → IsValid l q
      → IsValid l (pop_next o q).1
  unfolding pop_next
  pop_next-IsValid l none q h r w =
      stay-IsValid l q.tail q.consumer (q.touched_freed || q.freed q.tail) q refl
        (ground (arith, w.safe, w.deleted q.tail, ap (λ c. place_of c q.tail) r)) w
  pop_next-IsValid l (some n) q h r w =
      take_next-IsValid l q.tail n n q.consumer q (ap (λ c. place_of c q.tail) r) h
        (ap (λ c. place_of c n) r) w

  when_resting-Kept :
      (l : List A) (c : Consumer) (q : MpscQueue A)
      → (c ≡ resting → IsValid l q)
      → Kept l (when_resting c q)
  when_resting-Kept l resting q h = h refl
  when_resting-Kept l (draining tail n budget) q h = tt

  drain_next-IsValid :
      (l : List A) (o : Option ℕ) (tail n : ℕ) (budget : Option ℕ) (q : MpscQueue A)
      → q.next tail ≡ o
      → place_of q.consumer q.tail ≡ tail
      → IsValid l q
      → IsValid l (drain_next o tail n budget q)
  unfolding drain_next
  drain_next-IsValid l none tail n budget q h e w =
      stay-IsValid l tail resting (q.touched_freed || q.freed tail) q (sym e)
        (ground (arith, w.safe, w.deleted tail, e)) w
  drain_next-IsValid l (some next) tail n budget q h e w =
      take_next-IsValid l tail next q.tail (draining next (n + 1) budget) q e h refl w

  IsValid-if :
      (l : List A) (t : Bool) (q r : MpscQueue A)
      → IsValid l q
      → IsValid l r
      → IsValid l (if t then q else r)
  IsValid-if l true q r v w = v
  IsValid-if l false q r v w = w

  drain_round-Kept :
      (l : List A) (c : Consumer) (q : MpscQueue A)
      → q.consumer ≡ c
      → IsValid l q
      → Kept l (drain_round c q)
  unfolding drain_round
  drain_round-Kept l resting q h w = tt
  drain_round-Kept l (draining tail n budget) q h w =
      let e : place_of q.consumer q.tail ≡ tail = ap (λ c. place_of c q.tail) h in
      IsValid-if l (is_below n budget) _ _
        (drain_next-IsValid l (q.next tail) tail n budget q refl e w)
        (stay-IsValid l tail resting q.touched_freed q (sym e) w.safe w)

  -- The values exchanged once a step is made.
  abbrev also : List A → Action A → List A
  also l (exchanges v) = l ++ v ∷ []
  also l (links i) = l
  also l pops = l
  also l (begins_drain budget) = l
  also l drains = l

  step-Kept :
      (a : Action A) (l : List A) (q : MpscQueue A) → IsValid l q → Kept (also l a) (step a q)
  unfolding step link try_pop
  step-Kept (exchanges v) l q w = exchange-IsValid l v q w
  step-Kept (links i) l q w = link_to-Kept l i (get_elem? q.unlinked i) q refl w
  step-Kept pops l q w =
      when_resting-Kept l q.consumer (try_pop q).1
        (λ r. pop_next-IsValid l (q.next q.tail) q refl r w)
  step-Kept (begins_drain budget) l q w =
      when_resting-Kept l q.consumer (begin_drain budget q) (λ r.
        stay-IsValid l q.tail (draining q.tail 0 budget) q.touched_freed q
          (sym (ap (λ c. place_of c q.tail) r)) w.safe w)
  step-Kept drains l q w = drain_round-Kept l q.consumer q refl w

  also-pushed :
      (a : Action A) (l : List A) (actions : List (Action A))
      → also l a ++ pushed actions ≡ l ++ pushed (a ∷ actions)
  unfolding pushed
  also-pushed (exchanges v) l actions = append_assoc l (v ∷ []) (pushed actions)
  also-pushed (links i) l actions = refl
  also-pushed pops l actions = refl
  also-pushed (begins_drain budget) l actions = refl
  also-pushed drains l actions = refl

  Kept-then :
      (l m : List A) (o : Option (MpscQueue A)) (f : MpscQueue A → Option (MpscQueue A))
      → Kept l o
      → ((q : MpscQueue A) → IsValid l q → Kept m (f q))
      → Kept m (elim o as (λ _. Option (MpscQueue A)) [ none ↦ none | some q ↦ f q ])
  Kept-then l m none f k h = tt
  Kept-then l m (some q) f k h = h q k

  run-Kept :
      (actions : List (Action A)) (l : List A) (q : MpscQueue A)
      → IsValid l q
      → Kept (l ++ pushed actions) (run actions q)
  unfolding run pushed
  run-Kept [] l q w = subst (λ m. IsValid m q) (sym (append-nil l)) w
  run-Kept (a ∷ actions) l q w =
      Kept-then (also l a) (l ++ pushed (a ∷ actions)) (step a q) (run actions) (step-Kept a l q w)
        (λ r v.
          subst (λ m. Kept m (run actions r)) (also-pushed a l actions)
            (run-Kept actions (also l a) r v))

  pub run-IsValid :
      (actions : List (Action A)) (v : A) (q : MpscQueue A)
      → run actions (new_queue v) ≡ some q
      → IsValid (pushed actions) q
  run-IsValid actions v q h =
      subst (Kept (pushed actions)) h (run-Kept actions [] (new_queue v) (new_queue-IsValid v))

  -- What was taken comes first among the values `l`, and no deleted node was touched.
  abbrev pub IsFifo : List A → MpscQueue A → Type 0
  IsFifo l q = ((rest : List A) × (q.taken ++ rest ≡ l)) × (q.touched_freed ≡ false)

  -- After any interleaving of the steps of the producers and of the consumer on a new queue,
  -- what the consumer has taken comes first, in order, among the values of the exchanges so
  -- far, each as often as it was pushed, and no step has accessed a deleted node.
  pub run-IsFifo :
      (actions : List (Action A)) (v : A) (q : MpscQueue A)
      → run actions (new_queue v) ≡ some q
      → IsFifo (pushed actions) q
  run-IsFifo actions v q h =
      let l = pushed actions in
      let w = run-IsValid actions v q h in
      let place = place_of q.consumer q.tail in
      ((drop place l, ap (λ t. t ++ drop place l) w.given ∙ take-append-drop place l), w.safe)

  pop_all :
      (l : List A) (o : Option ℕ) (q : MpscQueue A)
      → q.next q.tail ≡ o
      → q.consumer ≡ resting
      → q.unlinked ≡ []
      → IsValid l q
      → ((pop_next o q).0 ≡ false) ↔ (q.taken ≡ l)
  unfolding pop_next waiting
  pop_all l none q h r u w =
      let idle : waiting q.tail q.unlinked ≡ 0 = ap (waiting q.tail) u in
      let place = ap (λ c. place_of c q.tail) r in
      let all : length l ≤ place_of q.consumer q.tail =
        ground (arith, w.links q.tail, ap is_linked h, w.count) in
      (λ f. w.given ∙ take_all (place_of q.consumer q.tail) l all, λ e. refl)
  pop_all l (some n) q h r u w = (λ f. absurd (cc (f)), λ e. absurd (more e))
    where
      more : q.taken ≡ l → ⊥
      more e =
          let place : place_of q.consumer q.tail ≡ q.tail = ap (λ c. place_of c q.tail) r in
          let all : length (take (place_of q.consumer q.tail) l) ≡ length l =
            ap length (sym w.given ∙ e) in
          let linked : is_linked (q.next q.tail) ≡ 1 = ap is_linked h in
          ground (arith, w.links q.tail, w.count, length-take (place_of q.consumer q.tail) l)

  -- After any interleaving of steps, when no producer is between its exchange and its store and
  -- the consumer is in no call, tryPop returns false exactly when the consumer has taken every
  -- value that was pushed.
  pub try_pop-pushed :
      (actions : List (Action A)) (v : A) (q : MpscQueue A)
      → run actions (new_queue v) ≡ some q
      → q.consumer ≡ resting
      → q.unlinked ≡ []
      → ((try_pop q).0 ≡ false) ↔ (q.taken ≡ pushed actions)
  unfolding try_pop
  try_pop-pushed actions v q h r u =
      pop_all (pushed actions) (q.next q.tail) q refl r u (run-IsValid actions v q h)
