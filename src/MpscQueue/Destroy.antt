-- ===== src/MpscQueue/Destroy.antt =====
-- The destructor of the queue of include/FastNet/MpscQueue.h.
use fast_net.Prelude.{ℕ, zero, suc, ◌+◌, ◌≤◌, ◌<◌, ◌≡◌, ap, sym, subst, ◌∙◌, false}
use fast_net.Prelude.{Option, none, some, List, [], ltb, if◌then◌else◌, Bool-cases, inl, inr, arith}
use fast_net.MpscQueue.Queue.{
  Consumer.resting, MpscQueue, new_queue, delete_node, delete_nodes, destroy, Action, run,
}
use fast_net.MpscQueue.Waiting.{waiting}
use fast_net.MpscQueue.Inv.{place_of, is_linked, Follows}
use fast_net.MpscQueue.Fifo.{run-IsValid}

linked-chain :
    (p head : ℕ) (o : Option ℕ)
    → Follows p o
    → is_linked o ≡ (if ltb p head then 1 else 0)
    → o ≡ (if ltb p head then some (p + 1) else none)
linked-chain p head none f h = ground arith
linked-chain p head (some n) f h = ground (arith, f)

module _ {A : Type 0} where
  -- The nodes before `p` are deleted and none of them was touched; the others are linked.
  record IsDeletedTo (head p : ℕ) (q : MpscQueue A) : Type 0 where
    chain : (r : ℕ) → q.next r ≡ (if ltb r head then some (r + 1) else none)
    deleted : (r : ℕ) → q.freed r ≡ ltb r p
    safe : q.touched_freed ≡ false

  delete_node-IsDeletedTo :
      (head p : ℕ) (q : MpscQueue A)
      → IsDeletedTo head p q
      → IsDeletedTo head (p + 1) (delete_node p q)
  delete_node-IsDeletedTo head p q w = record {
    chain = w.chain;
    deleted = λ r. ground (arith, w.deleted r);
    safe = ground (arith, w.safe, w.deleted p);
  }

  -- What a walk over the nodes leaves.
  abbrev pub IsEmptied : ℕ → Option (MpscQueue A) → Type 0
  IsEmptied count none = ⊥
  IsEmptied count (some q) = ((r : ℕ) → q.freed r ≡ ltb r count) × (q.touched_freed ≡ false)

  delete_nodes-IsEmptied :
      (fuel head p : ℕ) (q : MpscQueue A)
      → IsDeletedTo head p q
      → p ≤ head
      → head < p + fuel
      → IsEmptied (head + 1) (delete_nodes fuel (some p) q)
  unfolding delete_nodes
  delete_nodes-IsEmptied zero head p q w h enough = absurd (omega arith)
  delete_nodes-IsEmptied (suc fuel) head p q w h enough =
      let v = delete_node-IsDeletedTo head p q w in
      elim (Bool-cases (ltb p head)) [
        | inl e ↦
            let next : q.next p ≡ some (p + 1) = ground (arith, w.chain p) in
            rw next (
              delete_nodes-IsEmptied fuel head (p + 1) (delete_node p q) v (ground arith)
                (omega arith))
        | inr e ↦
            let next : q.next p ≡ none = ground (arith, w.chain p) in
            let last : p ≡ head = ground arith in
            rw next (λ r. v.deleted r ∙ ap (λ n. ltb r (n + 1)) last, v.safe)
      ]

  -- After any interleaving of steps, when no producer is between its exchange and its store and the
  -- consumer is in no call, the destructor ends, it has deleted every node that was made and is not
  -- yet deleted, and it has neither read nor deleted a node that was deleted before.
  pub run-destroy :
      (actions : List (Action A)) (v : A) (q : MpscQueue A)
      → run actions (new_queue v) ≡ some q
      → q.consumer ≡ resting
      → q.unlinked ≡ []
      → IsEmptied q.allocated (destroy q)
  unfolding destroy waiting
  run-destroy actions v q h r u =
      let w = run-IsValid actions v q h in
      let place : place_of q.consumer q.tail ≡ q.tail = ap (λ c. place_of c q.tail) r in
      let start : IsDeletedTo q.head q.tail q = record {
        chain = λ p.
            linked-chain p q.head (q.next p) (w.order p)
              (omega (arith, w.links p, ap (waiting p) u));
        deleted = λ p. w.deleted p ∙ ap (λ n. ltb p n) place;
        safe = w.safe;
      } in
      subst (λ n. IsEmptied n (destroy q)) (sym w.ends)
        (delete_nodes-IsEmptied q.allocated q.head q.tail q start (omega (arith, w.within, place))
          (omega (arith, w.ends)))
