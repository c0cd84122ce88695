-- ===== src/MpscQueue/Inv.antt =====
-- The invariant of the queue of include/FastNet/MpscQueue.h.
use fast_net.Prelude.{
  ℕ, suc, ◌+◌, ◌≤◌, ◌<◌, ◌≡◌, refl, ap, sym, subst, ◌∙◌, Bool, true, false, ◌||◌,
}
use fast_net.Prelude.{
  Option, none, some, List, [], ◌∷◌, ◌++◌, length, length-append, get_elem?, take, All, All-append,
  ltb, ◌==◌, if◌then◌else◌, arith,
}
use fast_net.MpscQueue.Queue.{
  Consumer, Consumer.resting, Consumer.draining, MpscQueue, update, new_queue, exchange, drop_nth,
  take_next,
}
use fast_net.MpscQueue.Waiting.{
  waiting, waiting-append, waiting-drop, All-drop_nth, All-at, get_elem?-last, take-last,
  take-get_elem?,
}

-- The last node that the consumer has taken an item from.
abbrev pub place_of : Consumer → ℕ → ℕ
place_of resting tail = tail
place_of (draining local n budget) tail = local

abbrev pub is_linked : Option ℕ → ℕ
is_linked none = 0
is_linked (some n) = 1

-- A link leads to the node that was made next.
abbrev pub Follows : ℕ → Option ℕ → Type 0
Follows p none = Unit {0}
Follows p (some n) = n ≡ p + 1

-- `l` has the values of the exchanges so far.
pub record IsValid {A : Type 0} (l : List A) (q : MpscQueue A) : Type 0 where
  pub ends : q.allocated ≡ q.head + 1
  pub within : place_of q.consumer q.tail ≤ q.head
  pub links :
      (p : ℕ) → waiting p q.unlinked + is_linked (q.next p) ≡ (if ltb p q.head then 1 else 0)
  pub order : (p : ℕ) → Follows p (q.next p)
  pub entries : All (λ e. e.1 ≡ e.0 + 1) q.unlinked
  pub passed : (p : ℕ) → p < place_of q.consumer q.tail → waiting p q.unlinked ≡ 0
  pub deleted : (p : ℕ) → q.freed p ≡ ltb p (place_of q.consumer q.tail)
  pub count : length l ≡ q.head
  pub values : (i : ℕ) → i < q.head → get_elem? l i ≡ some (q.value (i + 1))
  pub given : q.taken ≡ take (place_of q.consumer q.tail) l
  pub safe : q.touched_freed ≡ false

Follows-if :
    (t : Bool) (p : ℕ) (o o' : Option ℕ)
    → (t ≡ true → Follows p o)
    → Follows p o'
    → Follows p (if t then o else o')
Follows-if true p o o' f g = f refl
Follows-if false p o o' f g = g

module _ {A : Type 0} where
  pub new_queue-IsValid : (v : A) → IsValid [] (new_queue v)
  unfolding waiting
  new_queue-IsValid v = record {
    ends = omega arith;
    within = omega arith;
    links = λ p. ground arith;
    order = λ p. tt;
    entries = tt;
    passed = λ p h. refl;
    deleted = λ p. ground arith;
    count = refl;
    values = λ i h. absurd (omega arith);
    given = refl;
    safe = refl;
  }

  pub exchange-IsValid :
      (l : List A) (v : A) (q : MpscQueue A) → IsValid l q → IsValid (l ++ v ∷ []) (exchange v q)
  unfolding exchange
  exchange-IsValid l v q w = record {
    ends = omega (arith, w.ends);
    within = omega (arith, w.within, w.ends);
    links = λ p. ground (arith, w.links p, w.ends, waiting-append p q.head q.allocated q.unlinked);
    order = λ p. Follows-if (p == q.allocated) p none (q.next p) (λ _. tt) (w.order p);
    entries =
        All-append (λ (e : ℕ × ℕ). e.1 ≡ e.0 + 1) q.unlinked ((q.head, q.allocated) ∷ []) w.entries
          (w.ends, tt);
    passed = λ p h.
        ground (arith, w.passed p h, w.within, waiting-append p q.head q.allocated q.unlinked);
    deleted = λ p. ground (arith, w.deleted p, w.within, w.ends);
    count = omega (arith, w.count, w.ends, length-append l (v ∷ []));
    values = λ i h. ground (arith, w.values i, w.count, w.ends, get_elem?-last l v i);
    given =
        w.given
        ∙ sym (take-last (place_of q.consumer q.tail) l v (omega (arith, w.within, w.count)));
    safe = w.safe;
  }

  pub link-IsValid :
      (l : List A) (prev node i : ℕ) (q : MpscQueue A)
      → get_elem? q.unlinked i ≡ some (prev, node)
      → IsValid l q
      → IsValid l (record q {
        next = update q.next prev (some node);
        unlinked = drop_nth i q.unlinked;
        touched_freed = q.touched_freed || q.freed prev;
      })
  link-IsValid l prev node i q h w =
      let follows = All-at (λ (e : ℕ × ℕ). e.1 ≡ e.0 + 1) i q.unlinked (prev, node) h w.entries in
      let dropped = λ (p : ℕ). waiting-drop p prev node i q.unlinked h in
      record {
        ends = w.ends;
        within = w.within;
        links = λ p. ground (arith, w.links p, dropped p);
        order =
            λ p. Follows-if (p == prev) p (some node) (q.next p) (λ e. ground arith) (w.order p);
        entries = All-drop_nth (λ (e : ℕ × ℕ). e.1 ≡ e.0 + 1) i q.unlinked w.entries;
        passed = λ p below. omega (arith, w.passed p below, dropped p);
        deleted = w.deleted;
        count = w.count;
        values = w.values;
        given = w.given;
        safe = ground (arith, w.safe, w.deleted prev, w.passed prev, dropped prev);
      }

  -- The consumer takes the item behind its place.
  pub take_next-IsValid :
      (l : List A) (place n tail : ℕ) (consumer : Consumer) (q : MpscQueue A)
      → place_of q.consumer q.tail ≡ place
      → q.next place ≡ some n
      → place_of consumer tail ≡ n
      → IsValid l q
      → IsValid l (record (take_next place n q) { tail = tail; consumer = consumer })
  take_next-IsValid l place n tail consumer q e f g w =
      let after : n ≡ place + 1 = subst (Follows place) f (w.order place) in
      let linked : is_linked (q.next place) ≡ 1 = ap is_linked f in
      let below : place < q.head = ground (arith, w.links place) in
      record {
        ends = w.ends;
        within = omega (arith, below);
        links = w.links;
        order = w.order;
        entries = w.entries;
        passed = λ p h. ground (arith, w.passed p, w.links place);
        deleted = λ p. ground (arith, w.deleted p);
        count = w.count;
        values = w.values;
        given =
            ap (λ t. t ++ q.value n ∷ []) (w.given ∙ ap (λ t. take t l) e)
            ∙ sym (
                take-get_elem? place l (q.value n)
                  (w.values place below ∙ ap (λ k. some (q.value k)) (sym after)))
            ∙ ap (λ t. take t l) {x = suc place} (omega (arith, after));
        safe = ground (arith, w.safe, w.deleted place, w.deleted n);
      }

  -- The consumer stays at its place.
  pub stay-IsValid :
      (l : List A) (tail : ℕ) (consumer : Consumer) (touched : Bool) (q : MpscQueue A)
      → place_of consumer tail ≡ place_of q.consumer q.tail
      → touched ≡ false
      → IsValid l q
      → IsValid l (record q { tail = tail; consumer = consumer; touched_freed = touched })
  stay-IsValid l tail consumer touched q e f w = record {
    ends = w.ends;
    within = omega (arith, w.within);
    links = w.links;
    order = w.order;
    entries = w.entries;
    passed = λ p h. w.passed p (omega arith);
    deleted = λ p. w.deleted p ∙ ap (λ t. ltb p t) (sym e);
    count = w.count;
    values = w.values;
    given = w.given ∙ ap (λ t. take t l) (sym e);
    safe = f;
  }
