-- ===== src/ConnectionManager/Listing.antt =====
-- getServices of src/ConnectionManager.cpp: the services that the calls have named, as a set.
pub mod Runs
use fast_net.Prelude.{ℕ, ◌≡◌, refl, ap, sym, ◌∙◌, Bool, true, false, ◌||◌, arith}
use fast_net.Prelude.{List, [], ◌∷◌, ◌++◌, All, ◌==◌, if◌then◌else◌, is_empty}
use fast_net.Prelude.{
  same_text, same_text_iff, less, less_trans, less_antisym, Bool-cases, inl, inr,
}
use fast_net.ConnectionManager.State.{ServiceState, ConnectionManager, assign_service, set_service}
use fast_net.ConnectionManager.Stats.{insert_name, sort_names, get_services}
use fast_net.ConnectionManager.Actions.{
  Action, Action.acquires, Action.releases, Action.closes, Action.maintains, Action.cleans_up,
  Action.adds_backend, Action.removes_backend, Action.reweighs, Action.sets_strategy,
  Action.reports_status, Action.reports_service_status, Action.reports_execution,
  Action.reports_service_execution,
}
use fast_net.ConnectionManager.Names.{names, SameNames}

unfoldable pub is_listed : List ℕ → List (List ℕ) → Bool
is_listed name [] = false
is_listed name (first ∷ l) = same_text first name || is_listed name l

-- A set of names, which is kept in order.
unfoldable pub add_name : List ℕ → List (List ℕ) → List (List ℕ)
add_name name l = if is_listed name l then l else insert_name name l

-- What a call adds to the set.
unfoldable pub listed_after : Action → List (List ℕ) → List (List ℕ)
listed_after (acquires draw service affinity_key now) l =
    if is_empty service then l else add_name service l
listed_after (releases id now) l = l
listed_after (closes id) l = l
listed_after (maintains now) l = l
listed_after cleans_up l = []
listed_after (adds_backend service host port weight now) l =
    if is_empty service || is_empty host || port == 0 then l else add_name service l
listed_after (removes_backend service host port) l = l
listed_after (reweighs service host port weight) l = l
listed_after (sets_strategy service strategy) l = add_name service l
listed_after (reports_status host port success now) l = l
listed_after (reports_service_status service host port success now) l = l
listed_after (reports_execution success now) l = l
listed_after (reports_service_execution service success now) l = l

unfoldable pub listed_run : List Action → List (List ℕ) → List (List ℕ)
listed_run [] l = l
listed_run (a ∷ actions) l = listed_run actions (listed_after a l)

-- Each name is before those behind it, so that none is there twice.
unfoldable pub IsIncreasing : List (List ℕ) → Type 0
IsIncreasing [] = Unit {0}
IsIncreasing (name ∷ l) = All (λ other. less name other ≡ true) l × IsIncreasing l

names-assign :
    (service : List ℕ) (s : ServiceState) (l : List (List ℕ × ServiceState))
    → names (assign_service service s l)
      ≡ (if is_listed service (names l) then names l else names l ++ service ∷ [])
unfolding names assign_service is_listed
names-assign service s [] = refl
names-assign service s ((key, old) ∷ l) = elim (Bool-cases (same_text key service)) [
  | inl e ↦ rw e refl
  | inr e ↦
      rw e (ap (λ t. key ∷ t) (names-assign service s l) ∙ pushed (is_listed service (names l)))
]
  where
    pushed :
        (t : Bool)
        → key ∷ (if t then names l else names l ++ service ∷ [])
          ≡ (if t then key ∷ names l else key ∷ (names l ++ service ∷ []))
    pushed true = refl
    pushed false = refl

insert_all : List (List ℕ) → List (List ℕ) → List (List ℕ)
insert_all [] l = l
insert_all (name ∷ more) l = insert_all more (insert_name name l)

sort_names-insert_all :
    (entries : List (List ℕ × ServiceState)) (l : List (List ℕ))
    → sort_names entries l ≡ insert_all (names entries) l
unfolding sort_names names insert_all
sort_names-insert_all [] l = refl
sort_names-insert_all ((key, s) ∷ entries) l = sort_names-insert_all entries (insert_name key l)

insert_all-last :
    (more l : List (List ℕ)) (name : List ℕ)
    → insert_all (more ++ name ∷ []) l ≡ insert_name name (insert_all more l)
unfolding insert_all
insert_all-last [] l name = refl
insert_all-last (first ∷ more) l name = insert_all-last more (insert_name first l) name

is_listed-insert :
    (k name : List ℕ) (l : List (List ℕ))
    → is_listed k (insert_name name l) ≡ same_text name k || is_listed k l
unfolding is_listed insert_name
is_listed-insert k name [] = refl
is_listed-insert k name (first ∷ l) = ground (arith, is_listed-insert k name l)

is_listed-insert_all :
    (k : List ℕ) (more l : List (List ℕ))
    → is_listed k (insert_all more l) ≡ is_listed k more || is_listed k l
unfolding insert_all is_listed
is_listed-insert_all k [] l = refl
is_listed-insert_all k (name ∷ more) l =
    ground (arith, is_listed-insert_all k more (insert_name name l), is_listed-insert k name l)

-- A new entry of the table, or a new state of an old one, adds its name to the set.
pub get_services-set_service :
    (service : List ℕ) (s : ServiceState) (m : ConnectionManager)
    → get_services (set_service service s m) ≡ add_name service (get_services m)
unfolding get_services add_name is_listed
get_services-set_service service s m =
    let old = names m.services in
    let listed : is_listed service (sort_names m.services []) ≡ is_listed service old || false =
      ap (is_listed service) (sort_names-insert_all m.services [])
      ∙ is_listed-insert_all service old [] in
    sort_names-insert_all (assign_service service s m.services) []
    ∙ ap (λ l. insert_all l []) (names-assign service s m.services)
    ∙ chosen (is_listed service old)
    ∙ ap (λ t. if t then insert_all old [] else insert_name service (insert_all old []))
        {x = is_listed service old} {y = is_listed service (sort_names m.services [])}
        (ground (arith, listed))
    ∙ ap (λ l. if is_listed service (sort_names m.services []) then l else insert_name service l)
        (sym (sort_names-insert_all m.services []))
  where
    chosen :
        (t : Bool)
        → insert_all (if t then names m.services else names m.services ++ service ∷ []) [] ≡ (
            if t
            then insert_all (names m.services) []
            else insert_name service (insert_all (names m.services) []))
    chosen true = refl
    chosen false = insert_all-last (names m.services) [] service

pub get_services-SameNames :
    (after m : ConnectionManager) → SameNames after m → get_services after ≡ get_services m
unfolding get_services
get_services-SameNames after m h =
    sort_names-insert_all after.services []
    ∙ ap (λ l. insert_all l []) h
    ∙ sym (sort_names-insert_all m.services [])

All-insert :
    (P : List ℕ → Type 0) (name : List ℕ) (l : List (List ℕ))
    → P name
    → All P l
    → All P (insert_name name l)
unfolding insert_name
All-insert P name [] p h = (p, tt)
All-insert P name (first ∷ l) p (q, h) = elim (Bool-cases (less name first)) [
  | inl e ↦ rw e (p, (q, h))
  | inr e ↦ rw e (q, All-insert P name l p h)
]

All-less :
    (a b : List ℕ) (l : List (List ℕ))
    → less a b ≡ true
    → All (λ c. less b c ≡ true) l
    → All (λ c. less a c ≡ true) l
All-less a b [] h k = tt
All-less a b (c ∷ l) h (first, k) = (less_trans a b c h first, All-less a b l h k)

insert_name-IsIncreasing :
    (name : List ℕ) (l : List (List ℕ))
    → is_listed name l ≡ false
    → IsIncreasing l
    → IsIncreasing (insert_name name l)
unfolding insert_name is_listed IsIncreasing
insert_name-IsIncreasing name [] h s = (tt, tt)
insert_name-IsIncreasing name (first ∷ l) h (b, s) = elim (Bool-cases (less name first)) [
  | inl e ↦ rw e ((e, All-less name first l e b), (b, s))
  | inr e ↦
      let before : less first name ≡ true =
        ground (arith, less_antisym first name, same_text_iff first name) in
      rw e (
        All-insert (λ c. less first c ≡ true) name l before b,
        insert_name-IsIncreasing name l (ground arith) s,
      )
]

pub add_name-IsIncreasing :
    (name : List ℕ) (l : List (List ℕ)) → IsIncreasing l → IsIncreasing (add_name name l)
unfolding add_name
add_name-IsIncreasing name l s = elim (Bool-cases (is_listed name l)) [
  | inl e ↦ rw e s
  | inr e ↦ rw e (insert_name-IsIncreasing name l e s)
]
