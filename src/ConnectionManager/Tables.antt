-- ===== src/ConnectionManager/Tables.antt =====
-- The laws of the two tables of src/ConnectionManager.cpp.
use fast_net.Prelude.{ℕ, suc, ◌+◌, ◌≤◌, ◌≡◌, refl, ap, arith}
use fast_net.Prelude.{
  Option, none, some, List, [], ◌∷◌, length, ◌==◌, if◌then◌else◌, same_text, same_text_iff,
  Bool-cases, inl, inr,
}
use fast_net.ConnectionManager.State.{
  ConnectionInfo, ServiceState, find_connection, assign_connection, erase_connection, find_service,
  assign_service, change_entry, change_all,
}

-- How many connections of a service the table has.
unfoldable pub count_of : List ℕ → List (ℕ × ConnectionInfo) → ℕ
count_of service [] = 0
count_of service ((id, info) ∷ l) =
    (if same_text info.service service then 1 else 0) + count_of service l

abbrev pub share : List ℕ → Option ConnectionInfo → ℕ
share service none = 0
share service (some info) = if same_text info.service service then 1 else 0

-- 1 where there is an entry.
abbrev pub present : Option ConnectionInfo → ℕ
present none = 0
present (some info) = 1

pub find_connection-assign :
    (k id : ℕ) (info : ConnectionInfo) (l : List (ℕ × ConnectionInfo))
    → find_connection k (assign_connection id info l)
      ≡ (if id == k then some info else find_connection k l)
unfolding find_connection assign_connection
find_connection-assign k id info [] = ground arith
find_connection-assign k id info ((key, old) ∷ l) =
    ground (arith, find_connection-assign k id info l)

pub count_of-assign :
    (service : List ℕ) (id : ℕ) (info : ConnectionInfo) (l : List (ℕ × ConnectionInfo))
    → count_of service (assign_connection id info l) + share service (find_connection id l)
      ≡ count_of service l + share service (some info)
unfolding find_connection assign_connection count_of
count_of-assign service id info [] = ground arith
count_of-assign service id info ((key, old) ∷ l) = ground (arith, count_of-assign service id info l)

pub length-assign :
    (id : ℕ) (info : ConnectionInfo) (l : List (ℕ × ConnectionInfo))
    → length (assign_connection id info l) + present (find_connection id l) ≡ suc (length l)
unfolding find_connection assign_connection
length-assign id info [] = ground arith
length-assign id info ((key, old) ∷ l) = ground (arith, length-assign id info l)

pub count_of-erase :
    (service : List ℕ) (id : ℕ) (l : List (ℕ × ConnectionInfo))
    → count_of service (erase_connection id l) + share service (find_connection id l)
      ≡ count_of service l
unfolding find_connection erase_connection count_of
count_of-erase service id [] = ground arith
count_of-erase service id ((key, old) ∷ l) = ground (arith, count_of-erase service id l)

pub length-erase :
    (id : ℕ) (l : List (ℕ × ConnectionInfo)) → length (erase_connection id l) ≤ length l
unfolding erase_connection
length-erase id [] = omega arith
length-erase id ((key, old) ∷ l) = ground (arith, length-erase id l)

pub find_connection-erase_none :
    (k id : ℕ) (l : List (ℕ × ConnectionInfo))
    → find_connection k l ≡ none
    → find_connection k (erase_connection id l) ≡ none
unfolding find_connection erase_connection
find_connection-erase_none k id [] h = refl
find_connection-erase_none k id ((key, old) ∷ l) h =
    ground (arith, find_connection-erase_none k id l)

pub count_of-le-length :
    (service : List ℕ) (l : List (ℕ × ConnectionInfo)) → count_of service l ≤ length l
unfolding count_of
count_of-le-length service [] = omega arith
count_of-le-length service ((id, info) ∷ l) = ground (arith, count_of-le-length service l)

-- Each entry of the table has its own identifier.
unfoldable pub Unique : List (ℕ × ConnectionInfo) → Type 0
Unique [] = Unit {0}
Unique ((key, info) ∷ l) = (find_connection key l ≡ none) × Unique l

pub Unique-assign :
    (id : ℕ) (info : ConnectionInfo) (l : List (ℕ × ConnectionInfo))
    → Unique l
    → Unique (assign_connection id info l)
unfolding Unique assign_connection find_connection
Unique-assign id info [] u = (refl, tt)
Unique-assign id info ((key, old) ∷ l) (h, u) = elim (Bool-cases (key == id)) [
  | inl same ↦ rw same (h, u)
  | inr other ↦
      rw other (ground (arith, find_connection-assign key id info l), Unique-assign id info l u)
]

pub Unique-erase :
    (id : ℕ) (l : List (ℕ × ConnectionInfo)) → Unique l → Unique (erase_connection id l)
unfolding Unique erase_connection
Unique-erase id [] u = tt
Unique-erase id ((key, old) ∷ l) (h, u) = elim (Bool-cases (key == id)) [
  | inl same ↦ rw same u
  | inr other ↦ rw other (find_connection-erase_none key id l h, Unique-erase id l u)
]

pub find_connection-erase :
    (k id : ℕ) (l : List (ℕ × ConnectionInfo))
    → Unique l
    → find_connection k (erase_connection id l) ≡ (if id == k then none else find_connection k l)
unfolding Unique find_connection erase_connection
find_connection-erase k id [] u = ground arith
find_connection-erase k id ((key, old) ∷ l) (h, u) =
    ground (arith, find_connection-erase k id l, ap (λ j. find_connection j l) {x = key} {y = k})

abbrev pub changed : (ServiceState → ServiceState) → Option ServiceState → Option ServiceState
changed f none = none
changed f (some s) = some (f s)

pub find_service-assign :
    (k service : List ℕ) (s : ServiceState) (l : List (List ℕ × ServiceState))
    → find_service k (assign_service service s l)
      ≡ (if same_text service k then some s else find_service k l)
unfolding find_service assign_service
find_service-assign k service s [] = ground arith
find_service-assign k service s ((key, old) ∷ l) = ground (
  arith,
  same_text_iff key service,
  same_text_iff service k,
  same_text_iff key k,
  find_service-assign k service s l,
)

pub find_service-change :
    (k service : List ℕ) (f : ServiceState → ServiceState) (l : List (List ℕ × ServiceState))
    → find_service k (change_entry service f l)
      ≡ (if same_text service k then changed f (find_service k l) else find_service k l)
unfolding find_service change_entry
find_service-change k service f [] = ground arith
find_service-change k service f ((key, old) ∷ l) = ground (
  arith,
  same_text_iff key service,
  same_text_iff service k,
  same_text_iff key k,
  find_service-change k service f l,
)

pub find_service-change_all :
    (k : List ℕ) (f : ServiceState → ServiceState) (l : List (List ℕ × ServiceState))
    → find_service k (change_all f l) ≡ changed f (find_service k l)
unfolding find_service change_all
find_service-change_all k f [] = refl
find_service-change_all k f ((key, old) ∷ l) = ground (arith, find_service-change_all k f l)
