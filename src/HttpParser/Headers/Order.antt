-- ===== src/HttpParser/Headers/Order.antt =====
-- The header maps of src/HttpParser.cpp as std::map: entries in the order of their keys.
use fast_net.Prelude.{ℕ, ◌≡◌, refl, ap, true, subst}
use fast_net.Prelude.{List, [], ◌∷◌, ◌++◌, All}
use fast_net.Prelude.{less, less_trans, less_antisym, Bool-cases, inl, inr}
use fast_net.HttpParser.Headers.{HeaderMap, assign_header}

-- A key before all keys of a map.
abbrev pub Before : List ℕ → HeaderMap → Type 0
Before key headers = All (λ e. less key e.0 ≡ true) headers

abbrev pub IsSorted : HeaderMap → Type 0
IsSorted [] = Unit {0}
IsSorted ((key, value) ∷ headers) = Before key headers × IsSorted headers

pub Before-trans :
    (a b : List ℕ) (headers : HeaderMap) → less a b ≡ true → Before b headers → Before a headers
Before-trans a b [] h k = tt
Before-trans a b ((key, value) ∷ headers) h (first, later) =
    (less_trans a b key h first, Before-trans a b headers h later)

-- A property of entries that the new entry has, or any value at an old key.
pub All-assign_header :
    (P : List ℕ × List ℕ → Type 0) (name value : List ℕ) (headers : HeaderMap)
    → P (name, value)
    → All P headers
    → All P (assign_header name value headers)
unfolding assign_header
All-assign_header P name value [] p h = (p, tt)
All-assign_header P name value ((key, old) ∷ headers) p (q, h) = elim (Bool-cases (less key name)) [
  | inl e ↦ rw (assign_header, e) (q, All-assign_header P name value headers p h)
  | inr e ↦ elim (Bool-cases (less name key)) [
    | inl f ↦ rw (assign_header, e, f) (p, (q, h))
    | inr f ↦ rw (assign_header, e, f) (subst (λ k. P (k, value)) (less_antisym name key f e) p, h)
  ]
]

pub assign_header-IsSorted :
    (name value : List ℕ) (headers : HeaderMap)
    → IsSorted headers
    → IsSorted (assign_header name value headers)
unfolding assign_header
assign_header-IsSorted name value [] h = (tt, tt)
assign_header-IsSorted name value ((key, old) ∷ headers) (b, s) =
    elim (Bool-cases (less key name)) [
      | inl e ↦
          rw (assign_header, e)
            (
              All-assign_header (λ x. less key x.0 ≡ true) name value headers e b,
              assign_header-IsSorted name value headers s,
            )
      | inr e ↦ elim (Bool-cases (less name key)) [
        | inl f ↦ rw (assign_header, e, f) ((f, Before-trans name key headers f b), (b, s))
        | inr f ↦ rw (assign_header, e, f) (b, s)
      ]
    ]

-- A key behind all others is put last.
abbrev pub After : HeaderMap → List ℕ → Type 0
After headers key = All (λ e. less e.0 key ≡ true) headers

pub assign_header-last :
    (name value : List ℕ) (headers : HeaderMap)
    → After headers name
    → assign_header name value headers ≡ headers ++ ((name, value) ∷ [])
unfolding assign_header
assign_header-last name value [] h = refl
assign_header-last name value ((key, old) ∷ headers) (e, h) =
    rw (assign_header, e) (ap (λ l. (key, old) ∷ l) (assign_header-last name value headers h))
