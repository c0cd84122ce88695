-- ===== src/HttpParser/Text/Laws.antt =====
-- Searching and trimming texts of src/HttpParser.cpp whose characters are known.
use fast_net.Prelude.{ℕ, ◌≡◌, refl, Bool, true, false, not, ◌&&◌, arith}
use fast_net.Prelude.{none, some, List, [], ◌∷◌, ◌++◌, length}
use fast_net.Prelude.{◌==◌}
use fast_net.HttpParser.Text.{all, find, starts_with, is_space, trim, trim_begin, trim_end}

-- A text without the character `c`.
abbrev pub lacks : ℕ → List ℕ → Bool
lacks c text = all (λ x. not (c == x)) text

pub all_imp {ℓ} :
    {A : Type ℓ} (p q : A → Bool) (xs : List A)
    → ((x : A) → p x ≡ true → q x ≡ true)
    → all p xs ≡ true
    → all q xs ≡ true
all_imp p q [] step h = refl
all_imp p q (x ∷ xs) step h = ground (arith, step x, all_imp p q xs step)

pub all-append {ℓ} :
    {A : Type ℓ} (p : A → Bool) (xs ys : List A) → all p (xs ++ ys) ≡ all p xs && all p ys
all-append p [] ys = refl
all-append p (x ∷ xs) ys = ground (arith, all-append p xs ys)

pub find-absent :
    (c : ℕ) (pattern text : List ℕ) → lacks c text ≡ true → find (c ∷ pattern) text ≡ none
unfolding find
find-absent c pattern [] h = refl
find-absent c pattern (x ∷ text) h =
    let other : (c == x) ≡ false = ground arith in
    rw (find, other, find-absent c pattern text (ground arith)) refl

-- The first occurrence stands behind a text that lacks its first character.
pub find-append :
    (c : ℕ) (pattern front rest : List ℕ)
    → lacks c front ≡ true
    → starts_with (c ∷ pattern) rest ≡ true
    → find (c ∷ pattern) (front ++ rest) ≡ some (length front)
unfolding find starts_with
find-append c pattern [] [] h s = absurd (cc s)
find-append c pattern [] (y ∷ rest) h s = rw (find, s) refl
find-append c pattern (x ∷ front) rest h s =
    let other : (c == x) ≡ false = ground arith in
    rw (find, other, find-append c pattern front rest (ground arith) s) refl

pub starts_with-append : (pattern rest : List ℕ) → starts_with pattern (pattern ++ rest) ≡ true
unfolding starts_with
starts_with-append [] rest = refl
starts_with-append (x ∷ pattern) rest = ground (arith, starts_with-append pattern rest)

trim_end_clean : (text : List ℕ) → all (λ c. not (is_space c)) text ≡ true → trim_end text ≡ text
unfolding trim_end
trim_end_clean [] h = refl
trim_end_clean (c ∷ text) h =
    let rest = trim_end_clean text (ground arith) in
    let solid : is_space c ≡ false = ground arith in rw (trim_end, rest, solid) (ground arith)

pub trim_clean : (text : List ℕ) → all (λ c. not (is_space c)) text ≡ true → trim text ≡ text
unfolding trim trim_begin
trim_clean [] h = unfold trim_end in refl
trim_clean (c ∷ text) h =
    let solid : is_space c ≡ false = ground arith in
    rw (trim, trim_begin, solid) (trim_end_clean (c ∷ text) h)
