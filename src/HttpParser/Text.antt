-- ===== src/HttpParser/Text.antt =====
-- The searches and comparisons of src/HttpParser.cpp. Character classes are those of the C locale.
pub mod Laws
use fast_net.Prelude.{ℕ, zero, suc, ◌+◌, Bool, true, false, not, ◌&&◌, ◌||◌}
use fast_net.Prelude.{Option, none, some, List, [], ◌∷◌, codes, is_empty}
use fast_net.Prelude.{leb, ◌==◌, if◌then◌else◌, length, get_or, drop}
use mathlib.Core.Option

unfoldable pub is_digit : ℕ → Bool
is_digit c = leb b'0' c && leb c b'9'

unfoldable pub is_alnum : ℕ → Bool
unfolding is_digit
is_alnum c = is_digit c || ((leb b'A' c && leb c b'Z') || (leb b'a' c && leb c b'z'))

unfoldable pub is_space : ℕ → Bool
is_space c = (leb 9 c && leb c 13) || (c == 32)

unfoldable pub to_lower : ℕ → ℕ
to_lower c = if leb b'A' c && leb c b'Z' then c + 32 else c

abbrev pub all {ℓ} : {A : Type ℓ} → (A → Bool) → List A → Bool
all p [] = true
all p (x ∷ xs) = p x && all p xs

abbrev pub any {ℓ} : {A : Type ℓ} → (A → Bool) → List A → Bool
any p [] = false
any p (x ∷ xs) = p x || any p xs

-- The punctuation of the `switch`.
abbrev pub token_marks : List ℕ
token_marks = codes "!#$%&'*+-.^_`|~"

unfoldable pub is_token_character : ℕ → Bool
unfolding is_alnum
is_token_character ch = any (λ mark. ch == mark) token_marks || is_alnum ch

unfoldable pub is_valid_header_name : List ℕ → Bool
unfolding is_token_character
is_valid_header_name name = if is_empty name then false else all is_token_character name

unfoldable pub starts_with : List ℕ → List ℕ → Bool
starts_with [] text = true
starts_with (x ∷ pattern) [] = false
starts_with (x ∷ pattern) (c ∷ text) = x == c && starts_with pattern text

-- `std::string_view::find`; `none` is `npos`.
unfoldable pub find : List ℕ → List ℕ → Option ℕ
unfolding starts_with
find pattern [] = if is_empty pattern then some 0 else none
find pattern (c ∷ text) =
    let rest = find pattern text in
    if starts_with pattern (c ∷ text) then some 0 else Option.map suc rest

abbrev pub find_byte : ℕ → List ℕ → Option ℕ
find_byte c text = find (c ∷ []) text

unfoldable pub is_valid_http_version : List ℕ → Bool
unfolding starts_with is_digit
is_valid_http_version version =
    if not (length version == 8) || not (starts_with (codes "HTTP/") version)
    then false
    else is_digit (get_or version 5 0)
      && ((get_or version 6 0 == b'.') && is_digit (get_or version 7 0))

-- The loop of `trim` over `begin`.
unfoldable pub trim_begin : List ℕ → List ℕ
unfolding is_space
trim_begin [] = []
trim_begin (c ∷ str) = if is_space c then trim_begin str else c ∷ str

-- The loop over `end`.
unfoldable pub trim_end : List ℕ → List ℕ
unfolding is_space
trim_end [] = []
trim_end (c ∷ str) = let rest = trim_end str in if is_empty rest && is_space c then [] else c ∷ rest

unfoldable pub trim : List ℕ → List ℕ
unfolding trim_begin trim_end
trim str = trim_end (trim_begin str)

-- The loop of `caseInsensitiveCompare`, on texts of one size.
unfoldable pub same_letters : List ℕ → List ℕ → Bool
unfolding to_lower
same_letters [] b = true
same_letters (x ∷ a) [] = true
same_letters (x ∷ a) (y ∷ b) = to_lower x == to_lower y && same_letters a b

unfoldable pub case_insensitive_compare : List ℕ → List ℕ → Bool
unfolding same_letters
case_insensitive_compare a b = if not (length a == length b) then false else same_letters a b

abbrev pub push_front : ℕ → List (List ℕ) → List (List ℕ)
push_front c [] = (c ∷ []) ∷ []
push_front c (piece ∷ pieces) = (c ∷ piece) ∷ pieces

-- The parts between separators, which the loops over `find(separator, offset)` take one by one.
unfoldable pub pieces : ℕ → List ℕ → List (List ℕ)
pieces separator [] = [] ∷ []
pieces separator (c ∷ text) =
    let rest = pieces separator text in if c == separator then [] ∷ rest else push_front c rest

unfoldable pub contains_token : List ℕ → List ℕ → Bool
unfolding pieces trim case_insensitive_compare
contains_token header_value token =
    any (λ current. case_insensitive_compare (trim current) token) (pieces b',' header_value)
