-- ===== src/HttpParser/Headers/Joined.antt =====
-- The header section as one text: where its lines and its end are, for src/HttpParser.cpp.
use fast_net.Prelude.{ℕ, suc, ◌+◌, ◌≡◌, refl, ap, sym, ◌∙◌, true, false, arith}
use fast_net.Prelude.{some, List, [], ◌∷◌, ◌++◌, codes, append_assoc, map}
use fast_net.Prelude.{◌==◌, if_false, length, length-append, All}
use fast_net.HttpParser.Text.{find, starts_with, push_front}
use fast_net.HttpParser.Text.Laws.{lacks, find-append}
use fast_net.HttpParser.Headers.{HeaderMap, crlf, lines, append_header_line, append_header_lines}
use fast_net.HttpParser.Headers.Written.{
  IsSendable, header_line, lacks-header_line, header_line_start, is_plain,
}
use mathlib.Core.Option

-- The lines of some headers and of a last one, without the last line end.
unfoldable pub joined : HeaderMap → List ℕ × List ℕ → List ℕ
joined [] last = header_line last
joined (e ∷ headers) last = header_line e ++ (crlf ++ joined headers last)

pub append_header_lines-joined :
    (headers : HeaderMap) (last : List ℕ × List ℕ) (rest : List ℕ)
    → append_header_lines headers ++ (header_line last ++ (crlf ++ rest))
      ≡ joined headers last ++ (crlf ++ rest)
unfolding append_header_lines joined append_header_line header_line
append_header_lines-joined [] last rest = refl
append_header_lines-joined ((name, value) ∷ headers) last rest =
    append_assoc (name ++ (codes ": " ++ (value ++ crlf))) (append_header_lines headers)
      (header_line last ++ (crlf ++ rest))
    ∙ ap (λ l. (name ++ (codes ": " ++ (value ++ crlf))) ++ l)
        (append_header_lines-joined headers last rest)
    ∙ simp (append_assoc)

lines_one : (line : List ℕ) → lacks 13 line ≡ true → lines line ≡ line ∷ []
unfolding lines
lines_one [] h = refl
lines_one (c ∷ []) h = refl
lines_one (c ∷ d ∷ line) h =
    let other : (c == 13) ≡ false = ground arith in
    rw (lines, other) (ap (push_front c) (lines_one (d ∷ line) (ground arith)))

lines-append :
    (line rest : List ℕ) → lacks 13 line ≡ true → lines (line ++ (crlf ++ rest)) ≡ line ∷ lines rest
unfolding lines
lines-append [] rest h = refl
lines-append (c ∷ []) rest h =
    let other : (c == 13) ≡ false = ground arith in rw (lines, other) refl
lines-append (c ∷ d ∷ line) rest h =
    let other : (c == 13) ≡ false = ground arith in
    rw (lines, other) (ap (push_front c) (lines-append (d ∷ line) rest (ground arith)))

pub lines-joined :
    (headers : HeaderMap) (last : List ℕ × List ℕ)
    → All IsSendable headers
    → IsSendable last
    → lines (joined headers last) ≡ map header_line headers ++ (header_line last ∷ [])
unfolding joined
lines-joined [] last h k = lines_one (header_line last) (lacks-header_line last k)
lines-joined (e ∷ headers) last (p, h) k =
    lines-append (header_line e) (joined headers last) (lacks-header_line e p)
    ∙ ap (λ l. header_line e ∷ l) (lines-joined headers last h k)

find_past :
    (text : List ℕ)
    → starts_with crlf text ≡ false
    → find (crlf ++ crlf) (13 ∷ 10 ∷ text)
      ≡ Option.map suc (Option.map suc (find (crlf ++ crlf) text))
unfolding find starts_with
find_past text h = if_false _ _ h

-- The blank line is not at a line end that a character follows.
pub find-next_line :
    (line more : List ℕ) (c n : ℕ)
    → lacks 13 line ≡ true
    → (13 == c) ≡ false
    → find (crlf ++ crlf) (c ∷ more) ≡ some n
    → find (crlf ++ crlf) (line ++ (crlf ++ (c ∷ more))) ≡ some (length line + 2 + n)
unfolding find
find-next_line [] more c n h k f =
    let apart : starts_with crlf (c ∷ more) ≡ false = unfold starts_with in ground arith in
    find_past (c ∷ more) apart
    ∙ ap (λ o. Option.map suc (Option.map suc o)) f
    ∙ ap some (omega arith)
find-next_line (x ∷ line) more c n h k f =
    let other : starts_with (crlf ++ crlf) (x ∷ (line ++ (crlf ++ (c ∷ more)))) ≡ false =
      unfold starts_with in ground arith in
    if_false _ _ other
    ∙ ap (Option.map suc) (find-next_line line more c n (ground arith) k f)
    ∙ ap some (omega arith)

pub joined_start :
    (headers : HeaderMap) (last : List ℕ × List ℕ) (rest : List ℕ)
    → All IsSendable headers
    → IsSendable last
    → (c : ℕ) × (more : List ℕ) × (joined headers last ++ rest ≡ c ∷ more) × ((13 == c) ≡ false)
unfolding joined
joined_start [] last rest h k =
    let (c, more, e, plain) = header_line_start last rest k in
    (c, more, e, unfold is_plain in ground arith)
joined_start (e ∷ headers) last rest (p, h) k =
    let (c, more, f, plain) = header_line_start e ((crlf ++ joined headers last) ++ rest) p in
    (
      c,
      more,
      append_assoc (header_line e) (crlf ++ joined headers last) rest ∙ f,
      unfold is_plain in ground arith,
    )

pub find-joined :
    (headers : HeaderMap) (last : List ℕ × List ℕ) (body : List ℕ)
    → All IsSendable headers
    → IsSendable last
    → find (crlf ++ crlf) (joined headers last ++ (crlf ++ (crlf ++ body)))
      ≡ some (length (joined headers last))
unfolding joined
find-joined [] last body h k =
    find-append 13 (10 ∷ crlf) (header_line last) (crlf ++ (crlf ++ body))
      (lacks-header_line last k) (unfold starts_with in refl)
find-joined (e ∷ headers) last body (p, h) k =
    let rest = crlf ++ (crlf ++ body) in
    let section = joined headers last in
    let (c, more, start, other) = joined_start headers last rest h k in
    ap (find (crlf ++ crlf)) (
      append_assoc (header_line e) (crlf ++ section) rest
      ∙ ap (λ l. header_line e ++ (crlf ++ l)) start)
    ∙ find-next_line (header_line e) more c (length section) (lacks-header_line e p) other
        (ap (find (crlf ++ crlf)) (sym start) ∙ find-joined headers last body h k)
    ∙ ap some (omega (arith, length-append (header_line e) (crlf ++ section)))
