-- ===== src/Regex.antt =====
-- The part of Python's `re` that kdoc_re.py and c_lex.py call: patterns as syntax trees, and a
-- backtracking matcher that lists the matches at a position in the order `re` tries them.
-- Code points are ASCII here: the classes \s \w \d know no others.
pub mod Class
pub mod Search
pub mod Sound
pub mod Progress
pub mod Pieces
pub mod KernRe
use pi_ghost.Base.{
  ℕ, zero, suc, Bool, true, false, not, ◌&&◌, ◌||◌, Option, none, some, List, [], ◌∷◌, ◌++◌, ◌==◌,
  if◌then◌else◌, Text, length,
}
use Class.{is_word}

pub data Rx : Type 0 where
  -- the empty pattern
  eps : Rx
  -- one character of a class
  one : (ℕ → Bool) → Rx
  -- `xy`, `x|y`
  seq alt : Rx → Rx → Rx
  -- `x*`, `x*?`
  star lazy : Rx → Rx
  -- `\b`
  edge : Rx
  -- `^` and `$` without MULTILINE
  start end : Rx
  -- `(x)` and `(?P<name>x)`, with the number or the name of the group
  group : Text → Rx → Rx

-- A match object: `group()`, the text behind it, and the groups that were closed, the last first.
pub record Match : Type 0 where
  pub taken : Text
  pub rest : Text
  pub groups : List (Text × Text)

abbrev pub here : Text → Match
here s = record { taken = []; rest = s; groups = [] }

-- The match `m` behind the match `l`.
abbrev pub after : Match → Match → Match
after l m = record { taken = l.taken ++ m.taken; rest = m.rest; groups = m.groups ++ l.groups }

-- The character before the position behind `w`.
abbrev pub last_of : Option ℕ → Text → Option ℕ
last_of prev [] = prev
last_of prev (c ∷ w) = last_of (some c) w

unfoldable pub all_after : Match → List Match → List Match
all_after l [] = []
all_after l (m ∷ ms) = after l m ∷ all_after l ms

-- Each match in turn, followed by each continuation of it.
unfoldable pub follow : (Match → List Match) → List Match → List Match
unfolding all_after
follow k [] = []
follow k (m ∷ ms) = all_after m (k m) ++ follow k ms

abbrev pub word_at : Option ℕ → Bool
word_at none = false
word_at (some c) = is_word c

abbrev pub first_of_text : Text → Option ℕ
first_of_text [] = none
first_of_text (c ∷ s) = some c

abbrev pub at_edge : Option ℕ → Text → Bool
at_edge prev s =
    let left = word_at prev in
    let right = word_at (first_of_text s) in (left && not right) || (not left && right)

-- At the end, or before a newline that ends the text.
abbrev pub at_end : Text → Bool
at_end [] = true
at_end (c ∷ []) = c == b'\n'
at_end _ = false

abbrev pub when : Bool → Text → List Match
when b s = if b then here s ∷ [] else []

abbrev pub label : Text → Match → Match
label name m = record m { groups = (name, m.taken) ∷ m.groups }

abbrev pub labels : Text → List Match → List Match
labels name [] = []
labels name (m ∷ ms) = label name m ∷ labels name ms

abbrev pub Step : Type 0
Step = Option ℕ → Text → List Match

-- On from a match, unless it takes nothing: such a round of a loop is not repeated.
unfoldable pub onward : Step → Match → List Match
onward k m = elim m.taken [ [] ↦ [] | c ∷ w ↦ k (last_of (some c) w) m.rest ]

-- `x*` and `x*?`, `fuel` rounds at most.
unfoldable pub greedy : Step → ℕ → Step
unfolding follow onward
greedy step zero prev s = here s ∷ []
greedy step (suc fuel) prev s = follow (onward (greedy step fuel)) (step prev s) ++ here s ∷ []

unfoldable pub sparing : Step → ℕ → Step
unfolding follow onward
sparing step zero prev s = here s ∷ []
sparing step (suc fuel) prev s = here s ∷ follow (onward (sparing step fuel)) (step prev s)

abbrev pub one_of : (ℕ → Bool) → Text → List Match
one_of p [] = []
one_of p (c ∷ s) = if p c then record { taken = c ∷ []; rest = s; groups = [] } ∷ [] else []

abbrev pub at_start : Option ℕ → Bool
at_start none = true
at_start (some _) = false

-- The matches of a pattern at a position, the preferred one first; `prev` is the character before.
unfoldable pub runs : Rx → Step
unfolding greedy sparing follow
runs eps prev s = here s ∷ []
runs (one p) prev s = one_of p s
runs (seq x y) prev s = follow (λ m. runs y (last_of prev m.taken) m.rest) (runs x prev s)
runs (alt x y) prev s = runs x prev s ++ runs y prev s
runs (star x) prev s = greedy (runs x) (length s) prev s
runs (lazy x) prev s = sparing (runs x) (length s) prev s
runs edge prev s = when (at_edge prev s) s
runs start prev s = when (at_start prev) s
runs end prev s = when (at_end s) s
runs (group name x) prev s = labels name (runs x prev s)

-- A literal, `x+`, `x?`, and rows of patterns side by side or between bars.
abbrev pub lit : Text → Rx
lit [] = eps
lit (c ∷ []) = one (λ d. d == c)
lit (c ∷ w) = seq (one (λ d. d == c)) (lit w)

abbrev pub plus : Rx → Rx
plus x = seq x (star x)

abbrev pub opt : Rx → Rx
opt x = alt x eps

abbrev pub row : Rx → List Rx → Rx
row x [] = x
row x (y ∷ ys) = seq x (row y ys)

abbrev pub bars : Rx → List Rx → Rx
bars x [] = x
bars x (y ∷ ys) = alt x (bars y ys)
