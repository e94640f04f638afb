-- ===== src/Regex/Search.antt =====
-- `match`, `search`, `finditer` and `sub` of a compiled pattern.
use pi_ghost.Base.{
  ℕ, zero, suc, ◌+◌, ◌*◌, Bool, true, false, Option, none, some, List, [], ◌∷◌, ◌++◌, if◌then◌else◌,
  Text, length, text_eq, codes,
}
use pi_ghost.Regex.{Rx, Match, runs, last_of}

-- The first match; a search right behind an empty match must not be empty.
unfoldable pub pick : Bool → List Match → Option Match
pick must [] = none
pick false (m ∷ ms) = some m
pick true (m ∷ ms) = let later = pick true ms in elim m.taken [ [] ↦ later | _ ∷ _ ↦ some m ]

-- `re.match`
unfoldable pub match_at : Rx → Text → Option Match
unfolding runs pick
match_at x s = pick false (runs x none s)

-- `re.search`, on the text behind `prev`.
unfoldable pub re_search_from : Rx → Option ℕ → Text → Option Match
unfolding runs pick
re_search_from x prev [] = pick false (runs x prev [])
re_search_from x prev (c ∷ s) =
    let later = re_search_from x (some c) s in
    elim (pick false (runs x prev (c ∷ s))) [ some m ↦ some m | none ↦ later ]

unfoldable pub re_search : Rx → Text → Option Match
unfolding re_search_from
re_search x s = re_search_from x none s

-- The text as `re` walks through it: matches, and characters where none begins.
pub data Piece : Type 0 where
  plain : ℕ → Piece
  hit : Match → Piece

abbrev pub is_empty : Text → Bool
is_empty [] = true
is_empty _ = false

unfoldable pub pieces : Rx → ℕ → Bool → Option ℕ → Text → List Piece
unfolding runs pick
pieces x zero must prev s = []
pieces x (suc fuel) must prev s = elim (pick must (runs x prev s)) [
  | some m ↦ hit m ∷ pieces x fuel (is_empty m.taken) (last_of prev m.taken) m.rest
  | none ↦ elim s [ [] ↦ [] | c ∷ r ↦ plain c ∷ pieces x fuel false (some c) r ]
]

-- Each position is tried once after a character and once after an empty match.
abbrev pub enough : Text → ℕ
enough s = 2 * length s + 2

abbrev pub hits : ℕ → List Piece → List (ℕ × Match)
hits pos [] = []
hits pos (plain c ∷ ps) = hits (pos + 1) ps
hits pos (hit m ∷ ps) = (pos, m) ∷ hits (pos + length m.taken) ps

-- `re.finditer`: the matches with their `start()`.
unfoldable pub finditer : Rx → Text → List (ℕ × Match)
unfolding pieces
finditer x s = hits 0 (pieces x (enough s) false none s)

abbrev pub replaced : (Match → Text) → List Piece → Text
replaced f [] = []
replaced f (plain c ∷ ps) = c ∷ replaced f ps
replaced f (hit m ∷ ps) = f m ++ replaced f ps

-- `re.sub`, with the replacement as a function of the match.
unfoldable pub sub : Rx → (Match → Text) → Text → Text
unfolding pieces
sub x f s = replaced f (pieces x (enough s) false none s)

lookup_group : Text → List (Text × Text) → Text
lookup_group name [] = []
lookup_group name ((n, w) ∷ gs) = if text_eq n name then w else lookup_group name gs

-- `m.group(name)` of a group that took part in the match.
unfoldable pub group_of : Text → Match → Text
unfolding lookup_group
group_of name m = lookup_group name m.groups

-- `re.split` of a pattern with the groups 1 and 2: the text between the matches, and the groups.
abbrev pub split_pieces : Text → List Piece → List Text
split_pieces between [] = between ∷ []
split_pieces between (plain c ∷ ps) = split_pieces (between ++ c ∷ []) ps
split_pieces between (hit m ∷ ps) =
    between ∷ (group_of (codes "1") m ∷ (group_of (codes "2") m ∷ split_pieces [] ps))

unfoldable pub re_split : Rx → Text → List Text
unfolding pieces group_of
re_split x s = split_pieces [] (pieces x (enough s) false none s)
