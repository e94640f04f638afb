-- ===== src/CLex/Tokenizer.antt =====
-- `CTokenizer._tokenize`. The messages of `log.error` are not part of the model.
pub mod Lossless
pub mod Lexemes
pub mod Levels
pub mod Lines
use pi_ghost.Base.{ℕ, ◌+◌, ◌-◌, ◌&&◌, List, [], ◌∷◌, if◌then◌else◌, ltb, Text, codes, text_eq}
use pi_ghost.Regex.{Match}
use pi_ghost.Regex.Search.{finditer, sub}
use pi_ghost.CLex.Token.{Kind, begin, end, from_name, Level, ground_level, CToken}
use pi_ghost.CLex.Scanner.{re_scanner, re_cont}

-- The levels behind a BEGIN and behind an END.
unfoldable pub open_level : Text → Level → Level
open_level value l =
    if text_eq value (codes "(")
    then record l { paren = l.paren + 1 }
    else if text_eq value (codes "[")
    then record l { bracket = l.bracket + 1 }
    else record l { brace = l.brace + 1 }

unfoldable pub close_level : Text → Level → Level
close_level value l =
    if text_eq value (codes ")") && ltb 0 l.paren
    then record l { paren = l.paren - 1 }
    else if text_eq value (codes "]") && ltb 0 l.bracket
    then record l { bracket = l.bracket - 1 }
    else if ltb 0 l.brace
    then record l { brace = l.brace - 1 }
    else l

unfoldable pub level_after : Kind → Text → Level → Level
unfolding open_level close_level
level_after begin value l = open_level value l
level_after end value l = close_level value l
level_after _ value l = l

-- `match.lastgroup`
abbrev lastgroup : Match → Text
lastgroup m = elim m.groups [ [] ↦ [] | (n, w) ∷ gs ↦ n ]

unfoldable pub kind_of_match : Match → Kind
unfolding from_name
kind_of_match m = from_name (lastgroup m)

-- The loop over the matches.
unfoldable pub tokens_of : Level → List (ℕ × Match) → List CToken
unfolding kind_of_match level_after
tokens_of l [] = []
tokens_of l ((start, m) ∷ ms) =
    let kind = kind_of_match m in
    let l' = level_after kind m.taken l in
    record { kind = kind; value = m.taken; pos = start; level = l' } ∷ tokens_of l' ms

-- `RE_CONT.sub("", source)`
unfoldable pub join_lines : Text → Text
unfolding sub
join_lines source = sub re_cont (λ m. []) source

unfoldable pub tokenize : Text → List CToken
unfolding tokens_of finditer re_scanner join_lines
tokenize source = tokens_of ground_level (finditer re_scanner (join_lines source))
