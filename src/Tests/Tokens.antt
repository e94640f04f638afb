-- ===== src/Tests/Tokens.antt =====
-- Tokens and macros that the tests share.
use pi_ghost.Base.{ℕ, [], ◌∷◌, String, codes}
use pi_ghost.Regex.{lit}
use pi_ghost.CLex.Token.{Kind, begin, end, name, space, Level, CToken}
use pi_ghost.CLex.Match.{CMatch, cmatch}
use pi_ghost.CLex.Match.Calls.{Call}
use pi_ghost.CLex.Match.Replaced.{Segment}

abbrev pub in_parens : ℕ → Level
in_parens n = record { bracket = 0; paren = n; brace = 0 }

-- A token within `n` parentheses.
abbrev pub tok : Kind → String → ℕ → ℕ → CToken
tok k w pos n = record { kind = k; value = codes w; pos = pos; level = in_parens n }

abbrev pub macro_d : CMatch
macro_d = cmatch (lit (codes "D")) (codes "(")

-- `D (a)`
abbrev pub call_d : Call
call_d = record {
  callee = tok name "D" 2 0;
  spaces = tok space " " 3 0 ∷ [];
  opener = tok begin "(" 4 1;
  body = tok name "a" 5 1 ∷ [];
  closer = tok end ")" 6 0;
}

abbrev pub name_x : CToken
name_x = tok name "x" 0 0

abbrev pub segment_d : Segment
segment_d = record { before = name_x ∷ []; call = call_d }
