-- ===== src/CLex/Tokenizer/Lossless.antt =====
-- The tokens are the source, cut into pieces.
use pi_ghost.Base.{
  ℕ, ◌+◌, ◌≡◌, refl, ap, ◌∙◌, List, [], ◌∷◌, ◌++◌, arith, Text, length, All, none, false,
}
use pi_ghost.Regex.{Match}
use pi_ghost.Regex.Search.{Piece, plain, hit, hits, pieces, enough, finditer}
use pi_ghost.Regex.Pieces.{flat, IsHit, pieces-flat, pieces-IsHit}
use pi_ghost.CLex.Token.{Level, ground_level, CToken}
use pi_ghost.CLex.Scanner.{re_scanner}
use pi_ghost.CLex.Tokenizer.{level_after, tokens_of, join_lines, tokenize}
use pi_ghost.CLex.Tokenizer.Lexemes.{
  IsLexeme, FitsKind, re_scanner-FitsKind, re_scanner-IsTotal, nullable-re_scanner,
}

-- The source text of a token list.
abbrev pub text_of : List CToken → Text
text_of [] = []
text_of (t ∷ ts) = t.value ++ text_of ts

-- Each token stands where the ones before it end.
abbrev pub Placed : ℕ → List CToken → Type 0
Placed n [] = Unit
Placed n (t ∷ ts) = (t.pos ≡ n) × Placed (n + length t.value) ts

-- The levels of each token are those of the one before it, changed by the token alone.
abbrev pub Leveled : Level → List CToken → Type 0
Leveled l [] = Unit
Leveled l (t ∷ ts) = (t.level ≡ level_after t.kind t.value l) × Leveled t.level ts

abbrev pub Lexeme : CToken → Type 0
Lexeme t = IsLexeme t.kind t.value

tokens-text :
    (ps : List Piece) (pos : ℕ) (l : Level)
    → All (IsHit FitsKind) ps
    → text_of (tokens_of l (hits pos ps)) ≡ flat ps
unfolding tokens_of
tokens-text [] pos l h = refl
tokens-text (plain c ∷ ps) pos l h = absurd h.0
tokens-text (hit m ∷ ps) pos l h = ap (◌++◌ m.taken) (tokens-text ps _ _ h.1)

tokens-Lexeme :
    (ps : List Piece) (pos : ℕ) (l : Level)
    → All (IsHit FitsKind) ps
    → All Lexeme (tokens_of l (hits pos ps))
unfolding tokens_of
tokens-Lexeme [] pos l h = tt
tokens-Lexeme (plain c ∷ ps) pos l h = absurd h.0
tokens-Lexeme (hit m ∷ ps) pos l h = (h.0, tokens-Lexeme ps _ _ h.1)

tokens-Placed :
    (ps : List Piece) (pos : ℕ) (l : Level)
    → All (IsHit FitsKind) ps
    → Placed pos (tokens_of l (hits pos ps))
unfolding tokens_of
tokens-Placed [] pos l h = tt
tokens-Placed (plain c ∷ ps) pos l h = absurd h.0
tokens-Placed (hit m ∷ ps) pos l h = (refl, tokens-Placed ps _ _ h.1)

tokens-Leveled : (ms : List (ℕ × Match)) (l : Level) → Leveled l (tokens_of l ms)
unfolding tokens_of
tokens-Leveled [] l = tt
tokens-Leveled ((start, m) ∷ ms) l = (refl, tokens-Leveled ms _)

scanned-IsHit : (s : Text) → All (IsHit FitsKind) (pieces re_scanner (enough s) false none s)
scanned-IsHit s =
    pieces-IsHit re_scanner FitsKind (enough s) none s nullable-re_scanner re_scanner-IsTotal
      re_scanner-FitsKind

-- The values of the tokens, one after the other, are the source with its continued lines joined.
pub text_of-tokenize : (source : Text) → text_of (tokenize source) ≡ join_lines source
unfolding tokenize finditer
text_of-tokenize source =
    let s = join_lines source in
    tokens-text (pieces re_scanner (enough s) false none s) 0 ground_level (scanned-IsHit s)
    ∙ pieces-flat re_scanner (enough s) false none s (omega arith)

-- No token is empty, and a delimiter token is one delimiter of its kind.
tokenize-Lexeme : (source : Text) → All Lexeme (tokenize source)
unfolding tokenize finditer
tokenize-Lexeme source =
    let s = join_lines source in
    tokens-Lexeme (pieces re_scanner (enough s) false none s) 0 ground_level (scanned-IsHit s)

-- Positions count the characters before each token.
pub tokenize-Placed : (source : Text) → Placed 0 (tokenize source)
unfolding tokenize finditer
tokenize-Placed source =
    let s = join_lines source in
    tokens-Placed (pieces re_scanner (enough s) false none s) 0 ground_level (scanned-IsHit s)

-- The levels start at none open and follow the delimiters.
pub tokenize-Leveled : (source : Text) → Leveled ground_level (tokenize source)
unfolding tokenize
tokenize-Leveled source = tokens-Leveled _ ground_level
