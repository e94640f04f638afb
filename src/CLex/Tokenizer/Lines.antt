-- ===== src/CLex/Tokenizer/Lines.antt =====
-- Continued lines.
use pi_ghost.Base.{
  ℕ, zero, suc, ◌<◌, ◌≡◌, refl, false, ◌&&◌, Option, none, some, [], ◌∷◌, arith, Text, length, ◌==◌,
  if◌then◌else◌,
}
use pi_ghost.Regex.Search.{pieces, replaced, enough}
use pi_ghost.CLex.Scanner.{re_cont}
use pi_ghost.CLex.Tokenizer.{join_lines}

-- The text without a backslash and newline that follow each other, from the left.
pub unbroken : Text → Text
unbroken [] = []
unbroken (c ∷ []) = c ∷ []
unbroken (c ∷ (d ∷ w)) =
    let skipped = unbroken w in
    let kept = c ∷ unbroken (d ∷ w) in if c == b'\\' && d == b'\n' then skipped else kept

pieces-unbroken :
    (w : Text) (fuel : ℕ) (prev : Option ℕ)
    → length w < fuel
    → replaced (λ m. []) (pieces re_cont fuel false prev w) ≡ unbroken w
unfolding pieces unbroken
pieces-unbroken w zero prev h = absurd (omega arith)
pieces-unbroken [] (suc fuel) prev h = refl
pieces-unbroken (c ∷ []) (suc fuel) prev h = ground (arith, pieces-unbroken [] fuel (some c))
pieces-unbroken (c ∷ (d ∷ w)) (suc fuel) prev h =
    ground (arith, pieces-unbroken w fuel (some d), pieces-unbroken (d ∷ w) fuel (some c))

-- `_tokenize` drops the backslash and the newline of each continued line, and nothing else.
pub join_lines-unbroken : (source : Text) → join_lines source ≡ unbroken source
unfolding join_lines
join_lines-unbroken source = pieces-unbroken source (enough source) none (omega arith)
