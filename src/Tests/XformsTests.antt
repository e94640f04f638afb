-- ===== src/Tests/XformsTests.antt =====
-- `CTransforms.apply`.
use pi_ghost.Base.{◌≡◌, refl, Bool, true, false, not, ◌&&◌, arith, List, [], ◌∷◌, All, Text, codes}
use pi_ghost.CLex.Match.{CMatch, names}
use pi_ghost.CLex.Raised.{ok}
use pi_ghost.CLex.Tokenizer.{tokenize}
use pi_ghost.CLex.Token.{CToken}
use pi_ghost.Xforms.{Transform, by_match, by_regex, apply, struct, var, struct_xforms}
use pi_ghost.Xforms.Kept.{Misses}

abbrev source : Text
source = codes "int b;"

packed : apply struct (codes "struct a { int b; } __packed;") ≡ ok (codes "struct a { int b; };")
unfolding apply
packed = refl

-- The template of DECLARE_PER_CPU ends in a brace that nothing opens.
per_cpu : apply var (codes "DECLARE_PER_CPU(int, x)") ≡ ok (codes "int  x[PER_CPU]; }")
unfolding apply
per_cpu = refl

all_unnamed : CMatch → List CToken → Bool
all_unnamed c [] = true
all_unnamed c (t ∷ ts) = not (names c t) && all_unnamed c ts

all_missed : List CToken → List Transform → Bool
all_missed ts [] = true
all_missed ts (by_match c w ∷ xs) = all_unnamed c ts && all_missed ts xs
all_missed ts (by_regex x w ∷ xs) = false

all_unnamed-All :
    (c : CMatch) (ts : List CToken) → all_unnamed c ts ≡ true → All (λ t. names c t ≡ false) ts
unfolding all_unnamed
all_unnamed-All c [] h = tt
all_unnamed-All c (t ∷ ts) h = (ground arith, all_unnamed-All c ts (ground arith))

all_missed-All :
    (ts : List CToken) (xs : List Transform) → all_missed ts xs ≡ true → All (Misses ts) xs
unfolding all_missed
all_missed-All ts [] h = tt
all_missed-All ts (by_match c w ∷ xs) h =
    (all_unnamed-All c ts (ground arith), all_missed-All ts xs (ground arith))
all_missed-All ts (by_regex x w ∷ xs) h = cc

missed : all_missed (tokenize source) struct_xforms ≡ true
unfolding all_missed all_unnamed struct_xforms tokenize names
missed = refl

misses : All (Misses (tokenize source)) struct_xforms
misses = all_missed-All (tokenize source) struct_xforms missed
