-- ===== src/Xforms/Kept.antt =====
-- Sources without any of the macros of a table.
use pi_ghost.Base.{◌≡◌, refl, Bool, true, false, ◌&&◌, arith, List, [], ◌∷◌, All, Text}
use pi_ghost.CLex.Token.{CToken}
use pi_ghost.CLex.Tokenizer.{tokenize}
use pi_ghost.CLex.Render.{render}
use pi_ghost.CLex.Raised.{Result, ok, raised}
use pi_ghost.CLex.Refs.{CTokenArgs, token_args}
use pi_ghost.CLex.Match.{names}
use pi_ghost.CLex.Match.Deleted.{sub_tokens-none}
use pi_ghost.Xforms.{
  Transform, by_match, by_regex, as_tokens, transforms, struct_xforms, struct, apply,
}

-- The transform replaces macros by a template that is well formed.
abbrev pub IsMacro : Transform → Type 0
IsMacro (by_match c w) = (a : CTokenArgs) × (token_args w ≡ ok a)
IsMacro (by_regex x w) = ⊥

-- The transform finds no name among the tokens.
abbrev pub Misses : List CToken → Transform → Type 0
Misses ts (by_match c w) = All (λ t. names c t ≡ false) ts
Misses ts (by_regex x w) = ⊥

transforms-none :
    (xs : List Transform) (ts : List CToken)
    → All IsMacro xs
    → All (Misses ts) xs
    → transforms xs (as_tokens ts) ≡ ok (as_tokens ts)
unfolding transforms
transforms-none [] ts m h = refl
transforms-none (by_match c w ∷ xs) ts m h =
    rw (sub_tokens-none c w m.0.0 ts 0 m.0.1 h.0) (transforms-none xs ts m.1 h.1)
transforms-none (by_regex x w ∷ xs) ts m h = absurd h.0

is_ok : Result CTokenArgs → Bool
is_ok (ok a) = true
is_ok (raised e) = false

all_macros : List Transform → Bool
all_macros [] = true
all_macros (by_match c w ∷ xs) = is_ok (token_args w) && all_macros xs
all_macros (by_regex x w ∷ xs) = false

is_ok-ok : (r : Result CTokenArgs) → is_ok r ≡ true → (a : CTokenArgs) × (r ≡ ok a)
unfolding is_ok
is_ok-ok (ok a) h = (a, refl)
is_ok-ok (raised e) h = cc

all_macros-IsMacro : (xs : List Transform) → all_macros xs ≡ true → All IsMacro xs
unfolding all_macros
all_macros-IsMacro [] h = tt
all_macros-IsMacro (by_match c w ∷ xs) h =
    (is_ok-ok (token_args w) (ground arith), all_macros-IsMacro xs (ground arith))
all_macros-IsMacro (by_regex x w ∷ xs) h = cc

struct_macros : all_macros struct_xforms ≡ true
unfolding all_macros is_ok struct_xforms token_args
struct_macros = refl

-- A struct without any of the macros of its table is only rendered.
pub apply-struct :
    (source : Text)
    → All (Misses (tokenize source)) struct_xforms
    → apply struct source ≡ ok (render (tokenize source))
unfolding apply
apply-struct source h = rw (
    transforms-none struct_xforms (tokenize source) (all_macros-IsMacro struct_xforms struct_macros)
      h)
