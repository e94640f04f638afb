-- ===== src/CLex/Match/Deleted.antt =====
-- `sub` with an empty replacement, and `sub` where nothing is found.
use pi_ghost.Base.{ℕ, ◌≡◌, refl, ◌∙◌, false, none, zero, suc, List, [], ◌∷◌, ◌++◌, All, Text}
use pi_ghost.CLex.Token.{CToken}
use pi_ghost.CLex.Raised.{ok}
use pi_ghost.CLex.Refs.{CTokenArgs, token_args}
use pi_ghost.CLex.Args.{arg_tokens}
use pi_ghost.CLex.Match.{CMatch, names, sub_tokens}
use pi_ghost.CLex.Match.Replaced.{Segment, IsSegment, joined, expanded, sub_tokens-segments}

-- The tokens outside the calls.
abbrev pub outside : List Segment → List CToken → List CToken
outside [] tail = tail
outside (g ∷ gs) tail = g.before ++ outside gs tail

abbrev nothing : CTokenArgs
nothing = record { sub_groups = []; max_group = none; greedy = none; sub_tokens = [] }

token_args-nil : token_args [] ≡ ok nothing
unfolding token_args
token_args-nil = refl

arg_tokens-nil : (ts : List CToken) → arg_tokens nothing ts ≡ ok []
unfolding arg_tokens
arg_tokens-nil ts = refl

expanded-outside :
    (gs : List Segment) (tail : List CToken) → expanded nothing none gs tail ≡ ok (outside gs tail)
expanded-outside [] tail = refl
expanded-outside (g ∷ gs) tail = rw (arg_tokens-nil _) (rw (expanded-outside gs tail))

-- With an empty replacement the calls are taken out, and all that stands around them is kept.
pub sub_tokens-outside :
    (c : CMatch) (gs : List Segment) (tail : List CToken)
    → All (IsSegment c) gs
    → All (λ t. names c t ≡ false) tail
    → sub_tokens c [] (joined gs tail) 0 ≡ ok (outside gs tail)
sub_tokens-outside c gs tail h ht =
    sub_tokens-segments c [] nothing gs tail 0 token_args-nil h ht ∙ expanded-outside gs tail

-- Tokens without a name that is looked for are returned as they are.
pub sub_tokens-none :
    (c : CMatch) (sub_str : Text) (a : CTokenArgs) (ts : List CToken) (count : ℕ)
    → token_args sub_str ≡ ok a
    → All (λ t. names c t ≡ false) ts
    → sub_tokens c sub_str ts count ≡ ok ts
sub_tokens-none c sub_str a ts zero e h = sub_tokens-segments c sub_str a [] ts zero e tt h
sub_tokens-none c sub_str a ts (suc n) e h = sub_tokens-segments c sub_str a [] ts (suc n) e tt h
