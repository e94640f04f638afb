-- ===== src/Tests/ArgsTests.antt =====
-- `CTokenArgs`.
use pi_ghost.Base.{◌≡◌, refl, none, some, List, [], ◌∷◌, codes}
use pi_ghost.CLex.Token.{begin, end, punc, name, backref, CToken}
use pi_ghost.CLex.Raised.{ok}
use pi_ghost.CLex.Refs.{CTokenArgs, token_args, to_int}
use pi_ghost.CLex.Args.Filled.{ArgCall}
use pi_ghost.CLex.Args.Substituted.{substituted}
use pi_ghost.Tests.Tokens.{tok}

abbrev name_a : CToken
name_a = tok name "a" 2 1

abbrev name_b : CToken
name_b = tok name "b" 4 1

abbrev close : CToken
close = tok end ")" 5 0

-- `f(a,b)`
abbrev call_f : ArgCall
call_f = record {
  before = tok name "f" 0 0 ∷ [];
  opener = tok begin "(" 1 1;
  args = record { tokens = name_a ∷ []; delimiter = tok punc "," 3 1 } ∷ [];
  last = name_b ∷ [];
  close = close;
}

abbrev ref_two : CToken
ref_two = tok backref "\\2" 0 0

abbrev two_args : CTokenArgs
two_args = record {
  sub_groups = 2 ∷ [];
  max_group = some 2;
  greedy = none;
  sub_tokens = ref_two ∷ [];
}

token_args-two : token_args (codes "\\2") ≡ ok two_args
unfolding token_args
token_args-two = refl

abbrev ref_zero : CToken
ref_zero = tok backref "\\0" 0 0

-- The template `\0\2`.
abbrev whole_and_two : CTokenArgs
whole_and_two = record two_args { sub_groups = 0 ∷ 2 ∷ []; sub_tokens = ref_zero ∷ ref_two ∷ [] }

-- The tokens are two parentheses deep.
abbrev filled_f : List CToken
filled_f = tok name "a" 2 2 ∷ (tok punc "," 3 2 ∷ (tok name "b" 4 2 ∷ (tok name "b" 4 2 ∷ [])))

substituted_f : substituted call_f (ref_zero ∷ ref_two ∷ []) ≡ filled_f
unfolding to_int
substituted_f = refl
