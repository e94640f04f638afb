-- ===== src/Tests/MatchTests.antt =====
-- `CMatch`.
use pi_ghost.Base.{
  suc, ◌≡◌, refl, true, false, none, List, [], ◌∷◌, ◌++◌, String, Text, codes, inl, All,
}
use pi_ghost.Regex.{lit}
use pi_ghost.CLex.Token.{begin, name, CToken}
use pi_ghost.CLex.Raised.{
  Result, ok, raised, attribute_error, index_error, multiple_greedy, greedy_not_last,
}
use pi_ghost.CLex.Refs.{CTokenArgs, token_args}
use pi_ghost.CLex.Tokenizer.{level_after}
use pi_ghost.CLex.Tokenizer.Levels.{done, plain}
use pi_ghost.CLex.Match.{
  cmatch, names, begins, search_from, search_spans, sub_tokens, sub_text, limit_of,
}
use pi_ghost.CLex.Match.Calls.{IsCall, call_tokens, waiting}
use pi_ghost.CLex.Match.Found.{call_end, then_spans, search_spans-call}
use pi_ghost.CLex.Match.Replaced.{joined, expanded, sub_tokens-segments}
use pi_ghost.Tests.Tokens.{tok, macro_d, call_d, name_x, segment_d}

abbrev replaced_by : String → String → Result Text
replaced_by sub_str source = sub_text macro_d (codes sub_str) (codes source) 0

struct_group :
    sub_text
      (cmatch (lit (codes "struct_group")) (codes "("))
      (codes "struct { \\2+ };")
      (codes "struct a { struct_group(g, int b, int c); };")
      0
    ≡ ok (codes "struct a { struct {  int b, int c }; };")
unfolding sub_text
struct_group = refl

-- The comma inside `f(a,b)` parts the arguments, and `c` is lost.
nested_comma : replaced_by "[\\1|\\2]" "D(f(a,b), c)" ≡ ok (codes "[f(a|b)]")
unfolding sub_text
nested_comma = refl

-- An argument list in square brackets cannot be taken apart.
square_brackets :
    sub_text (cmatch (lit (codes "D")) (codes "[")) (codes "\\1") (codes "D[a]") 0
    ≡ raised attribute_error
unfolding sub_text
square_brackets = refl

missing_argument : replaced_by "\\2" "D(a)" ≡ raised index_error
unfolding sub_text
missing_argument = refl

bad_templates :
    (replaced_by "\\1+\\2+" "D(a)" ≡ raised multiple_greedy)
    × (replaced_by "\\1+\\2" "D(a)" ≡ raised greedy_not_last)
unfolding sub_text
bad_templates = (refl, refl)

-- The same unclosed call, at the first token and behind one.
unclosed : (replaced_by "" "D (a" ≡ ok (codes "D (a")) × (replaced_by "" "x D (a" ≡ ok (codes "x "))
unfolding sub_text
unclosed = (refl, refl)

-- Two names that take no arguments: the second one stays.
twice : replaced_by "" "D D x" ≡ ok (codes "D x")
unfolding sub_text
twice = refl

stray : replaced_by "X" "D)" ≡ ok (codes "XX)")
unfolding sub_text
stray = refl

limited : sub_text macro_d (codes "X") (codes "D(a) D(b)") 1 ≡ ok (codes "X D(b)")
unfolding sub_text
limited = refl

call_d-IsCall : IsCall macro_d call_d
unfolding names begins level_after
call_d-IsCall = record {
  named = refl;
  spaced = (refl, tt);
  opens = refl;
  closes = refl;
  pair = inl (refl, refl);
  balanced = plain tt done;
  leveled = (refl, (refl, (refl, (refl, tt))));
}

x_unnamed : All (λ t. names macro_d t ≡ false) (name_x ∷ [])
unfolding names
x_unnamed = (refl, tt)

d_named : names macro_d (tok name "D" 0 0) ≡ true
unfolding names
d_named = refl

search_spans-call_example :
    search_spans macro_d ((name_x ∷ []) ++ (call_tokens call_d ++ (name_x ∷ [])))
    ≡ then_spans
        (1, call_end 1 call_d)
        (search_from macro_d (suc (call_end 1 call_d)) (waiting true []) (name_x ∷ []))
search_spans-call_example =
    search_spans-call macro_d call_d (name_x ∷ []) (name_x ∷ []) x_unnamed call_d-IsCall

abbrev args_x : CTokenArgs
args_x = record { sub_groups = []; max_group = none; greedy = none; sub_tokens = name_x ∷ [] }

token_args-x : token_args (codes "x") ≡ ok args_x
unfolding token_args
token_args-x = refl

sub_tokens-segments_example :
    sub_tokens macro_d (codes "x") (joined (segment_d ∷ segment_d ∷ []) (name_x ∷ [])) 1
    ≡ expanded args_x (limit_of 1) (segment_d ∷ segment_d ∷ []) (name_x ∷ [])
sub_tokens-segments_example =
    sub_tokens-segments macro_d (codes "x") args_x (segment_d ∷ segment_d ∷ []) (name_x ∷ []) 1
      token_args-x ((x_unnamed, call_d-IsCall), ((x_unnamed, call_d-IsCall), tt)) x_unnamed

abbrev open_d : List CToken
open_d = tok name "D" 0 0 ∷ ([] ++ (tok begin "(" 0 1 ∷ (tok name "a" 0 1 ∷ [])))
