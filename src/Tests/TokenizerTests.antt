-- ===== src/Tests/TokenizerTests.antt =====
-- The tokenizer and `__str__`.
use pi_ghost.Base.{◌≡◌, refl, true, List, [], ◌∷◌, ◌++◌, map, Text, codes}
use pi_ghost.CLex.Token.{Kind, comment, begin, end, name, space, endstmt, ground_level, CToken}
use pi_ghost.CLex.Tokenizer.{tokenize, join_lines}
use pi_ghost.CLex.Tokenizer.Levels.{done, plain}
use pi_ghost.CLex.Tokenizer.Lossless.{text_of, text_of-tokenize}
use pi_ghost.CLex.Render.{render, render_from, tabs, comment_body}
use pi_ghost.CLex.Render.Hidden.{showing, render-private_block}
use pi_ghost.Tests.Tokens.{tok}

abbrev source : Text
source = codes "int f\\\n(a[1]);"

kinds :
    map (λ t. t.kind) (tokenize (codes "struct a { int b ; /* c */ };"))
    ≡ Kind.struct ∷ space ∷ name ∷ space ∷ begin ∷ space ∷ name ∷ space ∷ name ∷ endstmt ∷ space
      ∷ comment ∷ space ∷ end ∷ endstmt ∷ []
unfolding tokenize
kinds = refl

-- A ")" that nothing opened closes a brace.
stray_paren :
    map (λ t. t.level) (tokenize (codes "{)}"))
    ≡ record { bracket = 0; paren = 0; brace = 1 } ∷ ground_level ∷ ground_level ∷ []
unfolding tokenize
stray_paren = refl

text_of-tokenize_example : text_of (tokenize source) ≡ join_lines source
text_of-tokenize_example = text_of-tokenize source

-- `f(a)`
abbrev call_f : List CToken
call_f = tok name "f" 0 0 ∷ tok begin "(" 1 1 ∷ tok name "a" 2 1 ∷ tok end ")" 3 0 ∷ []

abbrev private_token : CToken
private_token = tok comment "/* private: */" 0 0

abbrev public_token : CToken
public_token = tok comment "/* public: */" 0 0

abbrev hidden_tokens : List CToken
hidden_tokens = tok name "x" 0 0 ∷ tok endstmt ";" 0 0 ∷ []

render-private_block_example :
    render_from
      (showing (true ∷ true ∷ []))
      (private_token ∷ (hidden_tokens ++ (tok end "}" 0 0 ∷ call_f)))
    ≡ (tabs (true ∷ []) ++ codes "}") ++ render_from (showing (true ∷ [])) call_f
render-private_block_example =
    render-private_block (true ∷ []) private_token (tok end "}" 0 0) call_f refl
      (unfold comment_body in refl) (plain tt (plain tt done)) ((λ e. cc), ((λ e. cc), tt)) refl

rendered :
    render (tokenize (codes "struct a { int b; /* private: */ int c; };"))
    ≡ codes "struct a { int b; };"
unfolding tokenize render
rendered = refl
