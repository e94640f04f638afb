-- ===== src/CLex/Args/Whole.antt =====
-- The group `\0` of `CTokenArgs.groups`: what stands between the delimiters of the call.
use pi_ghost.Base.{
  ℕ, suc, ◌≡◌, refl, sym, ap, ◌∙◌, List, [], ◌∷◌, ◌++◌, arith, All, append_assoc, append-nil,
}
use pi_ghost.CLex.Token.{begin, end, CToken}
use pi_ghost.CLex.Tokenizer.Levels.{IsPlain, Balanced, done, plain, nest}
use pi_ghost.CLex.Args.{whole_group}

whole_plain :
    (f : CToken) (found : List CToken) (n : ℕ) (t : CToken) (ts : List CToken)
    → IsPlain t.kind
    → whole_group (f ∷ found) (suc n) (t ∷ ts) ≡ whole_group (f ∷ (found ++ t ∷ [])) (suc n) ts
unfolding whole_group
whole_plain f found n t ts p = ground arith

whole_begin :
    (f : CToken) (found : List CToken) (n : ℕ) (t : CToken) (ts : List CToken)
    → t.kind ≡ begin
    → whole_group (f ∷ found) n (t ∷ ts) ≡ whole_group (f ∷ (found ++ t ∷ [])) (suc n) ts
unfolding whole_group
whole_begin f found n t ts k = ground arith

whole_end :
    (f : CToken) (found : List CToken) (n : ℕ) (t : CToken) (ts : List CToken)
    → t.kind ≡ end
    → whole_group (f ∷ found) (suc (suc n)) (t ∷ ts)
      ≡ whole_group (f ∷ (found ++ t ∷ [])) (suc n) ts
unfolding whole_group
whole_end f found n t ts k = ground arith

whole_close :
    (f : CToken) (found : List CToken) (t : CToken)
    → t.kind ≡ end
    → whole_group (f ∷ found) 1 (t ∷ []) ≡ f ∷ found
unfolding whole_group
whole_close f found t k = rw (k, whole_group)

-- Once something is found, a balanced text is found whole.
whole-Balanced :
    {ts : List CToken} (f : CToken) (found rest : List CToken) (n : ℕ)
    → Balanced ts
    → whole_group (f ∷ found) (suc n) (ts ++ rest) ≡ whole_group (f ∷ (found ++ ts)) (suc n) rest
whole-Balanced f found rest n done =
    ap (λ l. whole_group (f ∷ l) (suc n) rest) (sym (append-nil found))
whole-Balanced f found rest n (plain {t} {ts} p b) =
    whole_plain f found n t (ts ++ rest) p
    ∙ whole-Balanced f (found ++ t ∷ []) rest n b
    ∙ ap (λ l. whole_group (f ∷ l) (suc n) rest) (append_assoc found (t ∷ []) ts)
whole-Balanced f found rest n (nest o c body ts ko kc p b b') =
    whole_begin f found (suc n) o ((body ++ (c ∷ ts)) ++ rest) ko
    ∙ ap (whole_group (f ∷ (found ++ o ∷ [])) (suc (suc n))) (append_assoc body (c ∷ ts) rest)
    ∙ whole-Balanced f (found ++ o ∷ []) (c ∷ (ts ++ rest)) (suc n) b
    ∙ whole_end f ((found ++ o ∷ []) ++ body) n c (ts ++ rest) kc
    ∙ whole-Balanced f (((found ++ o ∷ []) ++ body) ++ c ∷ []) rest n b'
    ∙ ap (λ l. whole_group (f ∷ l) (suc n) rest) (simp append_assoc)

-- Before the call's delimiter, and behind delimiters with nothing found yet.
whole_before :
    (pre ts : List CToken)
    → All (λ t. IsPlain t.kind) pre
    → whole_group [] 0 (pre ++ ts) ≡ whole_group [] 0 ts
unfolding whole_group
whole_before [] ts h = refl
whole_before (t ∷ pre) ts h = ground (arith, whole_before pre ts h.1)

whole_skip :
    (n : ℕ) (t : CToken) (ts : List CToken)
    → t.kind ≡ begin
    → whole_group [] n (t ∷ ts) ≡ whole_group [] (suc n) ts
unfolding whole_group
whole_skip n t ts k = rw (k, whole_group)

whole_first :
    (n : ℕ) (t : CToken) (ts : List CToken)
    → IsPlain t.kind
    → whole_group [] (suc n) (t ∷ ts) ≡ whole_group (t ∷ []) (suc n) ts
unfolding whole_group
whole_first n t ts p = ground arith

-- If the first token between the delimiters of a call is no delimiter, `\0` is all that stands
-- between them.
pub whole_group-call :
    {body : List CToken} (pre : List CToken) (o x c : CToken)
    → All (λ t. IsPlain t.kind) pre
    → o.kind ≡ begin
    → IsPlain x.kind
    → Balanced body
    → c.kind ≡ end
    → whole_group [] 0 (pre ++ (o ∷ (x ∷ (body ++ c ∷ [])))) ≡ x ∷ body
whole_group-call {body} pre o x c h ko px b kc =
    whole_before pre (o ∷ (x ∷ (body ++ c ∷ []))) h
    ∙ whole_skip 0 o (x ∷ (body ++ c ∷ [])) ko
    ∙ whole_first 0 x (body ++ c ∷ []) px
    ∙ whole-Balanced x [] (c ∷ []) 0 b
    ∙ whole_close x body c kc

-- If it is a delimiter itself, as in `f((a) + b)`, that delimiter is lost and the one that closes it
-- is kept.
whole_group-nested :
    {inner later : List CToken} (pre : List CToken) (o o' x c' c : CToken)
    → All (λ t. IsPlain t.kind) pre
    → o.kind ≡ begin
    → o'.kind ≡ begin
    → IsPlain x.kind
    → Balanced inner
    → c'.kind ≡ end
    → Balanced later
    → c.kind ≡ end
    → whole_group [] 0 (pre ++ (o ∷ (o' ∷ (x ∷ (inner ++ (c' ∷ (later ++ c ∷ [])))))))
      ≡ x ∷ (inner ++ (c' ∷ later))
whole_group-nested {inner} {later} pre o o' x c' c h ko ko' px b kc' bl kc =
    let behind = c' ∷ (later ++ c ∷ []) in
    whole_before pre (o ∷ (o' ∷ (x ∷ (inner ++ behind)))) h
    ∙ whole_skip 0 o (o' ∷ (x ∷ (inner ++ behind))) ko
    ∙ whole_skip 1 o' (x ∷ (inner ++ behind)) ko'
    ∙ whole_first 1 x (inner ++ behind) px
    ∙ whole-Balanced x [] behind 1 b
    ∙ whole_end x inner 0 c' (later ++ c ∷ []) kc'
    ∙ whole-Balanced x (inner ++ c' ∷ []) (c ∷ []) 0 bl
    ∙ whole_close x ((inner ++ c' ∷ []) ++ later) c kc
    ∙ ap (◌∷◌ x) (append_assoc inner (c' ∷ []) later)
