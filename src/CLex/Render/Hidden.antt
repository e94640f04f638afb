-- ===== src/CLex/Render/Hidden.antt =====
-- `__str__` behind a "private:" comment.
use pi_ghost.Base.{
  ◌≡◌, ◌≢◌, refl, ap, ◌∙◌, Bool, true, false, List, [], ◌∷◌, ◌++◌, append_assoc, arith, All,
}
use pi_ghost.CLex.Token.{comment, begin, end, CToken}
use pi_ghost.CLex.Tokenizer.Levels.{IsPlain, Balanced, done, plain, nest}
use pi_ghost.CLex.Render.{Shown, tabs, is_private, is_public, after_comment, render_from}

abbrev pub hiding : List Bool → Shown
hiding bs = record { top = false; below = bs }

abbrev pub showing : List Bool → Shown
showing bs = record { top = true; below = bs }

abbrev pub NoComment : CToken → Type 0
NoComment t = t.kind ≢ comment

hidden_plain :
    (bs : List Bool) (t : CToken) (ts : List CToken)
    → IsPlain t.kind
    → NoComment t
    → render_from (hiding bs) (t ∷ ts) ≡ render_from (hiding bs) ts
unfolding render_from
hidden_plain bs t ts p n = ground arith

hidden_begin :
    (bs : List Bool) (t : CToken) (ts : List CToken)
    → t.kind ≡ begin
    → render_from (hiding bs) (t ∷ ts) ≡ render_from (hiding (false ∷ bs)) ts
unfolding render_from
hidden_begin bs t ts k = ground arith

hidden_end :
    (bs : List Bool) (t : CToken) (ts : List CToken)
    → t.kind ≡ end
    → render_from (hiding (false ∷ bs)) (t ∷ ts) ≡ render_from (hiding bs) ts
unfolding render_from
hidden_end bs t ts k = ground arith

-- A balanced text without comments leaves no trace there.
hidden-Balanced :
    {ts : List CToken} (bs : List Bool) (rest : List CToken)
    → Balanced ts
    → All NoComment ts
    → render_from (hiding bs) (ts ++ rest) ≡ render_from (hiding bs) rest
hidden-Balanced bs rest done h = refl
hidden-Balanced bs rest (plain {t} {ts} p b) h =
    hidden_plain bs t (ts ++ rest) p h.0 ∙ hidden-Balanced bs rest b h.1
hidden-Balanced bs rest (nest o c body ts ko kc p b b') h =
    let (hb, hc, ht) = split body c ts h.1 in
    hidden_begin bs o ((body ++ (c ∷ ts)) ++ rest) ko
    ∙ ap (render_from (hiding (false ∷ bs))) (append_assoc body (c ∷ ts) rest)
    ∙ hidden-Balanced (false ∷ bs) (c ∷ (ts ++ rest)) b hb
    ∙ hidden_end bs c (ts ++ rest) kc
    ∙ hidden-Balanced bs rest b' ht
  where
    split :
        (xs : List CToken) (y : CToken) (ys : List CToken)
        → All NoComment (xs ++ (y ∷ ys))
        → All NoComment xs × NoComment y × All NoComment ys
    split [] y ys h = (tt, h.0, h.1)
    split (x ∷ xs) y ys h = let (p, q, r) = split xs y ys h.1 in ((h.0, p), q, r)

private_comment :
    (bs : List Bool) (t : CToken) (ts : List CToken)
    → t.kind ≡ comment
    → is_private t.value ≡ true
    → render_from (showing bs) (t ∷ ts) ≡ render_from (hiding bs) ts
unfolding render_from after_comment
private_comment bs t ts k p = rw (k, render_from) (rw p)

public_comment :
    (bs : List Bool) (t : CToken) (ts : List CToken)
    → t.kind ≡ comment
    → is_private t.value ≡ false
    → is_public t.value ≡ true
    → render_from (hiding bs) (t ∷ ts) ≡ render_from (showing bs) ts
unfolding render_from after_comment
public_comment bs t ts k n p = rw (k, render_from) (rw n (rw p))

block_end :
    (bs : List Bool) (t : CToken) (ts : List CToken)
    → t.kind ≡ end
    → render_from (hiding (true ∷ bs)) (t ∷ ts)
      ≡ (tabs bs ++ t.value) ++ render_from (showing bs) ts
unfolding render_from
block_end bs t ts k = ground arith

-- From a "private:" comment to the delimiter that closes its block only that delimiter is shown,
-- behind as many tabs as blocks are open around it. What is between has its delimiters paired and no
-- comment in it: a "public:" comment would end the hiding.
pub render-private_block :
    {hidden : List CToken} (bs : List Bool) (p close : CToken) (rest : List CToken)
    → p.kind ≡ comment
    → is_private p.value ≡ true
    → Balanced hidden
    → All NoComment hidden
    → close.kind ≡ end
    → render_from (showing (true ∷ bs)) (p ∷ (hidden ++ (close ∷ rest)))
      ≡ (tabs bs ++ close.value) ++ render_from (showing bs) rest
render-private_block {hidden} bs p close rest k v b n e =
    private_comment (true ∷ bs) p (hidden ++ (close ∷ rest)) k v
    ∙ hidden-Balanced (true ∷ bs) (close ∷ rest) b n
    ∙ block_end bs close rest e

-- From a "private:" comment to a "public:" comment in the same block nothing is shown.
pub render-private_public :
    {hidden : List CToken} (bs : List Bool) (p q : CToken) (rest : List CToken)
    → p.kind ≡ comment
    → is_private p.value ≡ true
    → Balanced hidden
    → All NoComment hidden
    → q.kind ≡ comment
    → is_private q.value ≡ false
    → is_public q.value ≡ true
    → render_from (showing bs) (p ∷ (hidden ++ (q ∷ rest))) ≡ render_from (showing bs) rest
render-private_public {hidden} bs p q rest k v b n kq nq vq =
    private_comment bs p (hidden ++ (q ∷ rest)) k v
    ∙ hidden-Balanced bs (q ∷ rest) b n
    ∙ public_comment bs q rest kq nq vq
