-- ===== src/CLex/Tokenizer/Levels.antt =====
-- The levels of `_tokenize` on paired delimiters.
use mathlib.Core.Path.{subst}
use pi_ghost.Base.{
  ◌≤◌, ◌≡◌, refl, sym, ◌∙◌, ap, List, [], ◌∷◌, ◌++◌, ◌⊎◌, inl, inr, arith, Text, codes, All,
  All-append,
}
use pi_ghost.CLex.Token.{Kind, begin, end, Level, CToken}
use pi_ghost.CLex.Tokenizer.{open_level, close_level, level_after}
use pi_ghost.CLex.Tokenizer.Lossless.{Leveled}

-- `(` and `)`, `[` and `]`, `{` and `}`.
abbrev pub IsPair : Text → Text → Type 0
IsPair o c =
    ((o ≡ codes "(") × (c ≡ codes ")"))
    ⊎ ((o ≡ codes "[") × (c ≡ codes "]"))
    ⊎ ((o ≡ codes "{") × (c ≡ codes "}"))

abbrev pub IsPlain : Kind → Type 0
IsPlain begin = ⊥
IsPlain end = ⊥
IsPlain _ = Unit

-- Every delimiter is paired.
pub data Balanced : List CToken → Type 0 where
  done : Balanced []
  plain : {t : CToken} {ts : List CToken} → IsPlain t.kind → Balanced ts → Balanced (t ∷ ts)
  nest :
      (o c : CToken) (body ts : List CToken)
      → o.kind ≡ begin
      → c.kind ≡ end
      → IsPair o.value c.value
      → Balanced body
      → Balanced ts
      → Balanced (o ∷ (body ++ (c ∷ ts)))

abbrev pub last_level : Level → List CToken → Level
last_level l [] = l
last_level l (t ∷ ts) = last_level t.level ts

-- As many delimiters of each sort are open, or more.
abbrev pub AtLeast : Level → Level → Type 0
AtLeast l k = (l.bracket ≤ k.bracket) × (l.paren ≤ k.paren) × (l.brace ≤ k.brace)

pub close-open : (o c : Text) (l : Level) → IsPair o c → close_level c (open_level o l) ≡ l
unfolding close_level open_level
close-open o c l (inl (e, f)) = rw (e, f) (ground arith)
close-open o c l (inr (inl (e, f))) = rw (e, f) (ground arith)
close-open o c l (inr (inr (e, f))) = rw (e, f) (ground arith)

open-AtLeast : (o : Text) (l : Level) → AtLeast l (open_level o l)
unfolding open_level
open-AtLeast o l = ground arith

level_after-plain : (k : Kind) (w : Text) (l : Level) → IsPlain k → level_after k w l ≡ l
unfolding level_after
level_after-plain begin w l h = absurd h
level_after-plain end w l h = absurd h
level_after-plain _ w l h = refl

pub Leveled-append :
    (xs ys : List CToken) (l : Level)
    → Leveled l (xs ++ ys)
    → Leveled l xs × Leveled (last_level l xs) ys
Leveled-append [] ys l h = (tt, h)
Leveled-append (x ∷ xs) ys l h = let (p, q) = Leveled-append xs ys x.level h.1 in ((h.0, p), q)

AtLeast-refl : (l : Level) → AtLeast l l
AtLeast-refl l = omega arith

All-AtLeast :
    (l k : Level) (ts : List CToken)
    → AtLeast l k
    → All (λ t. AtLeast k t.level) ts
    → All (λ t. AtLeast l t.level) ts
All-AtLeast l k [] h hs = tt
All-AtLeast l k (t ∷ ts) h hs = (omega arith, All-AtLeast l k ts h hs.1)

pub last_level-append :
    (xs ys : List CToken) (l : Level) → last_level l (xs ++ ys) ≡ last_level (last_level l xs) ys
last_level-append [] ys l = refl
last_level-append (x ∷ xs) ys l = last_level-append xs ys x.level

-- The level at the first delimiter, and that behind the one that closes it.
pub opened_level :
    (o : CToken) (l : Level)
    → o.kind ≡ begin
    → o.level ≡ level_after o.kind o.value l
    → o.level ≡ open_level o.value l
unfolding level_after
opened_level o l k e = rw k at e

pub closed_level :
    (o c : CToken) (l k : Level)
    → c.kind ≡ end
    → IsPair o.value c.value
    → k ≡ open_level o.value l
    → c.level ≡ level_after c.kind c.value k
    → c.level ≡ l
unfolding level_after
closed_level o c l k ke p ek e =
    (rw ke at e) ∙ ap (close_level c.value) ek ∙ close-open o.value c.value l p

-- Behind a balanced text the levels are what they were before it, and within it none is less.
pub Balanced-levels :
    {ts : List CToken} (l : Level)
    → Balanced ts
    → Leveled l ts
    → (last_level l ts ≡ l) × All (λ t. AtLeast l t.level) ts
Balanced-levels l done h = (refl, tt)
Balanced-levels l (plain {t} {ts} p b) h =
    let e = h.0 ∙ level_after-plain t.kind t.value l p in
    let rest = Balanced-levels l b (subst (λ k. Leveled k ts) e h.1) in
    (ap (λ k. last_level k ts) e ∙ rest.0, (subst (AtLeast l) (sym e) (AtLeast-refl l), rest.1))
Balanced-levels l (nest o c body ts ko kc p b b') h =
    let eo = opened_level o l ko h.0 in
    let parts = Leveled-append body (c ∷ ts) o.level h.1 in
    let inner = Balanced-levels o.level b parts.0 in
    let ec = closed_level o c l (last_level o.level body) kc p (inner.0 ∙ eo) parts.1.0 in
    let rest = Balanced-levels l b' (subst (λ k. Leveled k ts) ec parts.1.1) in
    let up = subst (AtLeast l) (sym eo) (open-AtLeast o.value l) in
    (
      last_level-append body (c ∷ ts) o.level ∙ ap (λ k. last_level k ts) ec ∙ rest.0,
      (
        up,
        All-append (λ t. AtLeast l t.level) body (c ∷ ts) (All-AtLeast l o.level body up inner.1)
            (subst (AtLeast l) (sym ec) (AtLeast-refl l), rest.1),
      ),
    )
