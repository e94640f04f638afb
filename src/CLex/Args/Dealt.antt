-- ===== src/CLex/Args/Dealt.antt =====
-- `CTokenArgs.groups` on arguments between delimiters.
use mathlib.Core.Path.{subst}
use pi_ghost.Base.{
  ℕ, suc, ◌+◌, ◌≤◌, ◌<◌, ◌≡◌, refl, sym, ap, ◌∙◌, Bool, true, false, not, ◌&&◌, Option, some, List,
  [], ◌∷◌, ◌++◌, arith, All, length, append_assoc, append-nil, length-append, Text, ltb, map,
  Bool-cases, inl, inr,
}
use pi_ghost.CLex.Token.{Kind, begin, end, CToken}
use pi_ghost.CLex.Tokenizer.Levels.{IsPlain, Balanced, done, plain, nest}
use pi_ghost.CLex.Args.{append_at, is_delim, inner_after, deal}

abbrev pub Groups : Type 0
Groups = List (List CToken)

append_at-last :
    (gs : Groups) (g : List CToken) (t : CToken)
    → append_at (length gs) t (gs ++ g ∷ []) ≡ gs ++ (g ++ t ∷ []) ∷ []
append_at-last [] g t = refl
append_at-last (h ∷ gs) g t = ap (◌∷◌ h) (append_at-last gs g t)

inner_after-plain : (k : Kind) (n : ℕ) → IsPlain k → inner_after k n ≡ some n
inner_after-plain begin n h = absurd h
inner_after-plain end n h = absurd h
inner_after-plain _ n h = refl

-- A token that stays in its group: no delimiter, or one past the last group of an eager call.
abbrev pub Stays : Option Text → Bool → ℕ → ℕ → CToken → Type 0
Stays d eager max pos t = (is_delim d t && not (eager && ltb max (suc pos))) ≡ false

module _ (d : Option Text) (eager : Bool) (max pos : ℕ) (gs : Groups)
    (at_last : pos ≡ length gs) where
  at_pos :
      (g : List CToken) (t : CToken) → append_at pos t (gs ++ g ∷ []) ≡ gs ++ (g ++ t ∷ []) ∷ []
  at_pos g t = ap (λ k. append_at k t (gs ++ g ∷ [])) at_last ∙ append_at-last gs g t

  deal_kept :
      (g : List CToken) (t : CToken) (ts : List CToken) (n m : ℕ)
      → inner_after t.kind n ≡ some m
      → Stays d eager max pos t
      → deal d eager max pos n (gs ++ g ∷ []) (t ∷ ts)
        ≡ deal d eager max pos m (gs ++ (g ++ t ∷ []) ∷ []) ts
  unfolding deal
  deal_kept g t ts n m e h = elim (Bool-cases (is_delim d t)) [
    | inl yes_d ↦
        rw (e, deal)
          (rw yes_d (elim (Bool-cases (eager && ltb max (suc pos))) [
            | inl o ↦ rw o (ap (λ l. deal d eager max pos m l ts) (at_pos g t))
            | inr o ↦ absurd (ground arith)
          ]))
    | inr no_d ↦ rw (e, deal) (rw no_d (ap (λ l. deal d eager max pos m l ts) (at_pos g t)))
  ]

  pub deal-Balanced :
      {ts : List CToken} (g rest : List CToken) (n : ℕ)
      → Balanced ts
      → All (Stays d eager max pos) ts
      → deal d eager max pos n (gs ++ g ∷ []) (ts ++ rest)
        ≡ deal d eager max pos n (gs ++ (g ++ ts) ∷ []) rest
  deal-Balanced g rest n done h =
      ap (λ l. deal d eager max pos n (gs ++ l ∷ []) rest) (sym (append-nil g))
  deal-Balanced g rest n (plain {t} {ts} p b) h =
      deal_kept g t (ts ++ rest) n n (inner_after-plain t.kind n p) h.0
      ∙ deal-Balanced (g ++ t ∷ []) rest n b h.1
      ∙ ap (λ l. deal d eager max pos n (gs ++ l ∷ []) rest) (append_assoc g (t ∷ []) ts)
  deal-Balanced g rest n (nest o c body ts ko kc p b b') h =
      let (hb, hc, ht) = All-parts body c ts h.1 in
      deal_kept g o ((body ++ (c ∷ ts)) ++ rest) n (suc n) (rw ko) h.0
      ∙ ap (deal d eager max pos (suc n) (gs ++ (g ++ o ∷ []) ∷ []))
          (append_assoc body (c ∷ ts) rest)
      ∙ deal-Balanced (g ++ o ∷ []) (c ∷ (ts ++ rest)) (suc n) b hb
      ∙ deal_kept ((g ++ o ∷ []) ++ body) c (ts ++ rest) (suc n) n (rw kc) hc
      ∙ deal-Balanced (((g ++ o ∷ []) ++ body) ++ c ∷ []) rest n b' ht
      ∙ ap (λ l. deal d eager max pos n (gs ++ l ∷ []) rest) (simp append_assoc)
    where
      All-parts :
          (xs : List CToken) (y : CToken) (ys : List CToken)
          → All (Stays d eager max pos) (xs ++ (y ∷ ys))
          → All (Stays d eager max pos) xs
            × Stays d eager max pos y
            × All (Stays d eager max pos) ys
      All-parts [] y ys h = (tt, h.0, h.1)
      All-parts (x ∷ xs) y ys h = let (p, q, r) = All-parts xs y ys h.1 in ((h.0, p), q, r)

-- An argument, and the delimiter behind it.
pub record Arg : Type 0 where
  pub tokens : List CToken
  pub delimiter : CToken

abbrev pub arg_row : List Arg → List CToken → List CToken
arg_row [] last = last
arg_row (a ∷ as') last = a.tokens ++ (a.delimiter ∷ arg_row as' last)

-- Paired delimiters, and the argument delimiter at no depth.
pub record IsArg (d : Option Text) (a : Arg) : Type 0 where
  pub balanced : Balanced a.tokens
  pub apart : All (λ t. is_delim d t ≡ false) a.tokens
  pub delimited : is_delim d a.delimiter ≡ true

pub All-Stays :
    (d : Option Text) (eager : Bool) (max pos : ℕ) (ts : List CToken)
    → All (λ t. is_delim d t ≡ false) ts
    → All (Stays d eager max pos) ts
All-Stays d eager max pos [] h = tt
All-Stays d eager max pos (t ∷ ts) h = (rw h.0 refl, All-Stays d eager max pos ts h.1)

delim_plain :
    (d : Option Text) (t : CToken) (n : ℕ) → is_delim d t ≡ true → inner_after t.kind n ≡ some n
delim_plain d t n h = ground arith

not_over : (max pos : ℕ) → pos < max → ltb max (suc pos) ≡ false
not_over max pos lt = ground arith

deal_delim :
    (d : Option Text) (eager : Bool) (max pos : ℕ) (gs : Groups) (t : CToken) (ts : List CToken)
    → is_delim d t ≡ true
    → pos < max
    → deal d eager max pos 0 gs (t ∷ ts) ≡ deal d eager max (suc pos) 0 (gs ++ [] ∷ []) ts
unfolding deal
deal_delim d true max pos gs t ts h lt =
    rw (delim_plain d t 0 h, deal) (rw h (rw (not_over max pos lt) (rw (not_over max pos lt))))
deal_delim d false max pos gs t ts h lt =
    rw (delim_plain d t 0 h, deal) (rw h (rw (not_over max pos lt)))

deal_end :
    (d : Option Text) (eager : Bool) (max pos : ℕ) (gs : Groups) (t : CToken) (ts : List CToken)
    → t.kind ≡ end
    → deal d eager max pos 0 gs (t ∷ ts) ≡ gs
unfolding deal
deal_end d eager max pos gs t ts e = rw (e, deal)

-- The groups of a row of arguments up to the delimiter that closes it.
pub deal_args :
    (d : Option Text) (eager : Bool) (max pos : ℕ) (gs : Groups) (args : List Arg)
    (last : List CToken) (close : CToken) (post : List CToken)
    → pos ≡ length gs
    → pos + length args ≤ max
    → All (IsArg d) args
    → Balanced last
    → All (Stays d eager max (pos + length args)) last
    → close.kind ≡ end
    → deal d eager max pos 0 (gs ++ [] ∷ []) (arg_row args last ++ (close ∷ post))
      ≡ gs ++ (map (λ a. a.tokens) args ++ last ∷ [])
deal_args d eager max pos gs [] last close post e le h b s k =
    let stays : All (Stays d eager max pos) last =
      subst (λ p. All (Stays d eager max p) last) (omega arith) s in
    deal-Balanced d eager max pos gs e [] (close ∷ post) 0 b stays
    ∙ deal_end d eager max pos (gs ++ last ∷ []) close post k
deal_args d eager max pos gs (a ∷ args) last close post e le h b s k =
    let stays : All (Stays d eager max (suc pos + length args)) last =
      subst (λ p. All (Stays d eager max p) last) (omega arith) s in
    let later = arg_row args last ++ (close ∷ post) in
    ap (deal d eager max pos 0 (gs ++ [] ∷ []))
      (append_assoc a.tokens (a.delimiter ∷ arg_row args last) (close ∷ post))
    ∙ deal-Balanced d eager max pos gs e [] (a.delimiter ∷ later) 0 h.0.balanced
        (All-Stays d eager max pos a.tokens h.0.apart)
    ∙ deal_delim d eager max pos (gs ++ a.tokens ∷ []) a.delimiter later h.0.delimited (omega arith)
    ∙ deal_args d eager max (suc pos) (gs ++ a.tokens ∷ []) args last close post
        (omega (arith, length-append gs (a.tokens ∷ []))) (omega arith) h.1 b stays k
    ∙ append_assoc gs (a.tokens ∷ []) (map (λ x. x.tokens) args ++ last ∷ [])
