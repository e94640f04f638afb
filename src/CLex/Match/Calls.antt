-- ===== src/CLex/Match/Calls.antt =====
-- `_search` on a call whose delimiters are paired.
use mathlib.Core.Path.{subst}
use pi_ghost.Base.{
  ℕ, suc, ◌+◌, ◌≡◌, refl, ap, ◌∙◌, Bool, true, false, none, some, List, [], ◌∷◌, ◌++◌, arith, All,
  length,
}
use pi_ghost.CLex.Token.{begin, end, Level, level_eq, CToken}
use pi_ghost.CLex.Raised.{ok, bind-ok}
use pi_ghost.CLex.Tokenizer.{open_level, level_after}
use pi_ghost.CLex.Tokenizer.Lossless.{Leveled}
use pi_ghost.CLex.Tokenizer.Levels.{
  IsPair, Balanced, AtLeast, last_level, Balanced-levels, Leveled-append, opened_level,
  closed_level,
}
use pi_ghost.CLex.Match.{
  CMatch, names, begins, is_space_token, Scan, close_scan, unstarted, scan_token, search_from,
}

-- No name is open; a name is open at the index `i`; its delimiter is open.
abbrev pub waiting : Bool → List (ℕ × Level) → Scan
waiting b st = record { first = none; started = b; stack = st }

abbrev pub seeking : ℕ → Level → List (ℕ × Level) → Scan
seeking i l st = record { first = some i; started = false; stack = (i, l) ∷ st }

abbrev pub inside : ℕ → Level → List (ℕ × Level) → Scan
inside i l st = record { first = some i; started = true; stack = (i, l) ∷ st }

-- A round that yields nothing.
pub quiet :
    (c : CMatch) (i : ℕ) (s s' : Scan) (t : CToken) (ts : List CToken)
    → scan_token c i t s ≡ ok ([], s')
    → search_from c i s (t ∷ ts) ≡ search_from c (suc i) s' ts
unfolding search_from
quiet c i s s' t ts e = rw e (bind-ok _)

pub scan_waiting :
    (c : CMatch) (i : ℕ) (b : Bool) (st : List (ℕ × Level)) (t : CToken)
    → names c t ≡ false
    → scan_token c i t (waiting b st) ≡ ok ([], waiting b st)
unfolding scan_token
scan_waiting c i b st t h = rw h

pub scan_name :
    (c : CMatch) (i : ℕ) (b : Bool) (st : List (ℕ × Level)) (t : CToken)
    → names c t ≡ true
    → scan_token c i t (waiting b st) ≡ ok ([], seeking i t.level st)
unfolding scan_token
scan_name c i b st t h = rw h

scan_space :
    (c : CMatch) (i j : ℕ) (l : Level) (st : List (ℕ × Level)) (t : CToken)
    → is_space_token t ≡ true
    → scan_token c i t (seeking j l st) ≡ ok ([], seeking j l st)
unfolding scan_token unstarted
scan_space c i j l st t h = rw h

begins-kind : (c : CMatch) (t : CToken) → begins c t ≡ true → t.kind ≡ begin
unfolding begins
begins-kind c t h = ground arith

not_space : (t : CToken) → t.kind ≡ begin → is_space_token t ≡ false
not_space t e = rw e

pub scan_begin :
    (c : CMatch) (i j : ℕ) (l : Level) (st : List (ℕ × Level)) (t : CToken)
    → begins c t ≡ true
    → scan_token c i t (seeking j l st) ≡ ok ([], inside j l st)
unfolding scan_token unstarted
scan_begin c i j l st t h = rw (not_space t (begins-kind c t h)) (rw h)

scan_inside :
    (c : CMatch) (i j : ℕ) (l : Level) (st : List (ℕ × Level)) (t : CToken)
    → level_eq t.level l ≡ false
    → scan_token c i t (inside j l st) ≡ ok ([], inside j l st)
unfolding scan_token close_scan
scan_inside c i j l st t h = ground arith

pub scan_end :
    (c : CMatch) (i j : ℕ) (l : Level) (st : List (ℕ × Level)) (t : CToken)
    → t.kind ≡ end
    → level_eq t.level l ≡ true
    → scan_token c i t (inside j l st) ≡ ok ((j, i) ∷ [], waiting true st)
unfolding scan_token close_scan
scan_end c i j l st t k h = ground arith

pub search_waiting :
    (c : CMatch) (pre ts : List CToken) (i : ℕ) (b : Bool) (st : List (ℕ × Level))
    → All (λ t. names c t ≡ false) pre
    → search_from c i (waiting b st) (pre ++ ts) ≡ search_from c (i + length pre) (waiting b st) ts
search_waiting c [] ts i b st h = ap (λ k. search_from c k (waiting b st) ts) (omega arith)
search_waiting c (t ∷ pre) ts i b st h =
    quiet c i (waiting b st) (waiting b st) t (pre ++ ts) (scan_waiting c i b st t h.0)
    ∙ search_waiting c pre ts (suc i) b st h.1
    ∙ ap (λ k. search_from c k (waiting b st) ts) (omega arith)

pub search_spaces :
    (c : CMatch) (sp ts : List CToken) (i j : ℕ) (l : Level) (st : List (ℕ × Level))
    → All (λ t. is_space_token t ≡ true) sp
    → search_from c i (seeking j l st) (sp ++ ts)
      ≡ search_from c (i + length sp) (seeking j l st) ts
search_spaces c [] ts i j l st h = ap (λ k. search_from c k (seeking j l st) ts) (omega arith)
search_spaces c (t ∷ sp) ts i j l st h =
    quiet c i (seeking j l st) (seeking j l st) t (sp ++ ts) (scan_space c i j l st t h.0)
    ∙ search_spaces c sp ts (suc i) j l st h.1
    ∙ ap (λ k. search_from c k (seeking j l st) ts) (omega arith)

pub search_body :
    (c : CMatch) (body ts : List CToken) (i j : ℕ) (l : Level) (st : List (ℕ × Level))
    → All (λ t. level_eq t.level l ≡ false) body
    → search_from c i (inside j l st) (body ++ ts)
      ≡ search_from c (i + length body) (inside j l st) ts
search_body c [] ts i j l st h = ap (λ k. search_from c k (inside j l st) ts) (omega arith)
search_body c (t ∷ body) ts i j l st h =
    quiet c i (inside j l st) (inside j l st) t (body ++ ts) (scan_inside c i j l st t h.0)
    ∙ search_body c body ts (suc i) j l st h.1
    ∙ ap (λ k. search_from c k (inside j l st) ts) (omega arith)

-- Within a delimiter no token has the level of before it.
deeper : (o : CToken) (l k : Level) → AtLeast (open_level o.value l) k → level_eq k l ≡ false
unfolding open_level
deeper o l k h = ground arith

All-deeper :
    (o : CToken) (l : Level) (ts : List CToken)
    → All (λ t. AtLeast (open_level o.value l) t.level) ts
    → All (λ t. level_eq t.level l ≡ false) ts
All-deeper o l [] h = tt
All-deeper o l (t ∷ ts) h = (deeper o l t.level h.0, All-deeper o l ts h.1)

pub level_eq_refl : (l : Level) → level_eq l l ≡ true
level_eq_refl l = ground arith

-- A name, spaces, a delimiter, a body and the delimiter that closes it.
pub record Call : Type 0 where
  pub callee : CToken
  pub spaces : List CToken
  pub opener : CToken
  pub body : List CToken
  pub closer : CToken

abbrev pub args_of : Call → List CToken
args_of k = k.opener ∷ (k.body ++ k.closer ∷ [])

abbrev pub call_tokens : Call → List CToken
call_tokens k = k.callee ∷ (k.spaces ++ args_of k)

-- The call is one that `c` looks for, its delimiters are paired, and its levels those that the
-- tokenizer gives.
pub record IsCall (c : CMatch) (k : Call) : Type 0 where
  pub named : names c k.callee ≡ true
  pub spaced : All (λ t. is_space_token t ≡ true) k.spaces
  pub opens : begins c k.opener ≡ true
  pub closes : k.closer.kind ≡ end
  pub pair : IsPair k.opener.value k.closer.value
  pub balanced : Balanced k.body
  pub leveled : Leveled k.callee.level (k.spaces ++ args_of k)

space_level :
    (t : CToken) (l : Level)
    → is_space_token t ≡ true
    → t.level ≡ level_after t.kind t.value l
    → t.level ≡ l
unfolding level_after
space_level t l h e = ground arith

spaces_level :
    (sp : List CToken) (l : Level)
    → All (λ t. is_space_token t ≡ true) sp
    → Leveled l sp
    → last_level l sp ≡ l
spaces_level [] l h e = refl
spaces_level (t ∷ sp) l h e =
    let same = space_level t l h.0 e.0 in
    ap (λ k. last_level k sp) same ∙ spaces_level sp l h.1 (subst (λ k. Leveled k sp) same e.1)

module _ (c : CMatch) (k : Call) (v : IsCall c k) where
  opener_level : k.opener.level ≡ open_level k.opener.value k.callee.level
  opener_level =
      let l = k.callee.level in
      let parts = Leveled-append k.spaces (args_of k) l v.leveled in
      opened_level k.opener l (begins-kind c k.opener v.opens) (
        parts.1.0
        ∙ ap (level_after k.opener.kind k.opener.value) (spaces_level k.spaces l v.spaced parts.0))

  body-Leveled : Leveled k.opener.level (k.body ++ k.closer ∷ [])
  body-Leveled = (Leveled-append k.spaces (args_of k) k.callee.level v.leveled).1.1

  body_levels :
      (last_level k.opener.level k.body ≡ k.opener.level)
      × All (λ t. AtLeast k.opener.level t.level) k.body
  body_levels =
      Balanced-levels k.opener.level v.balanced
        (Leveled-append k.body (k.closer ∷ []) k.opener.level body-Leveled).0

  pub closer_level : k.closer.level ≡ k.callee.level
  closer_level =
      closed_level k.opener k.closer k.callee.level (last_level k.opener.level k.body) v.closes
        v.pair (body_levels.0 ∙ opener_level)
        (Leveled-append k.body (k.closer ∷ []) k.opener.level body-Leveled).1.0

  pub body_deeper : All (λ t. level_eq t.level k.callee.level ≡ false) k.body
  body_deeper =
      All-deeper k.opener k.callee.level k.body
        (subst (λ l. All (λ t. AtLeast l t.level) k.body) opener_level body_levels.1)
