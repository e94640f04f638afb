-- ===== src/CLex/Args.antt =====
-- `CTokenArgs`. Its `log.error` of a short argument list is not part of the model.
pub mod Dealt
pub mod Whole
pub mod Filled
pub mod Substituted
use pi_ghost.Base.{
  ℕ, zero, suc, ◌+◌, ◌-◌, ◌*◌, Bool, true, false, not, ◌&&◌, ◌||◌, Option, none, some, List, [],
  ◌∷◌, ◌++◌, ◌==◌, ltb, if◌then◌else◌, Text, codes, text_eq, map,
}
use pi_ghost.Regex.{Rx, Match, one, seq, group, plus, opt, row, lit}
use pi_ghost.Regex.Class.{is_digit, is_among}
use pi_ghost.Regex.Search.{finditer, sub, group_of}
use pi_ghost.CLex.Token.{
  Kind, begin, end, punc, endstmt, backref, Level, ground_level, add_level, CToken,
}
use pi_ghost.CLex.Tokenizer.{tokenize}
use pi_ghost.CLex.Raised.{
  Result, ok, raised, ◌>>=◌, multiple_greedy, greedy_not_last, attribute_error, unbound_local,
  item_at,
}
use pi_ghost.CLex.Refs.{CTokenArgs, token_args, to_int, max_of}

-- The loop that fills `\0`; `inner` is `inner_level`, which ends the loop below 0.
unfoldable pub whole_group : List CToken → ℕ → List CToken → List CToken
whole_group found inner [] = found
whole_group found inner (t ∷ ts) =
    let opened = whole_group (found ++ t ∷ []) (suc inner) ts in
    let skipped = whole_group found (suc inner) ts in
    let closed = whole_group found zero ts in
    let inside = λ (k : ℕ). whole_group (found ++ t ∷ []) (suc k) ts in
    let other = whole_group (if inner == 0 then found else found ++ t ∷ []) inner ts in
    elim t.kind [
      | begin ↦ elim found [ [] ↦ skipped | _ ∷ _ ↦ opened ]
      | end ↦ elim inner [ zero ↦ found | suc k ↦ elim k [ zero ↦ closed | suc j ↦ inside j ] ]
      | _ ↦ other
    ]

-- What the first BEGIN says: the delimiter of the arguments, its level, and the tokens behind it.
pub record Opening : Type 0 where
  pub delim : Option Text
  pub level : Level
  pub behind : List CToken

-- The delimiter for `{` and `(`. For `[` the code means to log an error through `self.log`, which
-- the class does not have.
unfoldable pub delim_of : Text → Result Text
delim_of w =
    if text_eq w (codes "{")
    then ok (codes ";")
    else if text_eq w (codes "(")
    then ok (codes ",")
    else raised attribute_error

-- The loop that looks for the first BEGIN. Without one nothing is left to read, and on no token
-- at all its index is unbound.
unfoldable pub find_behind : List CToken → Result Opening
unfolding delim_of
find_behind [] = ok (record { delim = none; level = ground_level; behind = [] })
find_behind (t ∷ ts) =
    let later = find_behind ts in
    elim t.kind [
      | begin ↦ do
        d ← delim_of t.value
        ok (record { delim = some d; level = t.level; behind = ts })
      | _ ↦ later
    ]

unfoldable pub find_opening : List CToken → Result Opening
unfolding find_behind
find_opening [] = raised unbound_local
find_opening (t ∷ ts) = find_behind (t ∷ ts)

-- `groups_list[pos].append(tok)`; `pos` is always an index of the list.
abbrev pub append_at : ℕ → CToken → List (List CToken) → List (List CToken)
append_at pos t [] = []
append_at zero t (g ∷ gs) = (g ++ t ∷ []) ∷ gs
append_at (suc pos) t (g ∷ gs) = g ∷ append_at pos t gs

-- `tok.kind in [CToken.PUNC, CToken.ENDSTMT] and delim == tok.value`
abbrev pub is_delim : Option Text → CToken → Bool
is_delim none t = false
is_delim (some d) t = elim t.kind [
  | punc ↦ text_eq d t.value
  | endstmt ↦ text_eq d t.value
  | _ ↦ false
]

-- `inner_level` behind a token; `none` where the loop breaks.
abbrev pub inner_after : Kind → ℕ → Option ℕ
inner_after begin n = some (suc n)
inner_after end zero = none
inner_after end (suc n) = some n
inner_after _ n = some n

abbrev pub is_greedy : Option ℕ → Bool
is_greedy (some (suc g)) = true
is_greedy _ = false

-- The loop that deals the tokens to the groups.
unfoldable pub deal :
    Option Text → Bool → ℕ → ℕ → ℕ → List (List CToken) → List CToken → List (List CToken)
deal delim eager max pos inner gs [] = gs
deal delim eager max pos inner gs (t ∷ ts) =
    let over = ltb max (suc pos) in
    let kept = λ (n : ℕ). deal delim eager max pos n (append_at pos t gs) ts in
    let next = λ (n : ℕ). deal delim eager max (suc pos) n (gs ++ [] ∷ []) ts in
    elim (inner_after t.kind inner) [
      | none ↦ gs
      | some n ↦ elim (is_delim delim t) [
        | false ↦ kept n
        | true ↦ elim (eager && over) [
          | true ↦ kept n
          | false ↦ elim over [ true ↦ gs ++ [] ∷ [] | false ↦ next n ]
        ]
      ]
    ]

abbrev pub mem_zero : List ℕ → Bool
mem_zero [] = false
mem_zero (n ∷ ns) = n == 0 || mem_zero ns

-- `groups`
unfoldable pub groups : CTokenArgs → List CToken → Result (Level × List (List CToken))
unfolding whole_group find_opening deal
groups a ts = elim a.max_group [
  | none ↦ ok (ground_level, [])
  | some max ↦
      let whole = if mem_zero a.sub_groups then whole_group [] 0 ts else [] in
      elim max [
        | zero ↦ ok (ground_level, whole ∷ [])
        | suc m ↦ do
          o ← find_opening ts
          ok (o.level, deal o.delim (is_greedy a.greedy) (suc m) 1 0 (whole ∷ [] ∷ []) o.behind)
      ]
]

abbrev pub raise_levels : Level → List CToken → List CToken
raise_levels l [] = []
raise_levels l (t ∷ ts) = record t { level = add_level t.level l } ∷ raise_levels l ts

abbrev pub without_backslash : Text → Text
without_backslash [] = []
without_backslash (c ∷ w) = w

-- A reference becomes the tokens of its group.
unfoldable pub fill_token : Level → List (List CToken) → CToken → Result (List CToken)
unfolding to_int
fill_token l gs t = elim t.kind [
  | backref ↦ do g ← item_at gs (to_int (without_backslash t.value)); ok (raise_levels l g)
  | _ ↦ ok (t ∷ [])
]

-- The loop of `tokens`.
unfoldable pub fill_in : Level → List (List CToken) → List CToken → Result (List CToken)
unfolding fill_token
fill_in l gs [] = ok []
fill_in l gs (t ∷ ts) = do new ← fill_token l gs t; rest ← fill_in l gs ts; ok (new ++ rest)

-- `tokens`
unfoldable pub arg_tokens : CTokenArgs → List CToken → Result (List CToken)
unfolding groups fill_in
arg_tokens a ts = do (l, gs) ← groups a ts; fill_in l gs a.sub_tokens
