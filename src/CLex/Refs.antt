-- ===== src/CLex/Refs.antt =====
-- The references of a template: `CTokenArgs.__init__`.
use pi_ghost.Base.{
  ℕ, zero, suc, ◌+◌, ◌-◌, ◌*◌, Bool, false, not, ◌&&◌, Option, none, some, List, [], ◌∷◌, ◌==◌, ltb,
  if◌then◌else◌, Text, codes, text_eq,
}
use pi_ghost.Regex.{Rx, Match, one, seq, group, plus, opt, row, lit}
use pi_ghost.Regex.Class.{is_digit, is_among}
use pi_ghost.Regex.Search.{finditer, sub, group_of}
use pi_ghost.CLex.Token.{CToken}
use pi_ghost.CLex.Tokenizer.{tokenize}
use pi_ghost.CLex.Raised.{Result, ok, raised, ◌>>=◌, multiple_greedy, greedy_not_last}

-- `\\(\d+)([+]?)` and `(\\\d+)[+]`
abbrev ref_rx : Rx
ref_rx = row (lit (codes "\\")) (
    group (codes "1") (plus (one is_digit))
    ∷ group (codes "2") (opt (one (is_among (codes "+"))))
    ∷ [])

abbrev plus_rx : Rx
plus_rx =
    seq (group (codes "1") (seq (lit (codes "\\")) (plus (one is_digit))))
      (one (is_among (codes "+")))

-- `int(s)` of a text of digits.
int_from : ℕ → Text → ℕ
int_from n [] = n
int_from n (c ∷ w) = int_from (10 * n + (c - b'0')) w

unfoldable pub to_int : Text → ℕ
unfolding int_from
to_int w = int_from 0 w

-- The attributes; `none` is the -1 of `max_group` and the None of `greedy`.
pub record CTokenArgs : Type 0 where
  pub sub_groups : List ℕ
  pub max_group : Option ℕ
  pub greedy : Option ℕ
  pub sub_tokens : List CToken

abbrev pub max_of : Option ℕ → ℕ → ℕ
max_of none n = n
max_of (some m) n = if ltb m n then n else m

-- `self.greedy and self.greedy != group`: 0 counts as no greedy group.
abbrev other_greedy : Option ℕ → ℕ → Bool
other_greedy (some (suc g)) n = not (suc g == n)
other_greedy _ n = false

-- One round of the loop over the references, with its number and whether a "+" follows it.
unfoldable pub add_ref : CTokenArgs → ℕ → Bool → Result CTokenArgs
add_ref a n starred =
    if starred && other_greedy a.greedy n
    then raised multiple_greedy
    else ok (record a {
      sub_groups = n ∷ a.sub_groups;
      max_group = some (max_of a.max_group n);
      greedy = if starred then some n else a.greedy;
    })

unfoldable pub add_refs : CTokenArgs → List (ℕ × Match) → Result CTokenArgs
unfolding add_ref to_int group_of
add_refs a [] = ok a
add_refs a ((start, m) ∷ ms) = do
  a' ← add_ref a (to_int (group_of (codes "1") m)) (text_eq (group_of (codes "2") m) (codes "+"))
  add_refs a' ms

abbrev no_refs : CTokenArgs
no_refs = record { sub_groups = []; max_group = none; greedy = none; sub_tokens = [] }

-- `sub_str` without the "+" of the greedy group, which must be the last one.
unfoldable pub checked_sub_str : CTokenArgs → Text → Result Text
unfolding sub is_digit is_among group_of
checked_sub_str a sub_str = elim a.greedy [
  | none ↦ ok sub_str
  | some g ↦ elim g [
    | zero ↦ ok sub_str
    | suc g' ↦
        if max_of a.max_group 0 == suc g'
        then ok (sub plus_rx (λ m. group_of (codes "1") m) sub_str)
        else raised greedy_not_last
  ]
]

-- `__init__`
unfoldable pub token_args : Text → Result CTokenArgs
unfolding add_refs checked_sub_str finditer tokenize is_digit is_among
token_args sub_str = do
  a ← add_refs no_refs (finditer ref_rx sub_str)
  w ← checked_sub_str a sub_str
  ok (record a { sub_tokens = tokenize w })
