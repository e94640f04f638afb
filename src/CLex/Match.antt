-- ===== src/CLex/Match.antt =====
-- `CMatch`: calls of a macro in a token list, found and replaced.
pub mod Calls
pub mod Found
pub mod Replaced
pub mod Deleted
pub mod Total
pub mod Loose
use pi_ghost.Base.{
  ℕ, zero, suc, ◌+◌, ◌-◌, Bool, true, false, not, ◌&&◌, Option, none, some, List, [], ◌∷◌, ◌++◌,
  ◌==◌, ltb, if◌then◌else◌, Text, text_eq, take, drop, length,
}
use pi_ghost.Regex.{Rx, start, edge, row}
use pi_ghost.Regex.Class.{is_word}
use pi_ghost.Regex.Search.{match_at}
use pi_ghost.CLex.Token.{Kind, begin, end, name, space, Level, level_eq, CToken}
use pi_ghost.CLex.Raised.{Result, ok, raised, ◌>>=◌, index_error}
use pi_ghost.CLex.Render.{render}
use pi_ghost.CLex.Tokenizer.{tokenize}
use pi_ghost.CLex.Refs.{CTokenArgs, token_args}
use pi_ghost.CLex.Args.{arg_tokens}

-- `self.regex` and `self.start_delim`.
pub record CMatch : Type 0 where
  pub regex : Rx
  pub start_delim : Text

-- `__init__`: `"^" + regex + r"\b"`, for a regex with no bar outside its groups.
abbrev pub cmatch : Rx → Text → CMatch
cmatch x delim = record { regex = row start (x ∷ edge ∷ []); start_delim = delim }

abbrev is_some {ℓ} : {A : Type ℓ} → Option A → Bool
is_some none = false
is_some (some a) = true

-- `tok.kind == CToken.NAME and self.regex.match(tok.value)`
unfoldable pub names : CMatch → CToken → Bool
unfolding match_at is_word
names c t = elim t.kind [ name ↦ is_some (match_at c.regex t.value) | _ ↦ false ]

-- `tok.kind == CToken.BEGIN and tok.value == self.start_delim`
unfoldable pub begins : CMatch → CToken → Bool
begins c t = elim t.kind [ begin ↦ text_eq t.value c.start_delim | _ ↦ false ]

abbrev pub is_space_token : CToken → Bool
is_space_token t = elim t.kind [ space ↦ true | _ ↦ false ]

-- `tok.kind == CToken.END and tok.level == level`
abbrev pub ends_at : Level → CToken → Bool
ends_at l t = elim t.kind [ end ↦ level_eq t.level l | _ ↦ false ]

-- The variables of the loop; the top of the stack is its first element.
pub record Scan : Type 0 where
  pub first : Option ℕ
  pub started : Bool
  pub stack : List (ℕ × Level)

abbrev pub idle : Scan
idle = record { first = none; started = false; stack = [] }

abbrev pub Spans : Type 0
Spans = List (ℕ × ℕ)

-- `if tok.kind == CToken.END and tok.level == stack[-1][1]`, at the index `i`.
unfoldable pub close_scan : ℕ → CToken → Scan → Result (Spans × Scan)
close_scan i t s = elim t.kind [
  | end ↦ elim s.stack [
    | [] ↦ raised index_error
    | (from, l) ∷ rest ↦
        if level_eq t.level l
        then ok ((from, i) ∷ [], record s { first = none; stack = rest })
        else ok ([], s)
  ]
  | _ ↦ ok ([], s)
]

-- A token behind the name, with no delimiter before it yet.
unfoldable pub unstarted : CMatch → ℕ → ℕ → CToken → Scan → Result (Spans × Scan)
unfolding begins close_scan
unstarted c from i t s =
    let i' = if ltb from i then i - 1 else i in
    let only_name = do
      (spans, s') ← close_scan i' t (record s { first = none })
      ok ((from, i') ∷ spans, s')
    in if is_space_token t
      then ok ([], s)
      else if begins c t
      then ok ([], record s { started = true })
      else only_name

-- One round of the loop of `_search`: the spans that it yields, and the variables behind it.
unfoldable pub scan_token : CMatch → ℕ → CToken → Scan → Result (Spans × Scan)
unfolding names unstarted close_scan
scan_token c i t s = elim s.first [
  | none ↦
      if names c t
      then ok ([], record { first = some i; started = false; stack = (i, t.level) ∷ s.stack })
      else ok ([], s)
  | some from ↦ if s.started then close_scan i t s else unstarted c from i t s
]

-- `if start and stack`: the index 0 counts as no start.
unfoldable pub unfinished : ℕ → Scan → Spans
unfinished n s = elim s.first [
  | some (suc from) ↦ elim s.stack [ [] ↦ [] | _ ∷ _ ↦ (suc from, n) ∷ [] ]
  | _ ↦ []
]

-- `_search` from the index `i` on.
unfoldable pub search_from : CMatch → ℕ → Scan → List CToken → Result Spans
unfolding scan_token unfinished
search_from c i s [] = ok (unfinished i s)
search_from c i s (t ∷ ts) = do
  (spans, s') ← scan_token c i t s
  more ← search_from c (suc i) s' ts
  ok (spans ++ more)

unfoldable pub search_spans : CMatch → List CToken → Result Spans
unfolding search_from
search_spans c ts = search_from c 0 idle ts

-- `ts[from:to]`
abbrev pub slice : ℕ → ℕ → List CToken → List CToken
slice from to ts = take (to - from) (drop from ts)

abbrev slices : List CToken → Spans → List (List CToken)
slices ts [] = []
slices ts ((from, to) ∷ spans) = slice from (to + 1) ts ∷ slices ts spans

-- `search`, on tokens.
unfoldable pub search : CMatch → List CToken → Result (List (List CToken))
unfolding search_spans
search c ts = do spans ← search_spans c ts; ok (slices ts spans)

abbrev pub fewer : Option ℕ → Option ℕ
fewer none = none
fewer (some n) = some (n - 1)

-- The loop of `sub` from `pos` on; `left` is how many replacements `count` still allows, without
-- a limit if it is `none`.
unfoldable pub replace_spans :
    CTokenArgs → List CToken → Option ℕ → ℕ → Spans → Result (List CToken)
unfolding arg_tokens
replace_spans a ts left pos [] = ok (drop pos ts)
replace_spans a ts (some zero) pos spans = ok (drop pos ts)
replace_spans a ts left pos ((from, to) ∷ spans) = do
  new ← arg_tokens a (slice from (to + 1) ts)
  rest ← replace_spans a ts (fewer left) (to + 1) spans
  ok (slice pos from ts ++ (new ++ rest))

-- `count`, where 0 is no limit.
abbrev pub limit_of : ℕ → Option ℕ
limit_of zero = none
limit_of (suc n) = some (suc n)

-- `sub` on tokens, and on a text.
unfoldable pub sub_tokens : CMatch → Text → List CToken → ℕ → Result (List CToken)
unfolding token_args search_spans replace_spans
sub_tokens c sub_str ts count = do
  a ← token_args sub_str
  spans ← search_spans c ts
  replace_spans a ts (limit_of count) 0 spans

unfoldable pub sub_text : CMatch → Text → Text → ℕ → Result Text
unfolding sub_tokens tokenize render
sub_text c sub_str source count = do
  ts ← sub_tokens c sub_str (tokenize source) count
  ok (render ts)
