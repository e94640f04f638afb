-- ===== src/CLex/Match/Replaced.antt =====
-- `sub` on a token list in which every call is paired.
use pi_ghost.Base.{
  ℕ, zero, suc, ◌+◌, ◌-◌, ◌≡◌, refl, sym, ap, ◌∙◌, Bool, true, false, Option, none, some, List, [],
  ◌∷◌, ◌++◌, arith, All, length, append_assoc, length-append, take, drop, take-append, drop-append,
  Text,
}
use pi_ghost.CLex.Token.{Level, CToken}
use pi_ghost.CLex.Raised.{Result, ok, ◌>>=◌}
use pi_ghost.CLex.Refs.{CTokenArgs, token_args}
use pi_ghost.CLex.Args.{arg_tokens}
use pi_ghost.CLex.Match.{
  CMatch, names, Spans, search_from, search_spans, slice, fewer, replace_spans, limit_of,
  sub_tokens,
}
use pi_ghost.CLex.Match.Calls.{waiting, Call, IsCall, args_of, call_tokens, search_waiting}
use pi_ghost.CLex.Match.Found.{call_end, then_spans, search_call, search_none}

-- A call, and the tokens before it.
pub record Segment : Type 0 where
  pub before : List CToken
  pub call : Call

abbrev pub joined : List Segment → List CToken → List CToken
joined [] tail = tail
joined (g ∷ gs) tail = g.before ++ (call_tokens g.call ++ joined gs tail)

abbrev pub IsSegment : CMatch → Segment → Type 0
IsSegment c g = All (λ t. names c t ≡ false) g.before × IsCall c g.call

-- Where the calls stand, from the index `i` on.
abbrev pub spans_of : ℕ → List Segment → Spans
spans_of i [] = []
spans_of i (g ∷ gs) =
    let from = i + length g.before in
    let to = call_end from g.call in (from, to) ∷ spans_of (to + 1) gs

pub search-segments :
    (c : CMatch) (gs : List Segment) (tail : List CToken) (i : ℕ) (b : Bool) (st : List (ℕ × Level))
    → All (IsSegment c) gs
    → All (λ t. names c t ≡ false) tail
    → search_from c i (waiting b st) (joined gs tail) ≡ ok (spans_of i gs)
search-segments c [] tail i b st h ht = search_none c tail i b st ht
search-segments c (g ∷ gs) tail i b st h ht =
    let from = i + length g.before in
    let to = call_end from g.call in
    search_waiting c g.before (call_tokens g.call ++ joined gs tail) i b st h.0.0
    ∙ search_call c g.call (joined gs tail) from b st h.0.1
    ∙ ap (λ n. then_spans (from, to) (search_from c n (waiting true st) (joined gs tail)))
        (omega arith)
    ∙ ap (then_spans (from, to)) (search-segments c gs tail (to + 1) true st h.1 ht)

-- The list with each call replaced by what the arguments make of it, at most `left` of them.
abbrev pub expanded : CTokenArgs → Option ℕ → List Segment → List CToken → Result (List CToken)
expanded a left [] tail = ok tail
expanded a (some zero) gs tail = ok (joined gs tail)
expanded a left (g ∷ gs) tail = do
  new ← arg_tokens a (call_tokens g.call)
  rest ← expanded a (fewer left) gs tail
  ok (g.before ++ (new ++ rest))

length-call_tokens : (i : ℕ) (k : Call) → i + length (call_tokens k) ≡ call_end i k + 1
length-call_tokens i k =
    omega (arith, length-append k.spaces (args_of k), length-append k.body (k.closer ∷ []))

drop-done : (done ts : List CToken) (pos : ℕ) → pos ≡ length done → drop pos (done ++ ts) ≡ ts
drop-done done ts pos e = rw e (drop-append done ts)

slice-done :
    (done ts rest : List CToken) (from to : ℕ)
    → from ≡ length done
    → to ≡ from + length ts
    → slice from to (done ++ (ts ++ rest)) ≡ ts
slice-done done ts rest from to e f =
    ap (take (to - from)) (drop-done done (ts ++ rest) from e)
    ∙ ap (λ n. take n (ts ++ rest)) (omega arith)
    ∙ take-append ts rest

abbrev replaced_by :
    Result (List CToken) → Result (List CToken) → List CToken → Result (List CToken)
replaced_by new rest before = new >>= λ n. rest >>= λ r. ok (before ++ (n ++ r))

-- What one round of the loop reads of the list, and where the next one begins.
round_eq :
    (a : CTokenArgs) (g : Segment) (gs : List Segment) (done tail : List CToken) (pos : ℕ)
    (rest : List CToken → Result (List CToken)) (rest' : Result (List CToken))
    → pos ≡ length done
    → rest ((done ++ (g.before ++ call_tokens g.call)) ++ joined gs tail) ≡ rest'
    → let whole = done ++ joined (g ∷ gs) tail in
      let from = pos + length g.before in
      replaced_by
        (arg_tokens a (slice from (call_end from g.call + 1) whole))
        (rest whole)
        (slice pos from whole)
      ≡ replaced_by (arg_tokens a (call_tokens g.call)) rest' g.before
round_eq a g gs done tail pos rest rest' e h =
    let whole = done ++ joined (g ∷ gs) tail in
    let from = pos + length g.before in
    let to = call_end from g.call + 1 in
    let later = call_tokens g.call ++ joined gs tail in
    let regroup = sym (append_assoc done g.before later) in
    let new =
      ap (slice from to) regroup
      ∙ slice-done (done ++ g.before) (call_tokens g.call) (joined gs tail) from to
          (omega (arith, length-append done g.before)) (sym (length-call_tokens from g.call)) in
    let all =
      ap (λ ts. done ++ ts) (sym (append_assoc g.before (call_tokens g.call) (joined gs tail)))
      ∙ sym (append_assoc done (g.before ++ call_tokens g.call) (joined gs tail)) in
    let before = slice-done done g.before later pos from e refl in
    ap (λ ts. replaced_by (arg_tokens a ts) (rest whole) (slice pos from whole)) new
    ∙ ap (λ r. replaced_by (arg_tokens a (call_tokens g.call)) r (slice pos from whole))
        (ap rest all ∙ h)
    ∙ ap (replaced_by (arg_tokens a (call_tokens g.call)) rest') before

done_length :
    (done : List CToken) (g : Segment) (pos : ℕ)
    → pos ≡ length done
    → call_end (pos + length g.before) g.call + 1
      ≡ length (done ++ (g.before ++ call_tokens g.call))
done_length done g pos e = omega (
  arith,
  length-call_tokens (pos + length g.before) g.call,
  length-append done (g.before ++ call_tokens g.call),
  length-append g.before (call_tokens g.call),
)

pub replace-segments :
    (a : CTokenArgs) (left : Option ℕ) (gs : List Segment) (done tail : List CToken) (pos : ℕ)
    → pos ≡ length done
    → replace_spans a (done ++ joined gs tail) left pos (spans_of pos gs) ≡ expanded a left gs tail
unfolding replace_spans
replace-segments a left [] done tail pos e = ap ok (drop-done done tail pos e)
replace-segments a (some zero) (g ∷ gs) done tail pos e =
    ap ok (drop-done done (joined (g ∷ gs) tail) pos e)
replace-segments a none (g ∷ gs) done tail pos e =
    let next = call_end (pos + length g.before) g.call + 1 in
    round_eq a g gs done tail pos (λ ts. replace_spans a ts (fewer none) next (spans_of next gs)) _
      e
      (replace-segments a none gs (done ++ (g.before ++ call_tokens g.call)) tail next
        (done_length done g pos e))
replace-segments a (some (suc n)) (g ∷ gs) done tail pos e =
    let next = call_end (pos + length g.before) g.call + 1 in
    round_eq a g gs done tail pos
      (λ ts. replace_spans a ts (fewer (some (suc n))) next (spans_of next gs)) _ e
      (replace-segments a (fewer (some (suc n))) gs (done ++ (g.before ++ call_tokens g.call)) tail
        next (done_length done g pos e))

-- For a template that `CTokenArgs` takes, and tokens whose names that are looked for all begin paired
-- calls: `sub` replaces these calls, `count` of them if it is not 0, and leaves every other token as
-- it is.
pub sub_tokens-segments :
    (c : CMatch) (sub_str : Text) (a : CTokenArgs) (gs : List Segment) (tail : List CToken)
    (count : ℕ)
    → token_args sub_str ≡ ok a
    → All (IsSegment c) gs
    → All (λ t. names c t ≡ false) tail
    → sub_tokens c sub_str (joined gs tail) count ≡ expanded a (limit_of count) gs tail
unfolding sub_tokens search_spans
sub_tokens-segments c sub_str a gs tail count e h ht = rw e (
    rw (search-segments c gs tail 0 false [] h ht)
      (replace-segments a (limit_of count) gs [] tail 0 refl))
