-- ===== src/CLex/Match/Found.antt =====
-- A paired call is found whole, and the search goes on behind it.
use pi_ghost.Base.{
  ℕ, suc, ◌+◌, ◌≡◌, refl, ap, ◌∙◌, Bool, true, false, List, [], ◌∷◌, ◌++◌, arith, All, length,
  append_assoc,
}
use pi_ghost.CLex.Token.{end, Level, level_eq, CToken}
use pi_ghost.CLex.Raised.{Result, ok, ◌>>=◌}
use pi_ghost.CLex.Match.{CMatch, names, Spans, search_from, search_spans, unfinished}
use pi_ghost.CLex.Match.Calls.{
  waiting, seeking, inside, quiet, scan_name, search_spaces, search_body, scan_begin, scan_end,
  scan_waiting, level_eq_refl, Call, IsCall, args_of, call_tokens, closer_level, body_deeper,
  search_waiting,
}

-- The spans of `ts` from the index `i` on, behind one that is already known.
abbrev pub then_spans : ℕ × ℕ → Result Spans → Result Spans
then_spans span r = r >>= λ more. ok (span ∷ more)

search_closer :
    (c : CMatch) (t : CToken) (post : List CToken) (i j : ℕ) (l : Level) (st : List (ℕ × Level))
    → t.kind ≡ end
    → level_eq t.level l ≡ true
    → search_from c i (inside j l st) (t ∷ post)
      ≡ then_spans (j, i) (search_from c (suc i) (waiting true st) post)
unfolding search_from
search_closer c t post i j l st k h = rw (scan_end c i j l st t k h)

-- The index of the closing delimiter of a call that begins at `i`.
abbrev pub call_end : ℕ → Call → ℕ
call_end i k = i + length k.spaces + length k.body + 2

-- From a state with no open name, at the first token of a call.
pub search_call :
    (c : CMatch) (k : Call) (post : List CToken) (i : ℕ) (b : Bool) (st : List (ℕ × Level))
    → IsCall c k
    → search_from c i (waiting b st) (call_tokens k ++ post)
      ≡ then_spans (i, call_end i k) (search_from c (suc (call_end i k)) (waiting true st) post)
search_call c k post i b st v =
    let l = k.callee.level in
    let at_sp = suc i + length k.spaces in
    let at_body = suc at_sp + length k.body in
    quiet c i (waiting b st) (seeking i l st) k.callee _ (scan_name c i b st k.callee v.named)
    ∙ ap (search_from c (suc i) (seeking i l st)) (append_assoc k.spaces (args_of k) post)
    ∙ search_spaces c k.spaces (args_of k ++ post) (suc i) i l st v.spaced
    ∙ quiet c at_sp (seeking i l st) (inside i l st) k.opener _
        (scan_begin c at_sp i l st k.opener v.opens)
    ∙ ap (search_from c (suc at_sp) (inside i l st)) (append_assoc k.body (k.closer ∷ []) post)
    ∙ search_body c k.body (k.closer ∷ post) (suc at_sp) i l st (body_deeper c k v)
    ∙ search_closer c k.closer post at_body i l st v.closes
        (rw (closer_level c k v) (level_eq_refl l))
    ∙ ap (λ n. then_spans (i, n) (search_from c (suc n) (waiting true st) post)) (omega arith)

-- `_search` yields a paired call from its name to its closing delimiter, whatever stands before it
-- without a name that is looked for, and goes on behind it.
pub search_spans-call :
    (c : CMatch) (k : Call) (pre post : List CToken)
    → All (λ t. names c t ≡ false) pre
    → IsCall c k
    → search_spans c (pre ++ (call_tokens k ++ post))
      ≡ then_spans
          (length pre, call_end (length pre) k)
          (search_from c (suc (call_end (length pre) k)) (waiting true []) post)
unfolding search_spans
search_spans-call c k pre post h v =
    search_waiting c pre (call_tokens k ++ post) 0 false [] h
    ∙ ap (λ i. search_from c i (waiting false []) (call_tokens k ++ post)) (omega arith)
    ∙ search_call c k post (length pre) false [] v

-- Without a name that is looked for there is nothing to find.
pub search_none :
    (c : CMatch) (ts : List CToken) (i : ℕ) (b : Bool) (st : List (ℕ × Level))
    → All (λ t. names c t ≡ false) ts
    → search_from c i (waiting b st) ts ≡ ok []
unfolding search_from unfinished
search_none c [] i b st h = refl
search_none c (t ∷ ts) i b st h =
    quiet c i (waiting b st) (waiting b st) t ts (scan_waiting c i b st t h.0)
    ∙ search_none c ts (suc i) b st h.1
