-- ===== src/CLex/Match/Loose.antt =====
-- `_search` on names that no paired delimiters follow.
use pi_ghost.Base.{
  ℕ, zero, suc, ◌+◌, ◌-◌, ◌<◌, ◌≡◌, ◌≢◌, refl, sym, ap, ◌∙◌, Bool, true, false, List, [], ◌∷◌, ◌++◌,
  arith, All, length, length-append, append-nil, if◌then◌else◌, ◌==◌, ltb,
}
use pi_ghost.CLex.Token.{end, Level, level_eq, CToken}
use pi_ghost.CLex.Raised.{ok, bind_assoc}
use pi_ghost.CLex.Match.{
  CMatch, names, begins, is_space_token, Scan, close_scan, unstarted, scan_token, unfinished,
  search_from, search_spans,
}
use pi_ghost.CLex.Match.Calls.{
  waiting, seeking, inside, quiet, scan_name, search_spaces, search_body, scan_begin,
  search_waiting,
}
use pi_ghost.CLex.Match.Found.{then_spans}

back : (j i : ℕ) → j < i → (if ltb j i then i - 1 else i) ≡ i - 1
back j i lt = ground arith

close_other : (i : ℕ) (t : CToken) (s : Scan) → t.kind ≢ end → close_scan i t s ≡ ok ([], s)
unfolding close_scan
close_other i t s e = ground arith

close_here :
    (i j : ℕ) (l : Level) (b : Bool) (st : List (ℕ × Level)) (t : CToken)
    → t.kind ≡ end
    → level_eq t.level l ≡ true
    → close_scan i t (waiting b ((j, l) ∷ st)) ≡ ok ((j, i) ∷ [], waiting b st)
unfolding close_scan
close_here i j l b st t k e = ground arith

end-not-space : (t : CToken) → t.kind ≡ end → is_space_token t ≡ false
end-not-space t e = rw e

-- A name and spaces, and then a token that is neither a space nor the delimiter.
scan_loose :
    (c : CMatch) (i j : ℕ) (l : Level) (st : List (ℕ × Level)) (t : CToken)
    → j < i
    → is_space_token t ≡ false
    → begins c t ≡ false
    → t.kind ≢ end
    → scan_token c i t (seeking j l st) ≡ ok ((j, i - 1) ∷ [], waiting false ((j, l) ∷ st))
unfolding scan_token unstarted
scan_loose c i j l st t lt sp b e =
    rw sp (rw b (rw (back j i lt) (rw (close_other (i - 1) t (waiting false ((j, l) ∷ st)) e))))

scan_stray :
    (c : CMatch) (i j : ℕ) (l : Level) (st : List (ℕ × Level)) (t : CToken)
    → j < i
    → begins c t ≡ false
    → t.kind ≡ end
    → level_eq t.level l ≡ true
    → scan_token c i t (seeking j l st) ≡ ok ((j, i - 1) ∷ (j, i - 1) ∷ [], waiting false st)
unfolding scan_token unstarted
scan_stray c i j l st t lt b e le =
    rw (end-not-space t e) (rw b (rw (back j i lt) (rw (close_here (i - 1) j l false st t e le))))

search_name :
    (c : CMatch) (pre rest : List CToken) (n : CToken)
    → All (λ t. names c t ≡ false) pre
    → names c n ≡ true
    → search_from c 0 (waiting false []) (pre ++ (n ∷ rest))
      ≡ search_from c (suc (length pre)) (seeking (length pre) n.level []) rest
search_name c pre rest n h hn =
    let i = length pre in
    search_waiting c pre (n ∷ rest) 0 false [] h
    ∙ ap (λ k. search_from c k (waiting false []) (n ∷ rest)) (omega arith)
    ∙ quiet c i (waiting false []) (seeking i n.level []) n rest (scan_name c i false [] n hn)

round_one :
    (c : CMatch) (i : ℕ) (t : CToken) (s s' : Scan) (span : ℕ × ℕ) (post : List CToken)
    → scan_token c i t s ≡ ok (span ∷ [], s')
    → search_from c i s (t ∷ post) ≡ then_spans span (search_from c (suc i) s' post)
unfolding search_from
round_one c i t s s' span post e = rw e

round_two :
    (c : CMatch) (i : ℕ) (t : CToken) (s s' : Scan) (span : ℕ × ℕ) (post : List CToken)
    → scan_token c i t s ≡ ok (span ∷ span ∷ [], s')
    → search_from c i s (t ∷ post)
      ≡ then_spans span (then_spans span (search_from c (suc i) s' post))
unfolding search_from
round_two c i t s s' span post e = rw e (
    sym (
      bind_assoc (search_from c (suc i) s' post) (λ more. ok (span ∷ more))
        (λ more. ok (span ∷ more))))

last_round :
    (c : CMatch) (n i : ℕ) (l : Level)
    → search_from c n (inside i l []) [] ≡ ok (if i == 0 then [] else (i, n) ∷ [])
unfolding search_from unfinished
last_round c n zero l = refl
last_round c n (suc i) l = rw (not_zero i)
  where
    not_zero : (i : ℕ) → (suc i == 0) ≡ false
    not_zero i = ground arith

-- A name that no delimiter follows is a span of its own, with the spaces behind it. The token that
-- ends it is passed over: it is not found even if it is a name that is looked for.
pub search_spans-loose :
    (c : CMatch) (pre sp post : List CToken) (n t : CToken)
    → All (λ t. names c t ≡ false) pre
    → names c n ≡ true
    → All (λ t. is_space_token t ≡ true) sp
    → is_space_token t ≡ false
    → begins c t ≡ false
    → t.kind ≢ end
    → search_spans c (pre ++ (n ∷ (sp ++ (t ∷ post))))
      ≡ then_spans
          (length pre, length pre + length sp)
          (search_from c
            (length pre + length sp + 2)
            (waiting false ((length pre, n.level) ∷ []))
            post)
unfolding search_spans
search_spans-loose c pre sp post n t h hn hs ht hb he =
    let i = length pre in
    let l = n.level in
    let j = suc i + length sp in
    let later = waiting false ((i, l) ∷ []) in
    search_name c pre (sp ++ (t ∷ post)) n h hn
    ∙ search_spaces c sp (t ∷ post) (suc i) i l [] hs
    ∙ round_one c j t (seeking i l []) later (i, j - 1) post
        (scan_loose c j i l [] t (omega arith) ht hb he)
    ∙ ap (λ k. then_spans (i, k) (search_from c (suc j) later post)) (omega arith)
    ∙ ap (λ k. then_spans (i, i + length sp) (search_from c k later post)) (omega arith)

-- A name right before a closing delimiter at its own level, which is one that nothing opened, is
-- yielded twice.
search_spans-stray :
    (c : CMatch) (pre post : List CToken) (n t : CToken)
    → All (λ x. names c x ≡ false) pre
    → names c n ≡ true
    → begins c t ≡ false
    → t.kind ≡ end
    → level_eq t.level n.level ≡ true
    → search_spans c (pre ++ (n ∷ (t ∷ post)))
      ≡ then_spans
          (length pre, length pre)
          (then_spans
            (length pre, length pre)
            (search_from c (length pre + 2) (waiting false []) post))
unfolding search_spans
search_spans-stray c pre post n t h hn hb he hl =
    let i = length pre in
    search_name c pre (t ∷ post) n h hn
    ∙ round_two c (suc i) t (seeking i n.level []) (waiting false []) (i, suc i - 1) post
        (scan_stray c (suc i) i n.level [] t (omega arith) hb he hl)
    ∙ ap
        (λ k.
          then_spans (i, k)
            (then_spans (i, k) (search_from c (suc (suc i)) (waiting false []) post)))
        (omega arith)
    ∙ ap (λ k. then_spans (i, i) (then_spans (i, i) (search_from c k (waiting false []) post)))
        (omega arith)

-- A call that nothing closes is a span up to the end of the list, but not one that begins with the
-- first token of the list: that one is not found.
pub search_spans-unclosed :
    (c : CMatch) (pre sp body : List CToken) (n o : CToken)
    → All (λ x. names c x ≡ false) pre
    → names c n ≡ true
    → All (λ x. is_space_token x ≡ true) sp
    → begins c o ≡ true
    → All (λ x. level_eq x.level n.level ≡ false) body
    → search_spans c (pre ++ (n ∷ (sp ++ (o ∷ body))))
      ≡ ok (
          if length pre == 0
          then []
          else (length pre, length (pre ++ (n ∷ (sp ++ (o ∷ body))))) ∷ [])
unfolding search_spans
search_spans-unclosed c pre sp body n o h hn hs ho hb =
    let i = length pre in
    let l = n.level in
    let j = suc i + length sp in
    search_name c pre (sp ++ (o ∷ body)) n h hn
    ∙ search_spaces c sp (o ∷ body) (suc i) i l [] hs
    ∙ quiet c j (seeking i l []) (inside i l []) o body (scan_begin c j i l [] o ho)
    ∙ ap (search_from c (suc j) (inside i l [])) (sym (append-nil body))
    ∙ search_body c body [] (suc j) i l [] hb
    ∙ last_round c (suc j + length body) i l
    ∙ ap (λ k. ok (if i == 0 then [] else (i, k) ∷ []))
        (omega (arith, length-append pre (n ∷ (sp ++ (o ∷ body))), length-append sp (o ∷ body)))
