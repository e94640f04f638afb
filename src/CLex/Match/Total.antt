-- ===== src/CLex/Match/Total.antt =====
-- `_search` on any token list: it raises nothing, and its spans lie in the list.
use mathlib.Core.Path.{subst}
use pi_ghost.Base.{
  ℕ, zero, suc, ◌+◌, ◌-◌, ◌≤◌, ◌<◌, ◌≡◌, ◌≢◌, refl, Bool, true, false, Option, none, some, List, [],
  ◌∷◌, ◌++◌, arith, All, All-append, length, if◌then◌else◌, ltb, Bool-cases, inl, inr,
}
use pi_ghost.CLex.Token.{Kind, end, Level, level_eq, CToken}
use pi_ghost.CLex.Raised.{Result, ok, raised, ◌>>=◌}
use pi_ghost.CLex.Match.{
  CMatch, names, begins, is_space_token, Scan, Spans, idle, close_scan, unstarted, scan_token,
  unfinished, search_from, search_spans,
}

-- The span ends where it begins or later, and before `n`.
abbrev pub SpanWithin : ℕ → ℕ × ℕ → Type 0
SpanWithin n (from, to) = (from ≤ to) × (to < n)

abbrev Below : ℕ → ℕ × Level → Type 0
Below n (from, l) = from < n

-- What a name that is open leaves: its index, and a stack that is not empty.
abbrev Opened : ℕ → Option ℕ → List (ℕ × Level) → Type 0
Opened n none st = Unit
Opened n (some from) st = (from < n) × (st ≢ [])

abbrev Inv : ℕ → Scan → Type 0
Inv n s = All (Below n) s.stack × Opened n s.first s.stack

-- A round that raises nothing keeps the invariant.
abbrev Good : ℕ → Result (Spans × Scan) → Type 0
Good n (ok (spans, s)) = All (SpanWithin n) spans × Inv n s
Good n (raised e) = ⊥

abbrev scan : Option ℕ → Bool → List (ℕ × Level) → Scan
scan f b st = record { first = f; started = b; stack = st }

close-Good :
    (i n : ℕ) (t : CToken) (f : Option ℕ) (b : Bool) (from : ℕ) (l : Level) (st : List (ℕ × Level))
    → from ≤ i
    → i < n
    → Inv n (scan f b ((from, l) ∷ st))
    → Good n (close_scan i t (scan f b ((from, l) ∷ st)))
unfolding close_scan
close-Good i n t f b from l st le lt v = by_kind t.kind
  where
    by_kind :
        (k : Kind)
        → Good n (elim k [
          | end ↦
              if level_eq t.level l
              then ok ((from, i) ∷ [], scan none b st)
              else ok ([], scan f b ((from, l) ∷ st))
          | _ ↦ ok ([], scan f b ((from, l) ∷ st))
        ])
    by_kind end = elim (Bool-cases (level_eq t.level l)) [
      | inl e ↦ rw e (((le, lt), tt), (v.0.1, tt))
      | inr e ↦ rw e (tt, v)
    ]
    by_kind _ = (tt, v)

Below-mono : (n m : ℕ) (st : List (ℕ × Level)) → n ≤ m → All (Below n) st → All (Below m) st
Below-mono n m [] h b = tt
Below-mono n m ((from, l) ∷ st) h b = (omega arith, Below-mono n m st h b.1)

before_first :
    (n : ℕ) (span : ℕ × ℕ) (m : Result (Spans × Scan))
    → SpanWithin n span
    → Good n m
    → Good n (m >>= λ (spans, s'). ok (span ∷ spans, s'))
before_first n span (ok (spans, s')) h g = ((h, g.0), g.1)
before_first n span (raised e) h g = absurd g

unstarted-Good :
    (c : CMatch) (i from j : ℕ) (l : Level) (st : List (ℕ × Level)) (t : CToken)
    → from < i
    → j < i
    → All (Below (suc i)) ((j, l) ∷ st)
    → Good (suc i) (unstarted c from i t (scan (some from) false ((j, l) ∷ st)))
unfolding unstarted
unstarted-Good c i from j l st t lt lj m = elim (Bool-cases (is_space_token t)) [
  | inl e ↦ rw e (tt, (m, (omega arith, cc)))
  | inr e ↦ rw e (elim (Bool-cases (begins c t)) [
    | inl b ↦ rw b (tt, (m, (omega arith, cc)))
    | inr b ↦ rw b (
        rw (back from i lt) (
          before_first (suc i) (from, i - 1) (close_scan (i - 1) t (scan none false ((j, l) ∷ st)))
            (omega arith, omega arith)
            (close-Good (i - 1) (suc i) t none false j l st (omega arith) (omega arith) (m, tt))))
  ])
]
  where
    back : (from i : ℕ) → from < i → (if ltb from i then i - 1 else i) ≡ i - 1
    back from i lt = ground arith

token-Good :
    (c : CMatch) (i : ℕ) (t : CToken) (f : Option ℕ) (b : Bool) (st : List (ℕ × Level))
    → Inv i (scan f b st)
    → Good (suc i) (scan_token c i t (scan f b st))
unfolding scan_token unstarted
token-Good c i t none b st v = elim (Bool-cases (names c t)) [
  | inl e ↦ rw e (tt, ((omega arith, Below-mono i (suc i) st (omega arith) v.0), (omega arith, cc)))
  | inr e ↦ rw e (tt, (Below-mono i (suc i) st (omega arith) v.0, tt))
]
token-Good c i t (some from) b [] v = absurd (v.1.1 refl)
token-Good c i t (some from) true ((j, l) ∷ st) v =
    let m = Below-mono i (suc i) ((j, l) ∷ st) (omega arith) v.0 in
    close-Good i (suc i) t (some from) true j l st (omega (arith, v.0.0)) (omega arith)
      (m, (omega (arith, v.1.0), cc))
token-Good c i t (some from) false ((j, l) ∷ st) v =
    let m = Below-mono i (suc i) ((j, l) ∷ st) (omega arith) v.0 in
    unstarted-Good c i from j l st t (omega (arith, v.1.0)) (omega (arith, v.0.0)) m

abbrev Ok : ℕ → Result Spans → Type 0
Ok n (ok spans) = All (SpanWithin n) spans
Ok n (raised e) = ⊥

SpanWithin-mono :
    (n m : ℕ) (spans : Spans) → n ≤ m → All (SpanWithin n) spans → All (SpanWithin m) spans
SpanWithin-mono n m [] h a = tt
SpanWithin-mono n m ((from, to) ∷ spans) h a =
    ((a.0.0, omega arith), SpanWithin-mono n m spans h a.1)

unfinished-Ok : (n : ℕ) (s : Scan) → Inv n s → All (SpanWithin (suc n)) (unfinished n s)
unfolding unfinished
unfinished-Ok n s v = by_first s.first s.stack v.1
  where
    by_first :
        (f : Option ℕ) (st : List (ℕ × Level))
        → Opened n f st
        → All (SpanWithin (suc n)) (unfinished n (scan f s.started st))
    by_first none st o = tt
    by_first (some zero) st o = tt
    by_first (some (suc from)) [] o = tt
    by_first (some (suc from)) (_ ∷ _) o = ((omega (arith, o.0), omega arith), tt)

search-Ok :
    (c : CMatch) (ts : List CToken) (i : ℕ) (s : Scan)
    → Inv i s
    → Ok (suc (i + length ts)) (search_from c i s ts)
unfolding search_from
search-Ok c [] i s v =
    SpanWithin-mono (suc i) (suc (i + 0)) (unfinished i s) (omega arith) (unfinished-Ok i s v)
search-Ok c (t ∷ ts) i s v =
    round (search-Ok c ts (suc i)) (scan_token c i t s)
      (token-Good c i t s.first s.started s.stack v)
  where
    later :
        (m : Result Spans) (spans : Spans) (n : ℕ)
        → All (SpanWithin n) spans
        → Ok n m
        → Ok n (m >>= λ more. ok (spans ++ more))
    later (ok more) spans n h g = All-append (SpanWithin n) spans more h g
    later (raised e) spans n h g = absurd g

    round :
        ((s' : Scan) → Inv (suc i) s' → Ok (suc (suc i + length ts)) (search_from c (suc i) s' ts))
        → (m : Result (Spans × Scan)) → Good (suc i) m
        → Ok
            (suc (i + length (t ∷ ts)))
            (m >>= λ (spans, s'). search_from c (suc i) s' ts >>= λ more. ok (spans ++ more))
    round rec (ok (spans, s')) g =
        let n = suc (i + length (t ∷ ts)) in
        later (search_from c (suc i) s' ts) spans n
          (SpanWithin-mono (suc i) n spans (omega arith) g.0)
          (subst (λ k. Ok k (search_from c (suc i) s' ts)) (omega arith) (rec s' g.1))
    round rec (raised e) g = absurd g

ok_of :
    (n : ℕ) (m : Result Spans)
    → Ok n m
    → (spans : Spans) × (m ≡ ok spans) × All (SpanWithin n) spans
ok_of n (ok spans) h = (spans, refl, h)
ok_of n (raised e) h = absurd h

-- `_search` raises nothing on any token list: the stack that it reads is never empty. Each span
-- that it yields begins in the list, and ends there or just behind it.
search_spans_total :
    (c : CMatch) (ts : List CToken)
    → (spans : Spans) × (search_spans c ts ≡ ok spans) × All (SpanWithin (length ts + 1)) spans
unfolding search_spans
search_spans_total c ts =
    ok_of (length ts + 1) (search_from c 0 idle ts)
      (subst (λ k. Ok k (search_from c 0 idle ts)) (omega arith) (search-Ok c ts 0 idle (tt, tt)))
