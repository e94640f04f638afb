-- ===== src/CLex/Tokenizer/Lexemes.antt =====
-- What the scanner matches: at every character something, with a kind that fits its text.
use mathlib.Core.Path.{subst, ap}
use pi_ghost.Base.{
  ℕ, zero, suc, ◌==◌, ==_iff, length, sym, ◌≡◌, ◌≢◌, refl, true, false, Option, some, List, [], ◌∷◌,
  ◌++◌, ◌⊎◌, inl, inr, arith, Text, codes, All, All-append, Bool-cases,
}
use pi_ghost.Regex.{
  Rx, one, plus, Step, Match, runs, labels, greedy, all_after, follow, onward, here,
}
use pi_ghost.Regex.Class.{is_among, is_space, not_newline}
use pi_ghost.Regex.Pieces.{IsTotal}
use pi_ghost.Regex.Progress.{nullable, Takes, runs-Takes}
use pi_ghost.CLex.Token.{Kind, begin, end, to_name, from_name-to_name}
use pi_ghost.CLex.Scanner.{Rule, first_rule, other_rules, fill_re_scanner, re_scanner}
use pi_ghost.CLex.Tokenizer.{kind_of_match}

-- A delimiter token is one delimiter, and no token is empty.
abbrev pub IsLexeme : Kind → Text → Type 0
IsLexeme begin w = (w ≡ codes "[") ⊎ (w ≡ codes "(") ⊎ (w ≡ codes "{")
IsLexeme end w = (w ≡ codes "]") ⊎ (w ≡ codes ")") ⊎ (w ≡ codes "}")
IsLexeme _ w = w ≢ []

abbrev pub FitsKind : Match → Type 0
FitsKind m = IsLexeme (kind_of_match m) m.taken

abbrev RuleFits : Rule → Type 0
RuleFits r =
    (prev : Option ℕ) (s : Text) → All (λ m. IsLexeme r.kind m.taken) (runs r.pattern_rx prev s)

labels-FitsKind :
    (k : Kind) (ms : List Match)
    → All (λ m. IsLexeme k m.taken) ms
    → All FitsKind (labels (to_name k) ms)
unfolding kind_of_match
labels-FitsKind k [] h = tt
labels-FitsKind k (m ∷ ms) h = (rw (from_name-to_name k) h.0, labels-FitsKind k ms h.1)

fill-FitsKind :
    (r : Rule) (rs : List Rule)
    → RuleFits r
    → All RuleFits rs
    → (prev : Option ℕ) (s : Text) → All FitsKind (runs (fill_re_scanner r rs) prev s)
unfolding fill_re_scanner runs
fill-FitsKind r [] h hs prev s = labels-FitsKind r.kind _ (h prev s)
fill-FitsKind r (q ∷ qs) h hs prev s =
    All-append FitsKind (labels (to_name r.kind) (runs r.pattern_rx prev s))
      (runs (fill_re_scanner q qs) prev s) (labels-FitsKind r.kind _ (h prev s))
      (fill-FitsKind q qs hs.0 hs.1 prev s)

among_three :
    (a b d c : ℕ) (P : Text → Type 0)
    → P (a ∷ [])
    → P (b ∷ [])
    → P (d ∷ [])
    → is_among (a ∷ b ∷ d ∷ []) c ≡ true
    → P (c ∷ [])
unfolding is_among
among_three a b d c P ha hb hd h = elim (one_of_three a b d c h) [
  | inl e ↦ subst P (ap (λ k. k ∷ []) e) ha
  | inr (inl e) ↦ subst P (ap (λ k. k ∷ []) e) hb
  | inr (inr e) ↦ subst P (ap (λ k. k ∷ []) e) hd
]
  where
    one_of_three :
        (a b d c : ℕ) → is_among (a ∷ b ∷ d ∷ []) c ≡ true → (a ≡ c) ⊎ ((b ≡ c) ⊎ (d ≡ c))
    one_of_three a b d c h = ground arith

three :
    (a b d : ℕ) (P : Text → Type 0) (prev : Option ℕ) (s : Text)
    → P (a ∷ [])
    → P (b ∷ [])
    → P (d ∷ [])
    → All (λ m. P m.taken) (runs (one (is_among (a ∷ b ∷ d ∷ []))) prev s)
unfolding runs
three a b d P prev [] ha hb hd = tt
three a b d P prev (c ∷ s) ha hb hd = elim (Bool-cases (is_among (a ∷ b ∷ d ∷ []) c)) [
  | inl e ↦ rw e (among_three a b d c P ha hb hd e, tt)
  | inr e ↦ rw e tt
]

takes : (x : Rx) → nullable x ≡ false → (prev : Option ℕ) (s : Text) → All Takes (runs x prev s)
takes x n prev s = runs-Takes x prev s n

opening :
    (prev : Option ℕ) (s : Text)
    → All (λ m. IsLexeme begin m.taken) (runs (one (is_among (codes "[({"))) prev s)
opening prev s = three _ _ _ (IsLexeme begin) prev s (inl refl) (inr (inl refl)) (inr (inr refl))

closing :
    (prev : Option ℕ) (s : Text)
    → All (λ m. IsLexeme end m.taken) (runs (one (is_among (codes "])}"))) prev s)
closing prev s = three _ _ _ (IsLexeme end) prev s (inl refl) (inr (inl refl)) (inr (inr refl))

other_rules-RuleFits : All RuleFits other_rules
other_rules-RuleFits = (
  takes _ refl,
  (
    takes _ refl,
    (
      takes _ refl,
      (
        takes _ refl,
        (
          takes _ refl,
          (
            opening,
            (
              closing,
              (
                takes _ refl,
                (
                  takes _ refl,
                  (
                    takes _ refl,
                    (
                      takes _ refl,
                      (
                        takes _ refl,
                        (
                          takes _ refl,
                          (
                            takes _ refl,
                            (takes _ refl, (takes _ refl, (takes _ refl, (takes _ refl, tt)))),
                          ),
                        ),
                      ),
                    ),
                  ),
                ),
              ),
            ),
          ),
        ),
      ),
    ),
  ),
)

pub re_scanner-FitsKind : (prev : Option ℕ) (s : Text) → All FitsKind (runs re_scanner prev s)
unfolding re_scanner
re_scanner-FitsKind = fill-FitsKind first_rule other_rules (takes _ refl) other_rules-RuleFits

abbrev rule_at : ℕ → Rule → List Rule → Rule
rule_at zero r qs = r
rule_at (suc n) r [] = r
rule_at (suc n) r (q ∷ qs) = rule_at n q qs

ne_nil_right : (xs ys : List Match) → ys ≢ [] → xs ++ ys ≢ []
ne_nil_right [] ys h = h
ne_nil_right (x ∷ xs) ys h = cc

ne_nil_left : (xs ys : List Match) → xs ≢ [] → xs ++ ys ≢ []
ne_nil_left [] ys h = absurd (h refl)
ne_nil_left (x ∷ xs) ys h = cc

labels-ne-nil : (w : Text) (ms : List Match) → ms ≢ [] → labels w ms ≢ []
labels-ne-nil w [] h = h
labels-ne-nil w (m ∷ ms) h = cc

-- Where a rule of the list matches, the scanner does.
fill-matches :
    (n : ℕ) (r : Rule) (rs : List Rule) (prev : Option ℕ) (s : Text)
    → runs (rule_at n r rs).pattern_rx prev s ≢ []
    → runs (fill_re_scanner r rs) prev s ≢ []
unfolding fill_re_scanner runs
fill-matches zero r [] prev s h = labels-ne-nil _ _ h
fill-matches (suc n) r [] prev s h = labels-ne-nil _ _ h
fill-matches zero r (q ∷ qs) prev s h = ne_nil_left _ _ (labels-ne-nil _ _ h)
fill-matches (suc n) r (q ∷ qs) prev s h =
    ne_nil_right (labels (to_name r.kind) (runs r.pattern_rx prev s)) _
      (fill-matches n q qs prev s h)

here-ne-nil : (s : Text) → (here s ∷ []) ≢ []
here-ne-nil s = cc

greedy-ne-nil : (step : Step) (fuel : ℕ) (prev : Option ℕ) (s : Text) → greedy step fuel prev s ≢ []
unfolding greedy
greedy-ne-nil step zero prev s = cc
greedy-ne-nil step (suc fuel) prev s =
    ne_nil_right (follow (onward (greedy step fuel)) (step prev s)) (here s ∷ []) (here-ne-nil s)

all_after-ne-nil : (l : Match) (ms : List Match) → ms ≢ [] → all_after l ms ≢ []
unfolding all_after
all_after-ne-nil l [] h = h
all_after-ne-nil l (m ∷ ms) h = cc

spaces-newline : (prev : Option ℕ) (s : Text) → runs (plus (one is_space)) prev (b'\n' ∷ s) ≢ []
unfolding runs follow is_space
spaces-newline prev s =
    let m : Match = record { taken = b'\n' ∷ []; rest = s; groups = [] } in
    ne_nil_left _ []
      (all_after-ne-nil m _ (greedy-ne-nil (runs (one is_space)) (length s) (some b'\n') s))

not_newline-matches :
    (prev : Option ℕ) (c : ℕ) (s : Text)
    → (c == b'\n') ≡ false
    → runs (one not_newline) prev (c ∷ s) ≢ []
unfolding runs
not_newline-matches prev c s h = rw h (λ e. cc)

-- The rule for MISMATCH takes what no other rule does, except a newline, which SPACE takes.
pub re_scanner-IsTotal : IsTotal re_scanner
unfolding re_scanner
re_scanner-IsTotal prev c s = elim (Bool-cases (c == b'\n')) [
  | inl t ↦ fill-matches 16 first_rule other_rules prev (c ∷ s) (
      subst (λ d. runs (plus (one is_space)) prev (d ∷ s) ≢ []) (sym ((==_iff c b'\n').0 t))
        (spaces-newline prev s))
  | inr f ↦ fill-matches 18 first_rule other_rules prev (c ∷ s) (not_newline-matches prev c s f)
]

pub nullable-re_scanner : nullable re_scanner ≡ false
unfolding re_scanner
nullable-re_scanner = refl
