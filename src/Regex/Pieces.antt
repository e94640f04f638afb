-- ===== src/Regex/Pieces.antt =====
-- The walk of `finditer` and `sub`: it goes through the whole text, in order.
use mathlib.Core.Path.{subst}
use pi_ghost.Base.{
  ℕ, zero, suc, ◌+◌, ◌*◌, ◌<◌, ◌≡◌, ◌≢◌, refl, ap, Bool, true, false, Option, none, some, List, [],
  ◌∷◌, ◌++◌, arith, Text, length, length-append, All, Option-cases, inl, inr, ◌⊎◌, if◌then◌else◌,
}
use pi_ghost.Regex.{Rx, Match, last_of, runs}
use pi_ghost.Regex.Search.{Piece, plain, hit, pick, pieces, is_empty}
use pi_ghost.Regex.Sound.{Splits, runs-Splits}
use pi_ghost.Regex.Progress.{nullable, Takes, runs-Takes}

-- The text that the pieces cover.
abbrev pub flat : List Piece → Text
flat [] = []
flat (plain c ∷ ps) = c ∷ flat ps
flat (hit m ∷ ps) = m.taken ++ flat ps

some_injective : {l m : Match} → some l ≡ some m → l ≡ m
some_injective e = cc

text-cases : (w : Text) → (w ≡ []) ⊎ ((c : ℕ) × (v : Text) × (w ≡ c ∷ v))
text-cases [] = inl refl
text-cases (c ∷ w) = inr (c, w, refl)

pub pick-All :
    (P : Match → Type 0) (must : Bool) (ms : List Match) (m : Match)
    → All P ms
    → pick must ms ≡ some m
    → P m
unfolding pick
pick-All P must [] m h e = cc
pick-All P false (l ∷ ms) m h e = subst P (some_injective e) h.0
pick-All P true (l ∷ ms) m h e = elim (text-cases l.taken) [
  | inl n ↦ pick-All P true ms m h.1 (rw n at e)
  | inr (c, w, n) ↦ subst P (some_injective (rw n at e)) h.0
]

pick-must : (ms : List Match) (m : Match) → pick true ms ≡ some m → m.taken ≢ []
unfolding pick
pick-must [] m e = cc
pick-must (l ∷ ms) m e = elim (text-cases l.taken) [
  | inl n ↦ pick-must ms m (rw n at e)
  | inr (c, w, n) ↦ λ t. cc (some_injective (rw n at e), n)
]

not_empty : (w : Text) → w ≢ [] → is_empty w ≡ false
not_empty [] h = absurd (h refl)
not_empty (c ∷ w) h = refl

-- The walk's measure falls with a match.
measure_falls :
    (must : Bool) (w r s : Text)
    → w ++ r ≡ s
    → (must ≡ true → w ≢ [])
    → 2 * length r + (if is_empty w then 0 else 1) < 2 * length s + (if must then 0 else 1)
measure_falls true [] r s e h = absurd (h refl refl)
measure_falls false [] r s e h = rw (← e) (omega arith)
measure_falls true (c ∷ w) r s e h = rw (← e) (omega (arith, length-append w r))
measure_falls false (c ∷ w) r s e h = rw (← e) (omega (arith, length-append w r))

taken_must :
    (must : Bool) (ms : List Match) (m : Match) → pick must ms ≡ some m → must ≡ true → m.taken ≢ []
taken_must true ms m e t = pick-must ms m e
taken_must false ms m e t = cc

-- With enough fuel the pieces are the text.
pub pieces-flat :
    (x : Rx) (fuel : ℕ) (must : Bool) (prev : Option ℕ) (s : Text)
    → 2 * length s + (if must then 0 else 1) < fuel
    → flat (pieces x fuel must prev s) ≡ s
unfolding pieces
pieces-flat x zero must prev s h = absurd (omega arith)
pieces-flat x (suc fuel) must prev [] h = elim (Option-cases (pick must (runs x prev []))) [
  | inl e ↦ rw (e, pieces)
  | inr (m, e) ↦
      let split = pick-All (Splits []) must (runs x prev []) m (runs-Splits x prev []) e in
      let falls = measure_falls must m.taken m.rest [] split (taken_must must _ m e) in
      rw (e, pieces)
        (rw (pieces-flat x fuel (is_empty m.taken) (last_of prev m.taken) m.rest (omega arith))
          split)
]
pieces-flat x (suc fuel) must prev (c ∷ s) h =
    elim (Option-cases (pick must (runs x prev (c ∷ s)))) [
      | inl e ↦ rw (e, pieces) (ap (◌∷◌ c) (pieces-flat x fuel false (some c) s (omega arith)))
      | inr (m, e) ↦
          let split =
            pick-All (Splits (c ∷ s)) must (runs x prev (c ∷ s)) m (runs-Splits x prev (c ∷ s)) e in
          let falls = measure_falls must m.taken m.rest (c ∷ s) split (taken_must must _ m e) in
          rw (e, pieces)
            (rw (pieces-flat x fuel (is_empty m.taken) (last_of prev m.taken) m.rest (omega arith))
              split)
    ]

-- A pattern that matches something at every character.
abbrev pub IsTotal : Rx → Type 0
IsTotal x = (prev : Option ℕ) (c : ℕ) (s : Text) → runs x prev (c ∷ s) ≢ []

abbrev pub IsHit : (Match → Type 0) → Piece → Type 0
IsHit P (plain c) = ⊥
IsHit P (hit m) = P m

pick-some : (ms : List Match) → ms ≢ [] → pick false ms ≢ none
unfolding pick
pick-some [] h = absurd (h refl)
pick-some (m ∷ ms) h = cc

-- Where a total pattern takes something each time, nothing but its matches is left of the text.
pub pieces-IsHit :
    (x : Rx) (P : Match → Type 0) (fuel : ℕ) (prev : Option ℕ) (s : Text)
    → nullable x ≡ false
    → IsTotal x
    → ((prev : Option ℕ) (s : Text) → All P (runs x prev s))
    → All (IsHit P) (pieces x fuel false prev s)
unfolding pieces
pieces-IsHit x P zero prev s n t p = tt
pieces-IsHit x P (suc fuel) prev [] n t p = elim (Option-cases (pick false (runs x prev []))) [
  | inl e ↦ rw (e, pieces) tt
  | inr (m, e) ↦
      let takes = pick-All Takes false (runs x prev []) m (runs-Takes x prev [] n) e in
      rw (e, pieces)
        (
          pick-All P false (runs x prev []) m (p prev []) e,
          rw (not_empty m.taken takes) (pieces-IsHit x P fuel _ m.rest n t p),
        )
]
pieces-IsHit x P (suc fuel) prev (c ∷ s) n t p =
    elim (Option-cases (pick false (runs x prev (c ∷ s)))) [
      | inl e ↦ absurd (pick-some _ (t prev c s) e)
      | inr (m, e) ↦
          let takes =
            pick-All Takes false (runs x prev (c ∷ s)) m (runs-Takes x prev (c ∷ s) n) e in
          rw (e, pieces)
            (
              pick-All P false (runs x prev (c ∷ s)) m (p prev (c ∷ s)) e,
              rw (not_empty m.taken takes) (pieces-IsHit x P fuel _ m.rest n t p),
            )
    ]
