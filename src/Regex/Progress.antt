-- ===== src/Regex/Progress.antt =====
-- A pattern that is not nullable takes at least one character.
use pi_ghost.Base.{
  ℕ, ◌≡◌, ◌≢◌, Bool, true, false, Option, List, [], ◌∷◌, ◌++◌, ◌&&◌, ◌||◌, arith, Text, All,
  All-append, Bool-cases, inl, inr, ◌⊎◌,
}
use pi_ghost.Regex.{
  Rx, one, seq, alt, group, Match, last_of, all_after, follow, labels, one_of, runs,
}

-- Whether the pattern may match the empty text.
abbrev pub nullable : Rx → Bool
nullable (one p) = false
nullable (seq x y) = nullable x && nullable y
nullable (alt x y) = nullable x || nullable y
nullable (group name x) = nullable x
nullable _ = true

abbrev pub Takes : Match → Type 0
Takes m = m.taken ≢ []

all_after-Takes :
    (l : Match) (ms : List Match) → Takes l ⊎ All Takes ms → All Takes (all_after l ms)
unfolding all_after
all_after-Takes l [] h = tt
all_after-Takes l (m ∷ ms) (inl t) = (ground arith, all_after-Takes l ms (inl t))
all_after-Takes l (m ∷ ms) (inr h) =
    (after_right l.taken m.taken h.0, all_after-Takes l ms (inr h.1))
  where
    after_right : (u v : Text) → v ≢ [] → u ++ v ≢ []
    after_right [] v h = h
    after_right (c ∷ u) v h = cc

follow-Takes-left :
    (k : Match → List Match) (ms : List Match) → All Takes ms → All Takes (follow k ms)
unfolding follow
follow-Takes-left k [] h = tt
follow-Takes-left k (m ∷ ms) h =
    All-append Takes (all_after m (k m)) (follow k ms) (all_after-Takes m (k m) (inl h.0))
      (follow-Takes-left k ms h.1)

follow-Takes-right :
    (k : Match → List Match) (ms : List Match)
    → ((m : Match) → All Takes (k m))
    → All Takes (follow k ms)
unfolding follow
follow-Takes-right k [] h = tt
follow-Takes-right k (m ∷ ms) h =
    All-append Takes (all_after m (k m)) (follow k ms) (all_after-Takes m (k m) (inr (h m)))
      (follow-Takes-right k ms h)

one_of-Takes : (p : ℕ → Bool) (s : Text) → All Takes (one_of p s)
one_of-Takes p [] = tt
one_of-Takes p (c ∷ s) = elim (Bool-cases (p c)) [
  | inl yes_c ↦ rw yes_c (cc, tt)
  | inr no_c ↦ rw no_c tt
]

labels-Takes : (name : Text) (ms : List Match) → All Takes ms → All Takes (labels name ms)
labels-Takes name [] h = tt
labels-Takes name (m ∷ ms) h = (h.0, labels-Takes name ms h.1)

pub runs-Takes :
    (x : Rx) (prev : Option ℕ) (s : Text) → nullable x ≡ false → All Takes (runs x prev s)
unfolding runs
runs-Takes (one p) prev s h = one_of-Takes p s
runs-Takes (seq x y) prev s h = elim (Bool-cases (nullable x)) [
  | inl n ↦
      follow-Takes-right _ (runs x prev s)
        (λ m. runs-Takes y (last_of prev m.taken) m.rest (ground arith))
  | inr n ↦ follow-Takes-left _ (runs x prev s) (runs-Takes x prev s n)
]
runs-Takes (alt x y) prev s h =
    All-append Takes (runs x prev s) (runs y prev s) (runs-Takes x prev s (ground arith))
      (runs-Takes y prev s (ground arith))
runs-Takes (group name x) prev s h = labels-Takes name (runs x prev s) (runs-Takes x prev s h)
runs-Takes _ prev s h = absurd (ground arith)
