-- ===== src/Regex/Sound.antt =====
-- Every match splits the text that it stands on.
use pi_ghost.Base.{
  ℕ, zero, suc, ◌≡◌, refl, ◌∙◌, ap, Bool, true, false, Option, some, List, [], ◌∷◌, ◌++◌,
  append_assoc, Text, length, All, All-append, Bool-cases, inl, inr,
}
use pi_ghost.Regex.{
  Rx, eps, one, seq, alt, star, lazy, edge, start, end, group, Match, here, last_of, all_after,
  follow, when, labels, Step, onward, greedy, sparing, one_of, at_edge, at_start, at_end, runs,
}

abbrev pub Splits : Text → Match → Type 0
Splits s m = m.taken ++ m.rest ≡ s

all_after-Splits :
    (s : Text) (l : Match) (ms : List Match)
    → Splits s l
    → All (Splits l.rest) ms
    → All (Splits s) (all_after l ms)
unfolding all_after
all_after-Splits s l [] h hs = tt
all_after-Splits s l (m ∷ ms) h hs = (
  append_assoc l.taken m.taken m.rest ∙ ap (◌++◌ l.taken) hs.0 ∙ h,
  all_after-Splits s l ms h hs.1,
)

follow-Splits :
    (s : Text) (k : Match → List Match) (ms : List Match)
    → ((m : Match) → All (Splits m.rest) (k m))
    → All (Splits s) ms
    → All (Splits s) (follow k ms)
unfolding follow
follow-Splits s k [] hk h = tt
follow-Splits s k (m ∷ ms) hk h =
    All-append (Splits s) (all_after m (k m)) (follow k ms) (all_after-Splits s m (k m) h.0 (hk m))
      (follow-Splits s k ms hk h.1)

abbrev IsSound : Step → Type 0
IsSound step = (prev : Option ℕ) (s : Text) → All (Splits s) (step prev s)

onward-Splits : (k : Step) → IsSound k → (m : Match) → All (Splits m.rest) (onward k m)
unfolding onward
onward-Splits k h m =
    elim m.taken
      as (λ w. All (Splits m.rest) (elim w [ [] ↦ [] | c ∷ v ↦ k (last_of (some c) v) m.rest ])) [
        | [] ↦ tt
        | c ∷ w ↦ h (last_of (some c) w) m.rest
      ]

greedy-Splits : (step : Step) → IsSound step → (fuel : ℕ) → IsSound (greedy step fuel)
unfolding greedy
greedy-Splits step h zero prev s = (refl, tt)
greedy-Splits step h (suc fuel) prev s =
    let more = onward-Splits (greedy step fuel) (greedy-Splits step h fuel) in
    All-append (Splits s) _ (here s ∷ []) (follow-Splits s _ (step prev s) more (h prev s))
      (refl, tt)

sparing-Splits : (step : Step) → IsSound step → (fuel : ℕ) → IsSound (sparing step fuel)
unfolding sparing
sparing-Splits step h zero prev s = (refl, tt)
sparing-Splits step h (suc fuel) prev s =
    let more = onward-Splits (sparing step fuel) (sparing-Splits step h fuel) in
    (refl, follow-Splits s _ (step prev s) more (h prev s))

one_of-Splits : (p : ℕ → Bool) (s : Text) → All (Splits s) (one_of p s)
one_of-Splits p [] = tt
one_of-Splits p (c ∷ s) = elim (Bool-cases (p c)) [
  | inl yes_c ↦ rw yes_c (refl, tt)
  | inr no_c ↦ rw no_c tt
]

when-Splits : (b : Bool) (s : Text) → All (Splits s) (when b s)
when-Splits true s = (refl, tt)
when-Splits false s = tt

labels-Splits :
    (name s : Text) (ms : List Match) → All (Splits s) ms → All (Splits s) (labels name ms)
labels-Splits name s [] h = tt
labels-Splits name s (m ∷ ms) h = (h.0, labels-Splits name s ms h.1)

-- What a match takes and what it leaves are the text, in this order.
pub runs-Splits : (x : Rx) (prev : Option ℕ) (s : Text) → All (Splits s) (runs x prev s)
unfolding runs
runs-Splits eps prev s = (refl, tt)
runs-Splits (one p) prev s = one_of-Splits p s
runs-Splits (seq x y) prev s =
    follow-Splits s _ (runs x prev s) (λ m. runs-Splits y (last_of prev m.taken) m.rest)
      (runs-Splits x prev s)
runs-Splits (alt x y) prev s =
    All-append (Splits s) (runs x prev s) (runs y prev s) (runs-Splits x prev s)
      (runs-Splits y prev s)
runs-Splits (star x) prev s = greedy-Splits (runs x) (runs-Splits x) (length s) prev s
runs-Splits (lazy x) prev s = sparing-Splits (runs x) (runs-Splits x) (length s) prev s
runs-Splits edge prev s = when-Splits (at_edge prev s) s
runs-Splits start prev s = when-Splits (at_start prev) s
runs-Splits end prev s = when-Splits (at_end s) s
runs-Splits (group name x) prev s = labels-Splits name s (runs x prev s) (runs-Splits x prev s)
