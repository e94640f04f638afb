-- ===== src/KdocParser/Munge/Commas.antt =====
-- The commas of `syscall_munge`.
use pi_ghost.Base.{
  ◌≡◌, ◌≢◌, refl, sym, ap, ◌∙◌, append-nil, Bool, not, List, [], ◌∷◌, ◌++◌, arith, Text, All,
  if◌then◌else◌,
}
use pi_ghost.KdocParser.Munge.{blank_commas}

-- Pieces between commas, and the same pieces with a space for every other comma.
pub with_commas : Text → List Text → Text
with_commas w [] = w
with_commas w (v ∷ vs) = w ++ (b',' ∷ with_commas v vs)

pub with_spaces : Bool → Text → List Text → Text
with_spaces odd w [] = w
with_spaces odd w (v ∷ vs) = w ++ ((if odd then b' ' else b',') ∷ with_spaces (not odd) v vs)

abbrev pub HasNoComma : Text → Type 0
HasNoComma w = All (λ c. c ≢ b',') w

blank_commas-piece :
    (odd : Bool) (w s : Text) → HasNoComma w → blank_commas odd (w ++ s) ≡ w ++ blank_commas odd s
unfolding blank_commas
blank_commas-piece odd [] s h = refl
blank_commas-piece odd (c ∷ w) s h = rw (blank_commas-piece odd w s h.1) (ground (arith, h.0))

-- The loop over the commas puts a space for every other comma of a text, from the first one on if
-- `odd` says that it is odd-numbered and else from the second one on, and keeps the rest of it.
pub blank_commas-pieces :
    (odd : Bool) (w : Text) (ws : List Text)
    → HasNoComma w
    → All HasNoComma ws
    → blank_commas odd (with_commas w ws) ≡ with_spaces odd w ws
unfolding blank_commas with_commas with_spaces
blank_commas-pieces odd w [] h hs =
    ap (blank_commas odd) (sym (append-nil w)) ∙ blank_commas-piece odd w [] h ∙ append-nil w
blank_commas-pieces odd w (v ∷ vs) h hs =
    blank_commas-piece odd w (b',' ∷ with_commas v vs) h
    ∙ rw (blank_commas-pieces (not odd) v vs hs.0 hs.1) refl
