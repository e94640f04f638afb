-- ===== src/KdocParser/Special/Trimmed.antt =====
-- The space in front of the lines of a section.
use pi_ghost.Base.{
  ℕ, zero, suc, ◌-◌, ap, ◌∙◌, ◌<◌, ◌≤◌, ◌≡◌, ◌≢◌, refl, false, Option, none, some, [], ◌∷◌, arith,
  if◌then◌else◌, Text, ltb, drop,
}
use pi_ghost.CLex.Raised.{ok, raised, index_error}
use pi_ghost.Regex.Class.{is_space}
use pi_ghost.KdocParser.Entry.{KernelEntry, add_text}
use pi_ghost.KdocParser.Special.{spaces_within, space_count, known_space, add_special}

pub indent : ℕ → Text → Text
indent zero w = w
indent (suc n) w = b' ' ∷ indent n w

abbrev pub least : ℕ → ℕ → ℕ
least a b = if ltb a b then a else b

spaces_within-indent :
    (n k c : ℕ) (w : Text) → c ≢ b' ' → spaces_within n (indent k (c ∷ w)) ≡ ok (least n k)
unfolding spaces_within indent
spaces_within-indent zero k c w h = ground arith
spaces_within-indent (suc n) zero c w h = ground arith
spaces_within-indent (suc n) (suc k) c w h = rw (spaces_within-indent n k c w h) (ground arith)

spaces_within-short : (n k : ℕ) → k < n → spaces_within n (indent k []) ≡ raised index_error
unfolding spaces_within indent
spaces_within-short zero k h = absurd (omega arith)
spaces_within-short (suc n) zero h = refl
spaces_within-short (suc n) (suc k) h = rw (spaces_within-short n k (omega arith)) refl

drop-indent : (n k : ℕ) (w : Text) → n ≤ k → drop n (indent k w) ≡ indent (k - n) w
unfolding indent
drop-indent zero k w h = ap (λ n. indent n w) (omega arith)
drop-indent (suc n) zero w h = absurd (omega arith)
drop-indent (suc n) (suc k) w h =
    drop-indent n k w (omega arith) ∙ ap (λ i. indent i w) (omega arith)

space_count-indent : (k c : ℕ) (w : Text) → is_space c ≡ false → space_count (indent k (c ∷ w)) ≡ k
unfolding indent is_space
space_count-indent zero c w h = ground arith
space_count-indent (suc k) c w h = ap suc (space_count-indent k c w h)

no_space : (c : ℕ) → is_space c ≡ false → c ≢ b' '
unfolding is_space
no_space c h e = ground arith

-- How much of the space in front of a line goes: as much as before, or all for the first line.
pub trimmed : Option ℕ → ℕ → ℕ
trimmed none k = k
trimmed (some n) k = least n k

spaces_within-known :
    (known : Option ℕ) (k c : ℕ) (w : Text)
    → is_space c ≡ false
    → spaces_within (known_space known (indent k (c ∷ w))) (indent k (c ∷ w)) ≡ ok (trimmed known k)
unfolding trimmed
spaces_within-known none k c w h =
    rw (space_count-indent k c w h)
      (spaces_within-indent k k c w (no_space c h) ∙ ap ok (ground arith))
spaces_within-known (some n) k c w h = spaces_within-indent n k c w (no_space c h)

trimmed-bound : (known : Option ℕ) (k : ℕ) → trimmed known k ≤ k
unfolding trimmed
trimmed-bound none k = omega arith
trimmed-bound (some n) k = ground arith

-- A line of a section with `k` spaces in front of its text, which begins with no white space, loses
-- as many of them as the lines before it did, or all if it has fewer; the first such line loses all.
-- As many as it lost are what the lines behind it lose at most.
pub add_special-indent :
    (k c : ℕ) (w : Text) (e : KernelEntry)
    → is_space c ≡ false
    → add_special (indent k (c ∷ w)) e
      ≡ ok (
          add_text
            (indent (k - trimmed e.leading_space k) (c ∷ w))
            (record e { leading_space = some (trimmed e.leading_space k) }))
unfolding add_special
add_special-indent k c w e h =
    rw (spaces_within-known e.leading_space k c w h) (
      rw (drop-indent (trimmed e.leading_space k) k (c ∷ w) (trimmed-bound e.leading_space k)) refl)

-- Where lines of the section lost `n` spaces, a line with fewer characters behind its asterisk and
-- no text raises `IndexError`.
add_special-short :
    (n k : ℕ) (e : KernelEntry)
    → e.leading_space ≡ some n
    → k < n
    → add_special (indent k []) e ≡ raised index_error
unfolding add_special
add_special-short n k e l h = rw l (rw (spaces_within-short n k h) refl)
