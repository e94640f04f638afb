-- ===== src/KdocParser/Export/Trimmed.antt =====
-- The suffix that `process_export` trims.
use pi_ghost.Base.{
  ℕ, ◌≡◌, ◌≢◌, refl, ap, false, [], ◌∷◌, ◌++◌, arith, Text, text_eq, text_eq_refl, text_eq_apart,
  length, length-append,
}
use pi_ghost.KdocParser.Export.{trim_suffix}

longer : (d : ℕ) (w s : Text) → text_eq (s ++ (d ∷ w)) w ≡ false
longer d w s =
    text_eq_apart (s ++ (d ∷ w)) w (λ e. omega (arith, length-append s (d ∷ w), ap length e))

-- A symbol that ends with the suffix loses it, once.
pub trim_suffix-ends : (w s : Text) → w ≢ [] → trim_suffix w (s ++ w) ≡ s
unfolding trim_suffix
trim_suffix-ends [] s h = absurd (h refl)
trim_suffix-ends (d ∷ w) [] h = rw (text_eq_refl (d ∷ w)) refl
trim_suffix-ends (d ∷ w) (c ∷ s) h = ground (arith, longer d w s, trim_suffix-ends (d ∷ w) s h)
