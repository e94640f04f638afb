-- ===== src/KdocParser/Strings.antt =====
-- Methods of Python's str, and `trim_whitespace`.
use pi_ghost.Base.{ℕ, ◌+◌, Bool, ◌||◌, List, [], ◌∷◌, ◌++◌, if◌then◌else◌, Text, starts_with, codes}
use pi_ghost.Regex.{Rx, one, seq, plus}
use pi_ghost.Regex.Class.{within, is_space}
use pi_ghost.Regex.Search.{sub}

abbrev pub lower : ℕ → ℕ
lower c = if within b'A' b'Z' c then c + 32 else c

-- `s.lower()`, of ASCII.
abbrev pub lowered : Text → Text
lowered [] = []
lowered (c ∷ s) = lower c ∷ lowered s

-- `s.lstrip()`, `s.rstrip()` and `s.strip()`, for a class of characters.
abbrev pub lstrip : (ℕ → Bool) → Text → Text
lstrip p [] = []
lstrip p (c ∷ s) = if p c then lstrip p s else c ∷ s

abbrev push_unless : (ℕ → Bool) → ℕ → Text → Text
push_unless p c [] = if p c then [] else c ∷ []
push_unless p c (d ∷ s) = c ∷ (d ∷ s)

abbrev pub rstrip : (ℕ → Bool) → Text → Text
rstrip p [] = []
rstrip p (c ∷ s) = push_unless p c (rstrip p s)

abbrev pub strip : (ℕ → Bool) → Text → Text
strip p s = rstrip p (lstrip p s)

-- `sub in s`
abbrev pub contains : Text → Text → Bool
contains w [] = starts_with w []
contains w (c ∷ s) = starts_with w (c ∷ s) || contains w s

-- `'\n'.join(…)`
abbrev pub joined_lines : List Text → Text
joined_lines [] = []
joined_lines (s ∷ []) = s
joined_lines (s ∷ (t ∷ ts)) = s ++ (b'\n' ∷ joined_lines (t ∷ ts))

abbrev multi_space : Rx
multi_space = seq (one is_space) (plus (one is_space))

unfoldable pub trim_whitespace : Text → Text
unfolding sub is_space
trim_whitespace s = sub multi_space (λ m. codes " ") (strip is_space s)
