-- ===== src/Regex/Class.antt =====
-- Character classes, on ASCII code points.
use pi_ghost.Base.{ℕ, Bool, false, ◌&&◌, ◌||◌, not, leb, ◌==◌, Text, [], ◌∷◌, true}

abbrev pub within : ℕ → ℕ → ℕ → Bool
within lo hi c = leb lo c && leb c hi

-- `\d`
unfoldable pub is_digit : ℕ → Bool
is_digit c = within b'0' b'9' c

-- `[A-Za-z_]`
unfoldable pub is_letter : ℕ → Bool
is_letter c = within b'A' b'Z' c || within b'a' b'z' c || c == b'_'

-- `\w`
unfoldable pub is_word : ℕ → Bool
unfolding is_digit is_letter
is_word c = is_letter c || is_digit c

-- `\s`: tab to carriage return, the four separators and the space.
unfoldable pub is_space : ℕ → Bool
is_space c = within 9 13 c || within 28 32 c

-- `[…]` of single characters.
unfoldable pub is_among : Text → ℕ → Bool
is_among [] c = false
is_among (d ∷ ds) c = d == c || is_among ds c

abbrev pub is_none_of : Text → ℕ → Bool
is_none_of ds c = not (is_among ds c)

-- `[\s\S]`
abbrev pub any_char : ℕ → Bool
any_char c = true

-- `.`, where DOTALL is never set.
abbrev pub not_newline : ℕ → Bool
not_newline c = not (c == b'\n')
