-- ===== src/CLex/Raised.antt =====
-- Exceptions as values: what c_lex.py raises, or what Python raises in it and in kdoc_parser.py.
use pi_ghost.Base.{List, [], ◌∷◌, ℕ, zero, suc, ◌≡◌, refl}

pub data Exception : Type 0 where
  -- `ValueError`, for two greedy patterns, and for a greedy pattern that is not the last one.
  multiple_greedy greedy_not_last : Exception
  -- `AttributeError`, `UnboundLocalError` and `IndexError`.
  attribute_error unbound_local index_error : Exception
  -- The `AttributeError` of `self.section` before `begin_section`.
  unset_section : Exception

pub data Result {ℓ} (A : Type ℓ) : Type ℓ where
  ok : A → Result A
  raised : Exception → Result A

infixl 5 ◌>>=◌
abbrev pub ◌>>=◌ {ℓ κ} : {A : Type ℓ} {B : Type κ} → Result A → (A → Result B) → Result B
ok a >>= f = f a
raised e >>= f = raised e

-- `xs[i]`
abbrev pub item_at {ℓ} : {A : Type ℓ} → List A → ℕ → Result A
item_at [] i = raised index_error
item_at (x ∷ xs) zero = ok x
item_at (x ∷ xs) (suc i) = item_at xs i

pub bind-ok {ℓ} : {A : Type ℓ} (m : Result A) → (m >>= ok) ≡ m
bind-ok (ok a) = refl
bind-ok (raised e) = refl

pub bind_assoc {ℓ κ μ} :
    {A : Type ℓ} {B : Type κ} {C : Type μ} (m : Result A) (f : A → Result B) (g : B → Result C)
    → ((m >>= f) >>= g) ≡ (m >>= λ a. f a >>= g)
bind_assoc (ok a) f g = refl
bind_assoc (raised e) f g = refl
