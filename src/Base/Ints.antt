-- ===== src/Base/Ints.antt =====
-- The integers, under the library's names.
use Prim.Native.Nat.{ℕ, zero, suc}
use mathlib.Core.Bool.{Bool, true, false}

pub data ℤ : Type 0 where
  pos : ℕ → ℤ
  negsuc : ℕ → ℤ

-- `n + 1` and `n - 1`
abbrev pub sucℤ : ℤ → ℤ
sucℤ (pos n) = pos (suc n)
sucℤ (negsuc zero) = pos zero
sucℤ (negsuc (suc n)) = negsuc n

abbrev pub predℤ : ℤ → ℤ
predℤ (pos (suc n)) = pos n
predℤ (pos zero) = negsuc zero
predℤ (negsuc n) = negsuc (suc n)

-- `n <= 0`
abbrev pub is_nonpos : ℤ → Bool
is_nonpos (pos (suc n)) = false
is_nonpos _ = true
