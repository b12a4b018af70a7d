-- ===== src/Common/Integers.antt =====
-- Integers over the native numbers, for the signed values of the source.
use Prim.Native.Nat.{ℕ, ◌+◌, ◌-◌}
use mathlib.Core.Bool.{Bool, true, false}
use kahuna.Common.Tests.{ltb, leb, if◌then◌else◌}

pub data ℤ : Type 0 where
  pos negsuc : ℕ → ℤ

-- The difference of two numbers
infixl 65 ◌⊖◌
abbrev pub ◌⊖◌ : ℕ → ℕ → ℤ
m ⊖ n = if leb n m then pos (m - n) else negsuc (n - m - 1)

infixl 65 ◌-ℤ◌
abbrev pub ◌-ℤ◌ : ℤ → ℤ → ℤ
pos m -ℤ pos n = m ⊖ n
pos m -ℤ negsuc n = pos (m + n + 1)
negsuc m -ℤ pos n = negsuc (m + n)
negsuc m -ℤ negsuc n = n ⊖ m

abbrev pub less : ℤ → ℤ → Bool
less (pos m) (pos n) = ltb m n
less (pos m) (negsuc n) = false
less (negsuc m) (pos n) = true
less (negsuc m) (negsuc n) = ltb n m
