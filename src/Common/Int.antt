-- ===== src/Common/Int.antt =====
-- Signed integers over the native numbers, under the library's names, for values that may be
-- negative in the source (scroll positions, clock skew, goal values).
use Prim.Native.Nat.{ℕ, suc, ◌+◌, ◌-◌}
use staminads.Common.Tests.{ltb, if◌then◌else◌}

-- `negsuc n` is -(n + 1).
pub data ℤ : Type 0 where
  pos : ℕ → ℤ
  negsuc : ℕ → ℤ

abbrev pub pos_part : ℤ → ℕ
pos_part (pos n) = n
pos_part (negsuc n) = 0

abbrev pub neg_part : ℤ → ℕ
neg_part (pos n) = 0
neg_part (negsuc n) = suc n

infixl 60 ◌-ℤ◌ ◌+ℤ◌
-- The difference of two whole numbers, and a whole number moved by a difference.
abbrev pub ◌-ℤ◌ : ℕ → ℕ → ℤ
a -ℤ b = if ltb a b then negsuc (b - a - 1) else pos (a - b)

abbrev pub ◌+ℤ◌ : ℕ → ℤ → ℤ
a +ℤ pos n = pos (a + n)
a +ℤ negsuc n = a -ℤ suc n
