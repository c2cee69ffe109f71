-- ===== src/Prelude/Int.antt =====
-- Go's signed integers, in the range where no operation of the model wraps.
use Prim.Native.Nat.{ℕ, suc, ◌+◌, ◌-◌, ◌≤◌}
use mathlib.Core.Bool.{Bool}
use gatelet.Prelude.Tests.{ltb, leb, if◌then◌else◌}

-- `negsuc n` is -(n + 1).
pub data ℤ : Type 0 where
  pos : ℕ → ℤ
  negsuc : ℕ → ℤ

abbrev pub pos_part : ℤ → ℕ
pos_part (pos n) = n
pos_part (negsuc n) = 0

abbrev pub neg_part : ℤ → ℕ
neg_part (pos n) = 0
neg_part (negsuc n) = suc n

abbrev pub ltbℤ : ℤ → ℤ → Bool
ltbℤ a b = ltb (pos_part a + neg_part b) (pos_part b + neg_part a)

abbrev pub lebℤ : ℤ → ℤ → Bool
lebℤ a b = leb (pos_part a + neg_part b) (pos_part b + neg_part a)

infix 50 ◌≤ℤ◌
abbrev pub ◌≤ℤ◌ : ℤ → ℤ → Type 0
a ≤ℤ b = pos_part a + neg_part b ≤ pos_part b + neg_part a

-- A number, and minus it.
abbrev pub plusℤ : ℤ → ℕ → ℤ
plusℤ (pos n) k = pos (n + k)
plusℤ (negsuc n) k = if ltb n k then pos (k - n - 1) else negsuc (n - k)

abbrev pub minusℤ : ℤ → ℕ → ℤ
minusℤ (pos n) k = if leb k n then pos (n - k) else negsuc (k - n - 1)
minusℤ (negsuc n) k = negsuc (n + k)

-- `if z > hi { z = hi }` and then `if z < 0 { z = 0 }`.
abbrev pub clamp : ℕ → ℤ → ℤ
clamp hi (pos n) = if ltb hi n then pos hi else pos n
clamp hi (negsuc n) = pos 0
