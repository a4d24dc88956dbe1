-- ===== src/Common/Int.antt =====
-- Signed integers, for i16 and i32 values: `negsuc n` is -(n + 1).
use Prim.Native.Nat.{ℕ, suc, ◌+◌, ◌-◌, min}
use petra_os.Common.Tests.{leb, if◌then◌else◌}

pub data ℤ : Type 0 where
  pos : ℕ → ℤ
  negsuc : ℕ → ℤ

abbrev pub pos_part : ℤ → ℕ
pos_part (negsuc n) = 0
pos_part (pos n) = n

abbrev pub neg_part : ℤ → ℕ
neg_part (negsuc n) = suc n
neg_part (pos n) = 0

-- up - down
abbrev pub difference : ℕ → ℕ → ℤ
difference up down = if leb down up then pos (up - down) else negsuc (down - up - 1)

infixl 65 ◌-ℤ◌
abbrev pub ◌-ℤ◌ : ℤ → ℤ → ℤ
x -ℤ y = difference (pos_part x + neg_part y) (neg_part x + pos_part y)

-- `clamp(-bound, bound)`
abbrev pub clamp_abs : ℕ → ℤ → ℤ
clamp_abs bound (pos n) = pos (min n bound)
clamp_abs bound (negsuc n) = difference 0 (min (suc n) bound)
