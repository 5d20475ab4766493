-- ===== src/Common/Int.antt =====
-- Go's `int` where a negative value is possible: `negsuc n` is -(n + 1).
use Prim.Native.Nat.{ℕ, suc, ◌+◌, ◌-◌}
use ropus.Common.Tests.{leb, ◌==◌, if◌then◌else◌}

pub data ℤ : Type 0 where
  pos : ℕ → ℤ
  negsuc : ℕ → ℤ

-- `if x <= 0 { x = d }`
abbrev pub or_default : ℕ → ℤ → ℕ
or_default d (negsuc _) = d
or_default d (pos n) = if n == 0 then d else n

abbrev pos_part : ℤ → ℕ
pos_part (pos n) = n
pos_part (negsuc n) = 0

abbrev neg_part : ℤ → ℕ
neg_part (pos n) = 0
neg_part (negsuc n) = suc n

infixl 65 ◌+ℤ◌
unfoldable pub ◌+ℤ◌ : ℤ → ℤ → ℤ
a +ℤ b =
    let p = pos_part a + pos_part b in
    let n = neg_part a + neg_part b in if leb n p then pos (p - n) else negsuc (n - p - 1)
