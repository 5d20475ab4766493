-- ===== src/Rollout/Float.antt =====
-- Go's float64, which the rollout and the rate limiter compare, divide and round. The type and its operations are a
-- parameter: nothing is assumed of them, NaN included.
use ropus.Common.{ℕ, Bool, List}
use ropus.Common.Int.{ℤ}

pub record Floats : Type 1 where
  pub F : Type 0
  -- `literal n d` is the constant n / d of the source
  pub literal : ℕ → ℕ → F
  pub of_int : ℕ → F
  pub is_gt : F → F → Bool
  pub is_le : F → F → Bool
  pub is_ge : F → F → Bool
  pub add : F → F → F
  pub sub : F → F → F
  pub mul : F → F → F
  pub div : F → F → F
  -- `math.Round`, and `int(math.Ceil(x))` where that is at least 0
  pub round : F → F
  pub ceil : F → ℕ
  -- `int64(x)`
  pub truncate : F → ℤ
  -- `sort.Float64s`
  pub sort : List F → List F
  -- `Duration.Seconds`, of nanoseconds
  pub seconds : ℕ → F
