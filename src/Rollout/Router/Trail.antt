-- ===== src/Rollout/Router/Trail.antt =====
-- The events that the router has written to ClickHouse, as a record of its percentage.
use ropus.Common.{◌≡◌, String, Bool, List, ◌∷◌, ◌++◌}
use mathlib.Core.List.Perm
use ropus.Common.Int.{ℤ}
use ropus.Rollout.Float.{Floats}
use ropus.Rollout.Router.{
  CanaryRouter, CanaryRolloutEvent, end_logging, update_config, set_percentage,
}
use ropus.Rollout.Router.Rollback.{Outcome, observe}

-- A call of a method that may write.
pub data Call (F : Type 0) : Type 0 where
  record_outcome : Outcome F → Call F
  update : Bool → ℤ → String → String → Call F
  set_to : ℤ → Call F

module _ (fl : Floats) where
  open fl use {F}

  unfoldable pub call : Call F → CanaryRouter F → CanaryRouter F
  call (record_outcome o) cr = observe fl o cr
  call (update enabled pct actor reason) cr = (update_config fl enabled pct actor reason cr).1
  call (set_to pct) cr = set_percentage fl pct cr

  -- A call, or the end of a goroutine that logs.
  pub data Step (cr : CanaryRouter F) : CanaryRouter F → Type 0 where
    calls : (c : Call F) → Step cr (call c cr)
    ends :
        (before : List (CanaryRolloutEvent F)) (e : CanaryRolloutEvent F)
        (after : List (CanaryRolloutEvent F)) (is_inserted : Bool)
        → cr.logging ≡ before ++ (e ∷ after)
        → Step cr (end_logging before e after is_inserted cr)

  pub data Steps (cr : CanaryRouter F) : CanaryRouter F → Type 0 where
    done : Steps cr cr
    then_step : {q r : CanaryRouter F} → Steps cr q → Step q r → Steps cr r
