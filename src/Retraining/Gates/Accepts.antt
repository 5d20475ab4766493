-- ===== src/Retraining/Gates/Accepts.antt =====
-- Which candidates the gates let pass.
use ropus.Common.{◌≡◌, ◌↔◌, Bool, true, false, List, [], ◌∷◌, All, arith}
use ropus.Rollout.Float.{Floats}
use ropus.Retraining.Types.{RetrainingConfig, ValidationMetrics}
use ropus.Retraining.Gates.{
  is_positive, GateViolation, gates, is_empty, validation_tests, validate_candidate,
}

is_empty-gates :
    {F : Type 0} (tests : List (Bool × GateViolation F))
    → (is_empty (gates tests) ≡ true) ↔ All (λ t. t.0 ≡ false) tests
unfolding gates
is_empty-gates [] = ground arith
is_empty-gates ((true, v) ∷ rest) = ground arith
is_empty-gates ((false, v) ∷ rest) = let h = is_empty-gates rest in ground arith

module _ (fl : Floats) where
  open fl use {F, add, is_gt}

  -- A candidate passes the offline validation exactly when its AUC is not found below the
  -- baseline's plus the required improvement, none of the false positive rate, the Brier score and
  -- the latency is found above its limit, and there were no inference errors and no NaN outputs.
  pub validate_candidate_iff :
      (cfg : RetrainingConfig F) (m base : ValidationMetrics F)
      → ((validate_candidate fl cfg m base).passed ≡ true) ↔ (
          (is_gt (add base.roc_auc cfg.min_model_improvement) m.roc_auc ≡ false)
          × (is_gt m.fpr cfg.max_allowed_fpr ≡ false)
          × (is_gt m.brier_score cfg.max_allowed_brier_score ≡ false)
          × (is_gt m.p95_latency_ms cfg.max_p95_latency_ms ≡ false)
          × (is_positive m.inference_errors ≡ false)
          × (is_positive m.nan_count ≡ false))
  unfolding validate_candidate
  validate_candidate_iff cfg m base =
      let h = is_empty-gates (validation_tests fl cfg m base) in ground arith
