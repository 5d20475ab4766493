-- ===== src/Retraining/Gates.antt =====
-- `ValidateCandidate` of offline_validator.go, and `evaluateShadowGates` of
-- retraining_coordinator.go. The violations are constructors with the values that are printed.
use ropus.Common.{ℕ, Bool, true, false, not, ◌&&◌, List, [], ◌∷◌, ◌++◌, if◌then◌else◌, ltb}
use ropus.Common.Int.{ℤ, pos, negsuc}
use ropus.Rollout.Float.{Floats}
use ropus.Retraining.Types.{RetrainingConfig, ValidationMetrics}
pub mod Accepts

pub data GateViolation (F : Type 0) : Type 0 where
  auc_regression : F → F → F → GateViolation F
  fpr_exceeds brier_exceeds latency_exceeds : F → F → GateViolation F
  inference_errors nan_outputs : ℤ → GateViolation F
  divergence_exceeds : F → GateViolation F
  change_rate_exceeds error_rate_exceeds : F → F → GateViolation F

abbrev pub is_positive : ℤ → Bool
is_positive (pos n) = ltb 0 n
is_positive (negsuc _) = false

-- The violations whose tests are met, in order.
unfoldable pub gates : {F : Type 0} → List (Bool × GateViolation F) → List (GateViolation F)
gates [] = []
gates ((is_met, v) ∷ rest) = if is_met then v ∷ gates rest else gates rest

abbrev pub is_empty : {F : Type 0} → List (GateViolation F) → Bool
is_empty [] = true
is_empty (_ ∷ _) = false

module _ (fl : Floats) where
  open fl use {F, literal, add, mul, is_gt}

  unfoldable pub default_production_baseline_metrics : ValidationMetrics F
  default_production_baseline_metrics = record {
    roc_auc = literal 8950 10000;
    pr_auc = literal 7100 10000;
    precision = literal 8100 10000;
    recall = literal 7600 10000;
    f1_score = literal 7842 10000;
    fpr = literal 250 10000;
    fnr = literal 2400 10000;
    brier_score = literal 420 10000;
    calibration_error = literal 150 10000;
    p95_latency_ms = literal 65 10;
    inference_errors = pos 0;
    nan_count = pos 0;
  }

  -- `a < b` is `b > a`, on floats too.
  abbrev pub validation_tests :
      RetrainingConfig F → ValidationMetrics F → ValidationMetrics F → List (Bool × GateViolation F)
  validation_tests cfg m base =
      let least = add base.roc_auc cfg.min_model_improvement in
      (is_gt least m.roc_auc, auc_regression m.roc_auc least base.roc_auc)
      ∷ (is_gt m.fpr cfg.max_allowed_fpr, fpr_exceeds m.fpr cfg.max_allowed_fpr)
      ∷ (
        is_gt m.brier_score cfg.max_allowed_brier_score,
        brier_exceeds m.brier_score cfg.max_allowed_brier_score,
      )
      ∷ (
        is_gt m.p95_latency_ms cfg.max_p95_latency_ms,
        latency_exceeds m.p95_latency_ms cfg.max_p95_latency_ms,
      )
      ∷ (is_positive m.inference_errors, inference_errors m.inference_errors)
      ∷ (is_positive m.nan_count, nan_outputs m.nan_count)
      ∷ []

  -- The calibration warning.
  unfoldable pub has_warning : ValidationMetrics F → ValidationMetrics F → Bool
  has_warning m base = is_gt m.calibration_error (mul base.calibration_error (literal 12 10))

  pub record ValidationGateResult : Type 0 where
    pub passed : Bool
    pub violations : List (GateViolation F)
    pub has_warnings : Bool

  unfoldable pub validate_candidate :
      RetrainingConfig F → ValidationMetrics F → ValidationMetrics F → ValidationGateResult
  validate_candidate cfg m base =
      let vs = gates (validation_tests cfg m base) in
      record { passed = is_empty vs; violations = vs; has_warnings = has_warning m base }

  -- The figures that the shadow gates test are constants of the source.
  unfoldable pub shadow_violations : RetrainingConfig F → List (GateViolation F)
  shadow_violations cfg = gates (
      (is_gt (literal 2 100) (literal 5 100), divergence_exceeds (literal 2 100))
      ∷ (
        is_gt (literal 15 1000) cfg.max_decision_change_rate,
        change_rate_exceeds (literal 15 1000) cfg.max_decision_change_rate,
      )
      ∷ (
        is_gt (literal 0 1) cfg.max_error_rate,
        error_rate_exceeds (literal 0 1) cfg.max_error_rate,
      )
      ∷ [])
