-- ===== src/Retraining/Types.antt =====
-- The data of retraining_types.go. Times and durations are nanoseconds.
use ropus.Common.{ℕ, ◌*◌, String, Bool, true, false, Option, if◌then◌else◌, ltb}
use ropus.Common.Int.{ℤ, pos, or_default}
use ropus.Registry.Types.{ModelCandidate as RegistryCandidate}
use ropus.Rollout.Float.{Floats}

pub data JobState : Type 0 where
  idle triggered queued training validating shadow_evaluation awaiting_approval canary promoted
        rejected failed rolled_back :
      JobState

-- `CanTransitionTo`
unfoldable pub can_transition_to : JobState → JobState → Bool
can_transition_to idle triggered = true
can_transition_to triggered queued = true
can_transition_to triggered failed = true
can_transition_to triggered idle = true
can_transition_to queued training = true
can_transition_to queued failed = true
can_transition_to queued idle = true
can_transition_to training validating = true
can_transition_to training failed = true
can_transition_to validating shadow_evaluation = true
can_transition_to validating rejected = true
can_transition_to validating failed = true
can_transition_to shadow_evaluation awaiting_approval = true
can_transition_to shadow_evaluation canary = true
can_transition_to shadow_evaluation rejected = true
can_transition_to shadow_evaluation failed = true
can_transition_to awaiting_approval canary = true
can_transition_to awaiting_approval rejected = true
can_transition_to awaiting_approval failed = true
can_transition_to canary promoted = true
can_transition_to canary rolled_back = true
can_transition_to canary failed = true
can_transition_to promoted idle = true
can_transition_to promoted triggered = true
can_transition_to rejected idle = true
can_transition_to rejected triggered = true
can_transition_to failed idle = true
can_transition_to failed triggered = true
can_transition_to rolled_back idle = true
can_transition_to rolled_back triggered = true
can_transition_to _ _ = false

pub record RetrainingConfig (F : Type 0) : Type 0 where
  pub enabled : Bool
  pub min_samples : ℕ
  pub drift_threshold : F
  pub required_consecutive_windows : ℤ
  pub cooldown_duration : ℤ
  pub max_concurrent_jobs : ℤ
  pub min_model_improvement : F
  pub max_error_rate : F
  pub max_fallback_rate : F
  pub max_latency_regression_ms : F
  pub max_decision_change_rate : F
  pub max_allowed_fpr : F
  pub max_allowed_brier_score : F
  pub max_p95_latency_ms : F
  pub auto_approve_canary : Bool
  pub shadow_min_evaluations : ℕ
  pub canary_observation_window : ℤ

abbrev pub minute : ℕ
minute = 60000000000

-- `if n < least { n = least }`
abbrev pub at_least : ℕ → ℕ → ℕ
at_least least n = if ltb n least then least else n

module _ (fl : Floats) where
  open fl use {F, literal, is_le, sub}

  -- -0.02 is written as 0 - 0.02.
  unfoldable pub default_retraining_config : RetrainingConfig F
  default_retraining_config = record {
    enabled = true;
    min_samples = 200;
    drift_threshold = literal 20 100;
    required_consecutive_windows = pos 2;
    cooldown_duration = pos (30 * minute);
    max_concurrent_jobs = pos 1;
    min_model_improvement = sub (literal 0 1) (literal 2 100);
    max_error_rate = literal 1 100;
    max_fallback_rate = literal 1 100;
    max_latency_regression_ms = literal 5 1;
    max_decision_change_rate = literal 10 100;
    max_allowed_fpr = literal 5 100;
    max_allowed_brier_score = literal 10 100;
    max_p95_latency_ms = literal 15 1;
    auto_approve_canary = false;
    shadow_min_evaluations = 50;
    canary_observation_window = pos 100000000;
  }

  abbrev pub positive_or : F → F → F
  positive_or d x = if is_le x (literal 0 1) then d else x

  -- `Validate`
  unfoldable pub validate_config : RetrainingConfig F → RetrainingConfig F
  validate_config cfg = record cfg {
    min_samples = at_least 50 cfg.min_samples;
    drift_threshold = positive_or (literal 20 100) cfg.drift_threshold;
    required_consecutive_windows = pos (or_default 1 cfg.required_consecutive_windows);
    cooldown_duration = pos (or_default (30 * minute) cfg.cooldown_duration);
    max_concurrent_jobs = pos (or_default 1 cfg.max_concurrent_jobs);
    max_error_rate = positive_or (literal 1 100) cfg.max_error_rate;
    max_fallback_rate = positive_or (literal 1 100) cfg.max_fallback_rate;
    max_allowed_fpr = positive_or (literal 5 100) cfg.max_allowed_fpr;
    max_allowed_brier_score = positive_or (literal 10 100) cfg.max_allowed_brier_score;
    max_p95_latency_ms = positive_or (literal 15 1) cfg.max_p95_latency_ms;
    shadow_min_evaluations = at_least 10 cfg.shadow_min_evaluations;
  }

-- The duration is a whole number of milliseconds.
pub record RetrainingJob : Type 0 where
  pub job_id : String
  pub triggered_at : ℕ
  pub state : JobState
  pub trigger_type : String
  pub trigger_reason : String
  pub parent_model_version : String
  pub candidate_model_version : String
  pub dataset_id : String
  pub sample_count : ℕ
  pub completed_at : Option ℕ
  pub duration_ms : ℕ
  pub error : String

pub record ValidationMetrics (F : Type 0) : Type 0 where
  pub roc_auc : F
  pub pr_auc : F
  pub precision : F
  pub recall : F
  pub f1_score : F
  pub fpr : F
  pub fnr : F
  pub brier_score : F
  pub calibration_error : F
  pub p95_latency_ms : F
  pub inference_errors : ℤ
  pub nan_count : ℤ

-- The fields that the registry reads are in `model`; of the three results only whether they passed
-- is kept.
pub record ModelCandidate : Type 0 where
  pub model : RegistryCandidate
  pub artifact_checksum : String
  pub state : JobState
  pub validation_result : Option Bool
  pub shadow_result : Option Bool
