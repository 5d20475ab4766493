-- ===== src/Retraining/State.antt =====
-- The state of `RetrainingCoordinator` of retraining_coordinator.go and its controls. Jobs and
-- candidates are shared by pointer, so they live in heaps. A registry and a router are present.
use ropus.Common.{
  ℕ, ◌+◌, String, Bool, true, false, Option, none, some, List, [], if◌then◌else◌, ◌==◌,
}
use ropus.Common.Dict.{Dict, lookup, insert}
use ropus.Rollout.Float.{Floats}
use ropus.Rollout.Router.{CanaryRouter}
use ropus.Registry.Types.{ModelRegistry}
use ropus.Retraining.Types.{
  JobState, idle, RetrainingConfig, validate_config, RetrainingJob, ModelCandidate,
}
use ropus.Retraining.Trigger.{RetrainingTriggerEngine, new_trigger_engine}

pub record RetrainingCoordinator (F : Type 0) : Type 0 where
  pub config : RetrainingConfig F
  pub trigger_engine : RetrainingTriggerEngine F
  pub canary_router : CanaryRouter F
  pub model_registry : ModelRegistry
  pub current_state : JobState
  pub jobs : ℕ → RetrainingJob
  pub next_job : ℕ
  pub active_job : Option ℕ
  pub cands : ℕ → ModelCandidate
  pub next_cand : ℕ
  pub active_candidate : Option ℕ
  pub candidates : Dict ℕ
  pub job_history : List RetrainingJob
  pub maintenance_mode : Bool
  pub model_frozen : Bool
  pub retraining_paused : Bool
  pub canary_paused : Bool
  pub metrics : Dict ℕ

-- A write through a pointer, and through one that may be nil.
abbrev pub write_at {ℓ} : {A : Type ℓ} → ℕ → (A → A) → (ℕ → A) → ℕ → A
write_at ref f heap i = if i == ref then f (heap i) else heap i

abbrev pub write_opt {ℓ} : {A : Type ℓ} → Option ℕ → (A → A) → (ℕ → A) → ℕ → A
write_opt none f heap = heap
write_opt (some ref) f heap = write_at ref f heap

-- `metrics[name]++`
abbrev pub incremented : String → Dict ℕ → Dict ℕ
incremented name m = insert name (elim (lookup name m) [ none ↦ 1 | some n ↦ n + 1 ]) m

abbrev pub is_some_ref : Option ℕ → Bool
is_some_ref none = false
is_some_ref (some _) = true

abbrev pub in_state : JobState → ModelCandidate → ModelCandidate
in_state s cand = record cand { state = s }

module _ {F : Type 0} where
  unfoldable pub set_maintenance_mode : Bool → RetrainingCoordinator F → RetrainingCoordinator F
  set_maintenance_mode b c = record c { maintenance_mode = b }

  unfoldable pub set_model_frozen : Bool → RetrainingCoordinator F → RetrainingCoordinator F
  set_model_frozen b c = record c { model_frozen = b }

  unfoldable pub set_retraining_paused : Bool → RetrainingCoordinator F → RetrainingCoordinator F
  set_retraining_paused b c = record c { retraining_paused = b }

  unfoldable pub set_canary_paused : Bool → RetrainingCoordinator F → RetrainingCoordinator F
  set_canary_paused b c = record c { canary_paused = b }

  abbrev pub count : String → RetrainingCoordinator F → RetrainingCoordinator F
  count name c = record c { metrics = incremented name c.metrics }

module _ (fl : Floats) where
  open fl use {F}

  no_job : RetrainingJob
  no_job = record {
    job_id = "";
    triggered_at = 0;
    state = idle;
    trigger_type = "";
    trigger_reason = "";
    parent_model_version = "";
    candidate_model_version = "";
    dataset_id = "";
    sample_count = 0;
    completed_at = none;
    duration_ms = 0;
    error = "";
  }

  no_candidate : ModelCandidate
  no_candidate = record {
    model = record {
      model_id = "";
      version = "";
      parent_model_version = "";
      feature_contract = "";
      calibration_version = "";
      training_job_id = "";
      dataset_id = "";
      config_hash = "";
    };
    artifact_checksum = "";
    state = idle;
    validation_result = none;
    shadow_result = none;
  }

  unfoldable pub new_retraining_coordinator :
      RetrainingConfig F → CanaryRouter F → ModelRegistry → RetrainingCoordinator F
  unfolding no_job no_candidate validate_config new_trigger_engine
  new_retraining_coordinator cfg router registry = record {
    config = validate_config fl cfg;
    trigger_engine = new_trigger_engine fl (validate_config fl cfg);
    canary_router = router;
    model_registry = registry;
    current_state = idle;
    jobs = λ _. no_job;
    next_job = 0;
    active_job = none;
    cands = λ _. no_candidate;
    next_cand = 0;
    active_candidate = none;
    candidates = [];
    job_history = [];
    maintenance_mode = false;
    model_frozen = false;
    retraining_paused = false;
    canary_paused = false;
    metrics = [];
  }
