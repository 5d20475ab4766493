-- ===== src/Registry/Ops.antt =====
-- The operations of `ModelRegistry` in model_registry.go, `Reconcile` apart. Each takes the time
-- that it reads, and returns its error value with the registry that it leaves.
pub mod Promotion
pub mod Safety
pub mod Distinct
pub mod Rollback
use ropus.Common.{
  ℕ, ◌<>◌, ◌≤◌, ◌<◌, String, str_eq, Bool, true, false, ◌||◌, Option, none, some, List, [], ◌∷◌,
  ltb, ◌==◌, if◌then◌else◌, is_some,
}
use ropus.Common.Dict.{Dict, lookup, contains, insert, update}
use ropus.Registry.Types.{
  ModelLifecycleState, validated, shadow, canary, promoted, rolled_back, ModelProvenance,
  RegisteredModel, ModelRegistry, ModelCandidate, ProvenanceError, RegistryError, empty_version,
  already_registered, not_found, no_provenance, bad_percentage, promotion_blocked, canary_blocked,
  Result, ok, err,
}
use ropus.Common.Int.{ℤ, pos, negsuc}
use ropus.Registry.Types
use ropus.Registry.Provenance.{validate_provenance_chain, validate_conditional_promotion_provenance}

abbrev pub production_version : String
production_version = "fraud-xgb-25f-v3.0"

abbrev pub fallback_version : String
fallback_version = "fraud-xgb-15f-v1.5"

abbrev production_provenance : ℕ → ModelProvenance
production_provenance now = record {
  dataset_uri = "s3://risk-datasets/training/baseline_25f_v3.parquet";
  dataset_checksum = "dataset_sha256_verified_prod_25f_v3";
  dataset_version = "v3.0-gold";
  dataset_row_count = 1500000;
  training_config_hash = "config_hash_xgb_25f_v3";
  training_job_id = "job_train_baseline_prod_25f";
  parent_model_version = fallback_version;
  candidate_version = production_version;
  artifact_uri = "file:///app/model/fraud_model_25f_v3.onnx";
  artifact_checksum = "verified_prod_25f_v3_sha256";
  validation_report_hash = "";
  validation_passed = true;
  shadow_evaluation_id = "";
  shadow_passed = true;
  approval_actor = "SYSTEM_BOOTSTRAP";
  approval_reason = "Verified production baseline model";
  approved_at = some now;
  canary_stage_completed = 100;
  promoted_at = some now;
  created_at = now;
}

abbrev fallback_provenance : ℕ → ModelProvenance
fallback_provenance now = record {
  dataset_uri = "s3://risk-datasets/training/fallback_15f_v1.parquet";
  dataset_checksum = "dataset_sha256_verified_fallback_15f_v1";
  dataset_version = "v1.5-gold";
  dataset_row_count = 850000;
  training_config_hash = "config_hash_xgb_15f_v1";
  training_job_id = "job_train_fallback_15f_v1";
  parent_model_version = "none";
  candidate_version = fallback_version;
  artifact_uri = "file:///app/model/backup/fraud_model_15f_v1.onnx";
  artifact_checksum = "verified_fallback_15f_v1_sha256";
  validation_report_hash = "";
  validation_passed = true;
  shadow_evaluation_id = "";
  shadow_passed = true;
  approval_actor = "SYSTEM_BOOTSTRAP";
  approval_reason = "Verified fallback model";
  approved_at = some now;
  canary_stage_completed = 100;
  promoted_at = none;
  created_at = now;
}

abbrev baseline_production : ℕ → RegisteredModel
baseline_production now = record {
  model_id = "model_prod_25f_v3";
  version = production_version;
  parent_model_version = fallback_version;
  feature_contract = "fraud-risk-25f-v2.5";
  calibration_version = "beta-calibrated-v2.5";
  artifact_uri = "file:///app/model/fraud_model_25f_v3.onnx";
  artifact_checksum = "verified_prod_25f_v3_sha256";
  created_at = now;
  promoted_at = some now;
  validation_status = "PASSED";
  shadow_status = "PASSED";
  lifecycle_state = promoted;
  is_production_active = true;
  is_fallback_active = false;
  provenance = some (production_provenance now);
  metadata = [];
}

-- The literal of the fallback model, which `Reconcile` repeats with no provenance.
abbrev pub baseline_fallback : ℕ → Option ModelProvenance → RegisteredModel
baseline_fallback now prov = record {
  model_id = "model_fallback_15f_v1";
  version = fallback_version;
  parent_model_version = "none";
  feature_contract = "fraud-risk-15f-v1.5";
  calibration_version = "beta-calibrated-v1.5";
  artifact_uri = "file:///app/model/backup/fraud_model_15f_v1.onnx";
  artifact_checksum = "verified_fallback_15f_v1_sha256";
  created_at = now;
  promoted_at = none;
  validation_status = "PASSED";
  shadow_status = "PASSED";
  lifecycle_state = promoted;
  is_production_active = false;
  is_fallback_active = true;
  provenance = prov;
  metadata = [];
}

unfoldable pub new_model_registry : ℕ → ModelRegistry
new_model_registry now = record {
  models =
      (production_version, baseline_production now)
      ∷ (fallback_version, baseline_fallback now (some (fallback_provenance now)))
      ∷ [];
  production_model = production_version;
  fallback_model = fallback_version;
}

abbrev pub registered : ModelCandidate → String → String → ℕ → RegisteredModel
registered c uri checksum now = record {
  model_id = c.model_id;
  version = c.version;
  parent_model_version = c.parent_model_version;
  feature_contract = c.feature_contract;
  calibration_version = c.calibration_version;
  artifact_uri = uri;
  artifact_checksum = checksum;
  created_at = now;
  promoted_at = none;
  validation_status = "PENDING";
  shadow_status = "PENDING";
  lifecycle_state = Types.candidate;
  is_production_active = false;
  is_fallback_active = false;
  provenance = none;
  metadata =
      ("training_job_id", c.training_job_id)
      ∷ ("dataset_id", c.dataset_id)
      ∷ ("config_hash", c.config_hash)
      ∷ [];
}

abbrev pub Outcome : Type 0
Outcome = Result (Unit {0}) × ModelRegistry

unfoldable pub register_candidate : ModelCandidate → String → String → ℕ → ModelRegistry → Outcome
register_candidate c uri checksum now r =
    if str_eq c.version ""
    then (err empty_version, r)
    else if contains c.version r.models
    then (err (already_registered c.version), r)
    else (ok tt, record r { models = insert c.version (registered c uri checksum now) r.models })

-- The body of `UpdateLifecycleState` on the model that was found.
abbrev enter_state : ModelLifecycleState → RegisteredModel → RegisteredModel
enter_state validated m = record m { lifecycle_state = validated; validation_status = "PASSED" }
enter_state shadow m = record m { lifecycle_state = shadow; shadow_status = "PASSED" }
enter_state s m = record m { lifecycle_state = s }

-- An operation that fails on an unknown version and otherwise writes through the pointer.
abbrev on_model : String → (RegisteredModel → RegisteredModel) → ModelRegistry → Outcome
on_model v f r =
    if contains v r.models
    then (ok tt, record r { models = update v f r.models })
    else (err (not_found v), r)

unfoldable pub update_lifecycle_state : String → ModelLifecycleState → ModelRegistry → Outcome
update_lifecycle_state v s r = on_model v (enter_state s) r

unfoldable pub get_model : String → ModelRegistry → Result RegisteredModel
get_model v r = elim (lookup v r.models) [ some m ↦ ok m | none ↦ err (not_found v) ]

unfoldable pub get_production_model : ModelRegistry → Result RegisteredModel
unfolding get_model
get_production_model r = get_model r.production_model r

unfoldable pub get_fallback_model : ModelRegistry → Result RegisteredModel
unfolding get_model
get_fallback_model r = get_model r.fallback_model r

-- `if cand.Provenance != nil { validate }`: a model with no provenance passes.
abbrev checked_by :
    (Option ModelProvenance → Option ProvenanceError)
    → Option ModelProvenance
    → Option ProvenanceError
checked_by check none = none
checked_by check (some p) = check (some p)

abbrev demote : RegisteredModel → RegisteredModel
demote m = record m { is_production_active = false; is_fallback_active = true }

-- What is done to the previous production model, if there is one.
abbrev retire_production : Option RegisteredModel → ModelRegistry → ModelRegistry
retire_production none r = r
retire_production (some prev) r = record r {
  models = update r.production_model demote r.models;
  fallback_model = prev.version;
}

abbrev stamp : ℕ → Option ModelProvenance → Option ModelProvenance
stamp now none = none
stamp now (some p) = some (record p { promoted_at = some now })

abbrev crown : ℕ → RegisteredModel → RegisteredModel
crown now m = record m {
  is_production_active = true;
  is_fallback_active = false;
  lifecycle_state = promoted;
  promoted_at = some now;
  provenance = stamp now m.provenance;
}

-- The writes of `PromoteModel`, once its checks have passed.
switch_production : String → ℕ → ModelRegistry → ModelRegistry
switch_production v now r =
    let r' = retire_production (lookup r.production_model r.models) r in
    record r' { models = update v (crown now) r'.models; production_model = v }

promote_found : String → ℕ → ModelRegistry → Option RegisteredModel → Outcome
unfolding switch_production
promote_found v now r none = (err (not_found v), r)
promote_found v now r (some cand) = elim (checked_by validate_provenance_chain cand.provenance) [
  | some e ↦ (err (promotion_blocked e), r)
  | none ↦ (ok tt, switch_production v now r)
]

unfoldable pub promote_model : String → ℕ → ModelRegistry → Outcome
unfolding promote_found
promote_model v now r = promote_found v now r (lookup v r.models)

abbrev enter_canary : RegisteredModel → RegisteredModel
enter_canary m = record m { lifecycle_state = canary; provenance = stage m.provenance }
  where
    stage : Option ModelProvenance → Option ModelProvenance
    stage none = none
    stage (some p) = some (record p { canary_stage_completed = 1 })

canary_found : String → ModelRegistry → Option RegisteredModel → Outcome
canary_found v r none = (err (not_found v), r)
canary_found v r (some cand) =
    elim (checked_by validate_conditional_promotion_provenance cand.provenance) [
      | some e ↦ (err (canary_blocked e), r)
      | none ↦ (ok tt, record r { models = update v enter_canary r.models })
    ]

-- `canaryPercentage <= 0 || canaryPercentage > 20`
abbrev out_of_range : ℤ → Bool
out_of_range (negsuc _) = true
out_of_range (pos n) = n == 0 || ltb 20 n

unfoldable pub promote_conditional_canary : String → ℤ → ModelRegistry → Outcome
unfolding canary_found
promote_conditional_canary v pct r =
    if out_of_range pct then (err bad_percentage, r) else canary_found v r (lookup v r.models)

unfoldable pub attach_provenance : String → Option ModelProvenance → ModelRegistry → Outcome
attach_provenance v prov r = on_model v (λ m. record m { provenance = prov }) r

unfoldable pub get_model_provenance : String → ModelRegistry → Result ModelProvenance
get_model_provenance v r = elim (lookup v r.models) [
  | none ↦ err (not_found v)
  | some m ↦ elim m.provenance [ none ↦ err (no_provenance v) | some p ↦ ok p ]
]

unfoldable pub rollback_model : String → ModelRegistry → Outcome
rollback_model v r =
    on_model v (λ m. record m { lifecycle_state = rolled_back; is_production_active = false }) r
