-- ===== src/Registry/Types.antt =====
-- The data of model_registry.go and provenance.go. A `time.Time` is a number of nanoseconds, and
-- a pointer that may be nil an `Option`.
use ropus.Common.{ℕ, String, Bool, Option}
use ropus.Common.Dict.{Dict}

pub data ModelLifecycleState : Type 0 where
  candidate validated shadow approved canary promoted rejected rolled_back failed :
      ModelLifecycleState

pub record ModelProvenance : Type 0 where
  pub dataset_uri : String
  pub dataset_checksum : String
  pub dataset_version : String
  pub dataset_row_count : ℕ
  pub training_config_hash : String
  pub training_job_id : String
  pub parent_model_version : String
  pub candidate_version : String
  pub artifact_uri : String
  pub artifact_checksum : String
  pub validation_report_hash : String
  pub validation_passed : Bool
  pub shadow_evaluation_id : String
  pub shadow_passed : Bool
  pub approval_actor : String
  pub approval_reason : String
  pub approved_at : Option ℕ
  pub canary_stage_completed : ℕ
  pub promoted_at : Option ℕ
  pub created_at : ℕ

pub record RegisteredModel : Type 0 where
  pub model_id : String
  pub version : String
  pub parent_model_version : String
  pub feature_contract : String
  pub calibration_version : String
  pub artifact_uri : String
  pub artifact_checksum : String
  pub created_at : ℕ
  pub promoted_at : Option ℕ
  pub validation_status : String
  pub shadow_status : String
  pub lifecycle_state : ModelLifecycleState
  pub is_production_active : Bool
  pub is_fallback_active : Bool
  pub provenance : Option ModelProvenance
  pub metadata : Dict String

pub record ModelRegistry : Type 0 where
  pub models : Dict RegisteredModel
  pub production_model : String
  pub fallback_model : String

-- The fields of `ModelCandidate` that the registry reads.
pub record ModelCandidate : Type 0 where
  pub model_id : String
  pub version : String
  pub parent_model_version : String
  pub feature_contract : String
  pub calibration_version : String
  pub training_job_id : String
  pub dataset_id : String
  pub config_hash : String

-- One constructor for each `errors.New` of provenance.go.
pub data ProvenanceError : Type 0 where
  nil_record no_candidate_version no_dataset_checksum no_config_hash no_job_id no_artifact_uri
        no_artifact_checksum validation_not_passed shadow_not_passed no_approval_actor
        no_approved_at :
      ProvenanceError

-- One constructor for each `fmt.Errorf` of model_registry.go.
pub data RegistryError : Type 0 where
  empty_version : RegistryError
  already_registered : String → RegistryError
  not_found : String → RegistryError
  no_provenance : String → RegistryError
  bad_percentage : RegistryError
  promotion_blocked : ProvenanceError → RegistryError
  canary_blocked : ProvenanceError → RegistryError

-- What an operation returns besides the registry: `nil`, or an error.
pub data Result (A : Type 0) : Type 0 where
  ok : A → Result A
  err : RegistryError → Result A
