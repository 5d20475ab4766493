-- ===== src/Registry/Provenance.antt =====
-- provenance.go: the checks of a provenance record before promotion.
use ropus.Common.{
  ℕ, ◌≡◌, ◌≢◌, ◌↔◌, String, str_eq, eq_iff, Bool, true, false, not, Option, none, some, arith,
}
use ropus.Registry.Types.{
  ModelProvenance, ProvenanceError, nil_record, no_candidate_version, no_dataset_checksum,
  no_config_hash, no_job_id, no_artifact_uri, no_artifact_checksum, validation_not_passed,
  shadow_not_passed, no_approval_actor, no_approved_at,
}

-- A check that returns an error, and what follows it.
infixr 2 ◌or_else◌
abbrev ◌or_else◌ : Option ProvenanceError → Option ProvenanceError → Option ProvenanceError
none or_else k = k
some e or_else k = some e

abbrev fails_if : Bool → ProvenanceError → Option ProvenanceError
fails_if true e = some e
fails_if false e = none

abbrev is_empty : String → Bool
is_empty s = str_eq s ""

abbrev missing : Option ℕ → Bool
missing none = true
missing (some _) = false

-- `none` is the nil error.
check_provenance_chain : ModelProvenance → Option ProvenanceError
check_provenance_chain p =
    fails_if (is_empty p.candidate_version) no_candidate_version
    or_else fails_if (is_empty p.dataset_checksum) no_dataset_checksum
    or_else fails_if (is_empty p.training_config_hash) no_config_hash
    or_else fails_if (is_empty p.training_job_id) no_job_id
    or_else fails_if (is_empty p.artifact_uri) no_artifact_uri
    or_else fails_if (is_empty p.artifact_checksum) no_artifact_checksum
    or_else fails_if (not p.validation_passed) validation_not_passed
    or_else fails_if (not p.shadow_passed) shadow_not_passed
    or_else fails_if (is_empty p.approval_actor) no_approval_actor
    or_else fails_if (missing p.approved_at) no_approved_at

unfoldable pub validate_provenance_chain : Option ModelProvenance → Option ProvenanceError
unfolding check_provenance_chain
validate_provenance_chain none = some nil_record
validate_provenance_chain (some p) = check_provenance_chain p

check_conditional_promotion : ModelProvenance → Option ProvenanceError
check_conditional_promotion p =
    fails_if (is_empty p.candidate_version) no_candidate_version
    or_else fails_if (is_empty p.dataset_checksum) no_dataset_checksum
    or_else fails_if (is_empty p.training_config_hash) no_config_hash
    or_else fails_if (is_empty p.training_job_id) no_job_id
    or_else fails_if (is_empty p.artifact_uri) no_artifact_uri
    or_else fails_if (is_empty p.artifact_checksum) no_artifact_checksum
    or_else fails_if (not p.validation_passed) validation_not_passed
    or_else fails_if (is_empty p.approval_actor) no_approval_actor
    or_else fails_if (missing p.approved_at) no_approved_at

unfoldable pub validate_conditional_promotion_provenance :
    Option ModelProvenance → Option ProvenanceError
unfolding check_conditional_promotion
validate_conditional_promotion_provenance none = some nil_record
validate_conditional_promotion_provenance (some p) = check_conditional_promotion p

-- Every step that a production candidate has to be traceable through.
pub record IsTraceable (p : ModelProvenance) : Type 0 where
  pub has_version : p.candidate_version ≢ ""
  pub has_dataset : p.dataset_checksum ≢ ""
  pub has_config : p.training_config_hash ≢ ""
  pub has_job : p.training_job_id ≢ ""
  pub has_uri : p.artifact_uri ≢ ""
  pub has_checksum : p.artifact_checksum ≢ ""
  pub was_validated : p.validation_passed ≡ true
  pub has_actor : p.approval_actor ≢ ""
  pub was_approved : p.approved_at ≢ none

is_empty-false : (s : String) → s ≢ "" → is_empty s ≡ false
is_empty-false s h = ground (arith, eq_iff s "")

is_empty-ne : (s : String) → is_empty s ≡ false → s ≢ ""
is_empty-ne s h = ground (arith, eq_iff s "")

-- The chain is accepted exactly when every step is recorded and both evaluations were passed.
pub validate_provenance_chain_iff :
    (p : ModelProvenance)
    → (validate_provenance_chain (some p) ≡ none) ↔ (IsTraceable p × (p.shadow_passed ≡ true))
unfolding validate_provenance_chain
validate_provenance_chain_iff p = (
  λ h. (
    record {
      has_version = is_empty-ne _ (ground arith);
      has_dataset = is_empty-ne _ (ground arith);
      has_config = is_empty-ne _ (ground arith);
      has_job = is_empty-ne _ (ground arith);
      has_uri = is_empty-ne _ (ground arith);
      has_checksum = is_empty-ne _ (ground arith);
      was_validated = ground arith;
      has_actor = is_empty-ne _ (ground arith);
      was_approved = ground arith;
    },
    ground arith,
  ),
  λ h. ground (
    arith,
    is_empty-false _ h.0.has_version,
    is_empty-false _ h.0.has_dataset,
    is_empty-false _ h.0.has_config,
    is_empty-false _ h.0.has_job,
    is_empty-false _ h.0.has_uri,
    is_empty-false _ h.0.has_checksum,
    is_empty-false _ h.0.has_actor,
  ),
)
