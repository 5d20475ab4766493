-- ===== src/Examples/Registry.antt =====
-- Tests of model_registry.go, provenance.go and artifact_verifier.go.
use ropus.Common.{
  ◌≡◌, ◌≢◌, ◌↔◌, refl, str_eq, eq_iff, true, Option, none, some, List, [], ◌∷◌, arith,
  if◌then◌else◌,
}
use ropus.Common.Dict.{lookup}
use ropus.Artifact.{Disk, inaccessible, regular, verify_artifact, mismatch}
use ropus.Artifact.Accepts.{outcome, IsAcceptable, verify_artifact_iff}
use ropus.Registry.Types.{
  ModelProvenance, RegisteredModel, ModelRegistry, ModelCandidate, err, not_found,
}
use ropus.Registry.Ops.{
  new_model_registry, register_candidate, registered, attach_provenance, promote_model,
  production_version,
}
use ropus.Registry.Ops.Distinct.{register_candidate-IsMap}
use ropus.Registry.Ops.Safety.{new_model_registry-IsSafe}
use ropus.Registry.Reconcile.{reconcile}
use ropus.Registry.Reconcile.Safe.{IsSafe, reconcile-IsSafe}
use ropus.Registry.Reconcile.Settled.{reconcile_idempotent}
use ropus.Registry.History.{Op, register, promote, roll_back, apply, run, Avoids, run-IsSafe}

abbrev disk : Disk
disk path = if str_eq path "/models/a.onnx" then regular 100 (some "c0ffee") else inaccessible

accepts_intact : (verify_artifact disk 0 "m" "v" "file:///models/a.onnx" "c0ffee").1 ≡ none
unfolding verify_artifact
accepts_intact = refl

rejects_changed :
    (verify_artifact disk 0 "m" "v" "file:///models/a.onnx" "badc0de").1
    ≡ some (mismatch "c0ffee" "badc0de")
unfolding verify_artifact
rejects_changed = refl

verify_artifact_iff_example :
    let v = outcome disk 0 "m" "v" "file:///models/a.onnx" "c0ffee" in
    ((v.1 ≡ none) ↔ IsAcceptable disk 0 "m" "v" "file:///models/a.onnx" "c0ffee")
    × (v.1 ≡ none → v.0.passed ≡ true)
verify_artifact_iff_example = verify_artifact_iff disk 0 "m" "v" "file:///models/a.onnx" "c0ffee"

abbrev fresh : ModelRegistry
fresh = new_model_registry 1

abbrev newcomer : ModelCandidate
newcomer = record {
  model_id = "id";
  version = "v9";
  parent_model_version = "v8";
  feature_contract = "f";
  calibration_version = "c";
  training_job_id = "j";
  dataset_id = "d";
  config_hash = "h";
}

abbrev record_of_v9 : ModelProvenance
record_of_v9 = record {
  dataset_uri = "s3://d";
  dataset_checksum = "d1";
  dataset_version = "1";
  dataset_row_count = 10;
  training_config_hash = "h";
  training_job_id = "j";
  parent_model_version = "v8";
  candidate_version = "v9";
  artifact_uri = "file:///models/a.onnx";
  artifact_checksum = "c0ffee";
  validation_report_hash = "";
  validation_passed = true;
  shadow_evaluation_id = "";
  shadow_passed = true;
  approval_actor = "alice";
  approval_reason = "ok";
  approved_at = some 5;
  canary_stage_completed = 0;
  promoted_at = none;
  created_at = 1;
}

-- A new registry with the newcomer, and the same once its provenance is attached.
abbrev listed : ModelRegistry
listed = (register_candidate newcomer "file:///models/a.onnx" "c0ffee" 2 fresh).1

abbrev traced : ModelRegistry
traced = (attach_provenance "v9" (some record_of_v9) listed).1

abbrev the_newcomer : Option ModelProvenance → RegisteredModel
the_newcomer p = record (registered newcomer "file:///models/a.onnx" "c0ffee" 2) { provenance = p }

traced_newcomer : lookup "v9" traced.models ≡ some (the_newcomer (some record_of_v9))
unfolding new_model_registry register_candidate attach_provenance
traced_newcomer = refl

listed_newcomer : lookup "v9" listed.models ≡ some (the_newcomer none)
unfolding new_model_registry register_candidate
listed_newcomer = refl

promote_unknown : (promote_model "v7" 7 fresh).0 ≡ err (not_found "v7")
unfolding new_model_registry promote_model
promote_unknown = refl

reconcile-IsSafe_example : IsSafe (reconcile disk 9 listed).1
reconcile-IsSafe_example = reconcile-IsSafe disk 9 listed (
    register_candidate-IsMap fresh (new_model_registry-IsSafe 1).distinct newcomer
      "file:///models/a.onnx" "c0ffee" 2)

reconcile_idempotent_example :
    (reconcile disk 10 (reconcile disk 9 fresh).1).1 ≡ (reconcile disk 9 fresh).1
reconcile_idempotent_example =
    reconcile_idempotent disk 9 10 fresh (new_model_registry-IsSafe 1).distinct

abbrev life : List Op
life =
    register newcomer "file:///models/a.onnx" "c0ffee" 2
    ∷ promote "v9" 3
    ∷ roll_back production_version
    ∷ []

versions_differ : production_version ≢ "v9"
versions_differ e = ground (arith, eq_iff production_version "v9", e)

life-Avoids : Avoids life fresh
unfolding apply new_model_registry register_candidate promote_model
life-Avoids = (λ e. e, (λ e. e, (λ e. versions_differ e, tt)))

run-IsSafe_example : IsSafe (run life fresh)
run-IsSafe_example = run-IsSafe life fresh life-Avoids (new_model_registry-IsSafe 1)
