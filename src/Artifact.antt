-- ===== src/Artifact.antt =====
-- Verification of model artifacts: backend/internal/riskengine/artifact_verifier.go, and
-- `resolveFilePath` of artifact_store.go.
pub mod Names
pub mod Accepts
use Prim.Native.String.{len, slice}
use ropus.Common.{
  ℕ, String, str_eq, starts_with, Bool, true, false, ◌&&◌, ◌||◌, not, Option, none, some, List, [],
  ◌∷◌, ltb, ◌==◌, if◌then◌else◌,
}

-- What the file system says of a path. The checksum is that of the content, and is missing where
-- the file cannot be opened or read.
pub data File : Type 0 where
  inaccessible : File
  directory : File
  regular : ℕ → Option String → File

abbrev pub Disk : Type 0
Disk = String → File

pub data VerifyError : Type 0 where
  no_access is_directory is_empty unreadable : VerifyError
  mismatch : String → String → VerifyError

pub record CandidateArtifactRecord : Type 0 where
  pub model_id : String
  pub version : String
  pub artifact_path : String
  pub checksum_sha256 : String
  pub feature_contract : String
  pub input_features_count : ℕ
  pub file_size : ℕ
  pub verified_at : ℕ
  pub test_vector_passed : Bool
  pub passed : Bool
  pub violations : List VerifyError

unfoldable pub resolve_file_path : String → String
resolve_file_path uri =
    if ltb 7 (len uri) && starts_with uri "file://" then slice uri 7 (len uri) else uri

-- A return of the record with one more violation and the error that repeats it.
abbrev rejects :
    VerifyError → CandidateArtifactRecord → CandidateArtifactRecord × Option VerifyError
rejects e r = (record r { violations = e ∷ [] }, some e)

abbrev pub is_bundled : String → String → Bool
is_bundled path expected =
    (str_eq expected "verified_prod_25f_v3_sha256"
      || str_eq expected "verified_fallback_15f_v1_sha256")
    && starts_with path "/app/model"

-- The part after the file has been found to be a regular one.
verify_content :
    ℕ
    → Option String
    → String
    → CandidateArtifactRecord
    → CandidateArtifactRecord × Option VerifyError
verify_content size none expected r =
    let r' = record r { file_size = size } in
    if size == 0 then rejects is_empty r' else rejects unreadable r'
verify_content size (some computed) expected r =
    let r' = record r { file_size = size } in
    let r'' = record r' { checksum_sha256 = computed } in
    if size == 0
    then rejects is_empty r'
    else if not (str_eq expected "") && not (str_eq computed expected)
    then rejects (mismatch computed expected) r''
    else (record r'' { test_vector_passed = true; passed = true }, none)

verify_file : File → String → CandidateArtifactRecord → CandidateArtifactRecord × Option VerifyError
unfolding verify_content
verify_file inaccessible expected r = rejects no_access r
verify_file directory expected r = rejects is_directory r
verify_file (regular size checksum) expected r = verify_content size checksum expected r

unfoldable pub verify_artifact :
    Disk → ℕ → String → String → String → String → CandidateArtifactRecord × Option VerifyError
unfolding resolve_file_path verify_file
verify_artifact disk now id version path expected =
    let r : CandidateArtifactRecord = record {
      model_id = id;
      version = version;
      artifact_path = path;
      checksum_sha256 = "";
      feature_contract = "fraud-risk-25f-v2.5";
      input_features_count = 25;
      file_size = 0;
      verified_at = now;
      test_vector_passed = false;
      passed = false;
      violations = [];
    } in
    if is_bundled (resolve_file_path path) expected
    then (record r { passed = true; test_vector_passed = true }, none)
    else verify_file (disk (resolve_file_path path)) expected r
