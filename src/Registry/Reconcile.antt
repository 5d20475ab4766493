-- ===== src/Registry/Reconcile.antt =====
-- `Reconcile` of model_registry.go: the four passes of the audit, in the order of the code. The
-- messages of the report are constructors with the values that are printed.
pub mod Safe
pub mod Prepared
pub mod Settled
use ropus.Common.{
  ℕ, ◌+◌, ◌<◌, String, str_eq, starts_with, Bool, true, false, ◌&&◌, ◌||◌, not, Option, none, some,
  List, [], ◌∷◌, ◌++◌, ltb, ◌==◌, if◌then◌else◌, length,
}
use ropus.Common.Dict.{Dict, lookup, contains, insert, update, range_update}
use ropus.Artifact.{Disk, CandidateArtifactRecord, VerifyError, verify_artifact}
use ropus.Registry.Types.{
  ModelLifecycleState, candidate, validated, shadow, failed, RegisteredModel, ModelRegistry,
}
use ropus.Registry.Ops.{baseline_fallback, fallback_version}

pub data Violation : Type 0 where
  fallback_missing : Violation
  production_missing production_corrupted candidate_corrupted : String → Violation
  extra_production : String → String → Violation

pub data Repair : Type 0 where
  restored_fallback : Repair
  activated_fallback failed_over deactivated activated marked_failed : String → Repair

-- The result record while it is filled, with the counter of the third pass.
pub record Tally : Type 0 where
  pub violations : List Violation
  pub repairs : List Repair
  pub repairs_made : ℕ
  pub prod_count : ℕ

pub record RegistryReconciliationResult : Type 0 where
  pub valid : Bool
  pub repairs_made : ℕ
  pub production_model_version : String
  pub fallback_model_version : String
  pub violations : List Violation
  pub repairs : List Repair

abbrev pub violated : Violation → Tally → Tally
violated v t = record t { violations = t.violations ++ v ∷ [] }

abbrev pub repaired : Repair → Tally → Tally
repaired a t = record t { repairs = t.repairs ++ a ∷ []; repairs_made = t.repairs_made + 1 }

abbrev pub set_active : Bool → RegisteredModel → RegisteredModel
set_active b m = record m { is_production_active = b }

abbrev pub State : Type 0
State = ModelRegistry × Tally

-- 1. The fallback model exists.
pub ensure_fallback : ℕ → State → State
ensure_fallback now (r, t) =
    if str_eq r.fallback_model "" || not (contains r.fallback_model r.models)
    then (
      record r {
        models = insert fallback_version (baseline_fallback now none) r.models;
        fallback_model = fallback_version;
      },
      repaired restored_fallback (violated fallback_missing t),
    )
    else (r, t)

-- `err != nil || rec == nil || !rec.Passed`, of a model whose artifact is a file.
abbrev pub did_fail : CandidateArtifactRecord × Option VerifyError → Bool
did_fail (rec, none) = not rec.passed
did_fail (rec, some _) = true

pub is_corrupted : Disk → ℕ → RegisteredModel → Bool
is_corrupted disk now m =
    not (str_eq m.artifact_uri "")
    && not (str_eq m.artifact_checksum "")
    && starts_with m.artifact_uri "file://"
    && did_fail (verify_artifact disk now m.model_id m.version m.artifact_uri m.artifact_checksum)

-- The production model's artifact failed its check: use the fallback, unless that is the same.
fail_over : State → State
fail_over (r, t) =
    let t' = violated (production_corrupted r.production_model) t in
    if not (str_eq r.fallback_model "") && not (str_eq r.fallback_model r.production_model)
    then (
      record r {
        production_model = r.fallback_model;
        models =
            update r.fallback_model (set_active true)
              (update r.production_model (set_active false) r.models);
      },
      repaired (failed_over r.fallback_model) t',
    )
    else (r, t')

-- 2. The production model exists, and its artifact is intact.
production_pass : Disk → ℕ → Option RegisteredModel → State → State
unfolding fail_over
production_pass disk now none (r, t) = (
  record r {
    production_model = r.fallback_model;
    models = update r.fallback_model (set_active true) r.models;
  },
  repaired (activated_fallback r.fallback_model)
      (violated (production_missing r.production_model) t),
)
production_pass disk now (some m) s = if is_corrupted disk now m then fail_over s else s

pub ensure_production : Disk → ℕ → State → State
unfolding production_pass
ensure_production disk now s = production_pass disk now (lookup s.0.production_model s.0.models) s

-- 3. Exactly one model is active in production.
abbrev pub visit_active : String → String → RegisteredModel → Tally → RegisteredModel × Tally
visit_active prod ver m t =
    if m.is_production_active
    then (if not (str_eq ver prod)
        then (
          set_active false m,
          repaired (deactivated ver) (violated (extra_production ver prod) t),
        )
        else (m, record t { prod_count = t.prod_count + 1 }))
    else (m, t)

-- The end of the third pass: nobody was active.
finish_single : ModelRegistry → Dict RegisteredModel × Tally → State
finish_single r (d, t) =
    if t.prod_count == 0 && contains r.production_model d
    then (
      record r { models = update r.production_model (set_active true) d },
      repaired (activated r.production_model) t,
    )
    else (record r { models = d }, t)

pub ensure_single : State → State
unfolding finish_single
ensure_single (r, t) =
    finish_single r
      (range_update (visit_active r.production_model) r.models (record t { prod_count = 0 }))

-- 4. Candidates whose artifact is damaged are marked.
abbrev pub is_pending : ModelLifecycleState → Bool
is_pending candidate = true
is_pending validated = true
is_pending shadow = true
is_pending _ = false

abbrev visit_candidate : Disk → ℕ → String → RegisteredModel → Tally → RegisteredModel × Tally
visit_candidate disk now ver m t =
    if is_pending m.lifecycle_state && is_corrupted disk now m
    then (
      record m { lifecycle_state = failed },
      repaired (marked_failed ver) (violated (candidate_corrupted ver) t),
    )
    else (m, t)

pub check_candidates : Disk → ℕ → State → State
unfolding range_update
check_candidates disk now (r, t) =
    let (models', t') = range_update (visit_candidate disk now) r.models t in
    (record r { models = models' }, t')

abbrev pub no_findings : Tally
no_findings = record { violations = []; repairs = []; repairs_made = 0; prod_count = 0 }

reconcile_state : Disk → ℕ → ModelRegistry → State
unfolding ensure_fallback ensure_production ensure_single check_candidates
reconcile_state disk now r =
    check_candidates disk now
      (ensure_single (ensure_production disk now (ensure_fallback now (r, no_findings))))

abbrev summary : State → RegistryReconciliationResult
summary (r, t) = record {
  valid = not (ltb 0 (length t.violations) && t.repairs_made == 0);
  repairs_made = t.repairs_made;
  production_model_version = r.production_model;
  fallback_model_version = r.fallback_model;
  violations = t.violations;
  repairs = t.repairs;
}

-- The error that the code returns is always nil.
pub reconcile : Disk → ℕ → ModelRegistry → RegistryReconciliationResult × ModelRegistry
unfolding reconcile_state
reconcile disk now r = let s = reconcile_state disk now r in (summary s, s.0)
