-- ===== src/Registry/Reconcile/Prepared.antt =====
-- What the passes of `Reconcile` establish about the fallback model, and what they leave alone.
use ropus.Common.{
  ℕ, ◌≡◌, refl, sym, ◌∙◌, inl, inr, String, str_eq, eq_iff, Bool, true, false, ◌||◌, not, Option,
  none, some, arith, map_option, Bool-cases,
}
use ropus.Common.Dict.{
  Dict, lookup, contains, update, contains-insert, contains-update, map_option-update,
  map_option-map_entries, range_update, range_update-map,
}
use ropus.Artifact.{Disk, CandidateArtifactRecord, VerifyError, verify_artifact}
use ropus.Artifact.Accepts.{verify_artifact_iff}
use ropus.Registry.Types.{RegisteredModel, ModelRegistry, failed}
use ropus.Registry.Ops.{fallback_version, baseline_fallback}
use ropus.Registry.Reconcile.{
  State, Tally, set_active, is_corrupted, did_fail, ensure_fallback, ensure_production,
  ensure_single, finish_single, visit_active,
}
use ropus.Registry.Reconcile.Safe.{mark, deactivate, visit_active-model}

-- The verdict on the artifact of a version, if it is registered.
abbrev pub verdict : Disk → ℕ → String → Dict RegisteredModel → Option Bool
verdict disk now ver d = map_option (is_corrupted disk now) (lookup ver d)

is_corrupted-set_active :
    (disk : Disk) (now : ℕ) (b : Bool) (m : RegisteredModel)
    → is_corrupted disk now (set_active b m) ≡ is_corrupted disk now m
unfolding is_corrupted
is_corrupted-set_active disk now b m = refl

pub is_corrupted-lifecycle :
    (disk : Disk) (now : ℕ) (m : RegisteredModel)
    → is_corrupted disk now (record m { lifecycle_state = failed }) ≡ is_corrupted disk now m
unfolding is_corrupted
is_corrupted-lifecycle disk now m = refl

did_fail_agree :
    (v w : CandidateArtifactRecord × Option VerifyError)
    → (v.1 ≡ none → w.1 ≡ none)
    → (w.1 ≡ none → v.1 ≡ none)
    → (v.1 ≡ none → v.0.passed ≡ true)
    → (w.1 ≡ none → w.0.passed ≡ true)
    → did_fail v ≡ did_fail w
did_fail_agree (a, none) (b, none) p q f g = ground (arith, f refl, g refl)
did_fail_agree (a, none) (b, some e) p q f g = cc (p refl)
did_fail_agree (a, some e) (b, none) p q f g = cc (q refl)
did_fail_agree (a, some e) (b, some e') p q f g = refl

-- The clock is only copied into the verification record.
pub is_corrupted_any_time :
    (disk : Disk) (now later : ℕ) (m : RegisteredModel)
    → is_corrupted disk later m ≡ is_corrupted disk now m
unfolding is_corrupted
is_corrupted_any_time disk now later m =
    let check =
      λ (t : ℕ). verify_artifact disk t m.model_id m.version m.artifact_uri m.artifact_checksum in
    let iff = λ (t : ℕ).
      verify_artifact_iff disk t m.model_id m.version m.artifact_uri m.artifact_checksum in
    rw (
      did_fail_agree (check later) (check now) (λ h. (iff now).0.1 ((iff later).0.0 h))
        (λ h. (iff later).0.1 ((iff now).0.0 h)) (iff later).1 (iff now).1)

-- What the first two passes have made sure of.
pub record IsPrepared (disk : Disk) (now : ℕ) (r : ModelRegistry) : Type 0 where
  pub named : str_eq r.fallback_model "" ≡ false
  pub fallback : contains r.fallback_model r.models ≡ true
  pub healthy :
      verdict disk now r.production_model r.models ≡ some true
      → str_eq r.fallback_model r.production_model ≡ true

-- What the last two passes leave alone.
pub record Alike (disk : Disk) (now : ℕ) (r r' : ModelRegistry) : Type 0 where
  pub same_production : r'.production_model ≡ r.production_model
  pub same_fallback : r'.fallback_model ≡ r.fallback_model
  pub same_verdict : (ver : String) → verdict disk now ver r'.models ≡ verdict disk now ver r.models

pub ensure_fallback-IsPrepared :
    (now : ℕ) (s : State)
    → (str_eq (ensure_fallback now s).0.fallback_model "" ≡ false)
      × (contains (ensure_fallback now s).0.fallback_model (ensure_fallback now s).0.models ≡ true)
unfolding ensure_fallback
ensure_fallback-IsPrepared now (r, t) =
    elim (Bool-cases (str_eq r.fallback_model "" || not (contains r.fallback_model r.models))) [
      | inl lost ↦ rw lost (
        refl,
        ground (
          arith,
          eq_iff fallback_version fallback_version,
          contains-insert fallback_version fallback_version (baseline_fallback now none) r.models,
        ),
      )
      | inr kept ↦ rw kept (ground arith, ground arith)
    ]

pub ensure_production-IsPrepared :
    (disk : Disk) (now : ℕ) (s : State)
    → str_eq s.0.fallback_model "" ≡ false
    → contains s.0.fallback_model s.0.models ≡ true
    → IsPrepared disk now (ensure_production disk now s).0
unfolding ensure_production
ensure_production-IsPrepared disk now (r, t) n c =
    let drop = update r.production_model (set_active false) r.models in
    record {
      named = ground arith;
      fallback = ground (
        arith,
        contains-update r.fallback_model r.fallback_model (set_active true) r.models,
        contains-update r.production_model r.fallback_model (set_active false) r.models,
        contains-update r.fallback_model r.fallback_model (set_active true) drop,
      );
      healthy = ground (arith, eq_iff r.fallback_model r.fallback_model);
    }

finish_single-Alike :
    (disk : Disk) (now : ℕ) (r : ModelRegistry) (d : Dict RegisteredModel) (t : Tally)
    → ((ver : String) → verdict disk now ver d ≡ verdict disk now ver r.models)
    → Alike disk now r (finish_single r (d, t)).0
unfolding finish_single
finish_single-Alike disk now r d t same = record {
  same_production = ground arith;
  same_fallback = ground arith;
  same_verdict = λ ver. ground (
    arith,
    same ver,
    map_option-update (is_corrupted disk now) r.production_model ver (set_active true) d
        (is_corrupted-set_active disk now true),
  );
}

deactivate-verdict :
    (disk : Disk) (now : ℕ) (prod ver : String) (m : RegisteredModel)
    → is_corrupted disk now (deactivate prod ver m) ≡ is_corrupted disk now m
deactivate-verdict disk now prod ver m = ground (arith, is_corrupted-set_active disk now false m)

pub mark-verdict :
    (disk : Disk) (now : ℕ) (ver : String) (m : RegisteredModel)
    → is_corrupted disk now (mark disk now ver m) ≡ is_corrupted disk now m
mark-verdict disk now ver m = ground (arith, is_corrupted-lifecycle disk now m)

pub ensure_single-Alike :
    (disk : Disk) (now : ℕ) (s : State) → Alike disk now s.0 (ensure_single s).0
unfolding ensure_single
ensure_single-Alike disk now (r, t) =
    let prod = r.production_model in
    let t' : Tally = record t { prod_count = 0 } in
    let swept = range_update (visit_active prod) r.models t' in
    finish_single-Alike disk now r swept.0 swept.1 λ ver.
      rw
        (range_update-map (visit_active prod) (deactivate prod) (visit_active-model prod) r.models
          t')
        (map_option-map_entries (is_corrupted disk now) ver (deactivate prod) r.models
          (deactivate-verdict disk now prod))

pub Alike-IsPrepared :
    (disk : Disk) (now : ℕ) (r r' : ModelRegistry)
    → Alike disk now r r'
    → IsPrepared disk now r
    → IsPrepared disk now r'
Alike-IsPrepared disk now r r' a p = record {
  named = rw a.same_fallback p.named;
  fallback = rw a.same_fallback (ground (arith, a.same_verdict r.fallback_model, p.fallback));
  healthy = λ h.
      rw (a.same_fallback, a.same_production)
        (p.healthy (sym (a.same_verdict r.production_model) ∙ (rw a.same_production at h)));
}
