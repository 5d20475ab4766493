-- ===== src/Registry/Ops/Promotion.antt =====
-- `PromoteModel`, `RegisterCandidate` and `PromoteConditionalCanary`: when they succeed, and what
-- they change.
use ropus.Common.{
  ℕ, ◌≡◌, ◌≢◌, ◌↔◌, ◌⊎◌, inl, inr, refl, String, str_eq, eq_iff, true, false, none, some, arith,
  Option-cases, Bool-cases,
}
use ropus.Common.Dict.{lookup, lookup-insert}
use ropus.Registry.Types.{
  ModelProvenance, RegisteredModel, ModelRegistry, ModelCandidate, ok, candidate,
}
use ropus.Registry.Provenance.{IsTraceable, validate_provenance_chain_iff}
use ropus.Registry.Ops.{register_candidate, promote_model, registered}

-- A candidate with a provenance record is promoted exactly when every step of the record is
-- filled in and validation and shadow evaluation were passed.
pub promote_model_iff :
    (v : String) (now : ℕ) (r : ModelRegistry) {m : RegisteredModel} {p : ModelProvenance}
    → lookup v r.models ≡ some m
    → m.provenance ≡ some p
    → ((promote_model v now r).0 ≡ ok tt) ↔ (IsTraceable p × (p.shadow_passed ≡ true))
unfolding promote_model
promote_model_iff v now r {m} {p} e ep =
    let iff = validate_provenance_chain_iff p in
    (λ h. iff.0 (ground arith), λ h. let q = iff.1 h in ground arith)

-- A candidate with no provenance record is promoted with no check at all.
pub promote_model-no_provenance :
    (v : String) (now : ℕ) (r : ModelRegistry) {m : RegisteredModel}
    → lookup v r.models ≡ some m
    → m.provenance ≡ none
    → (promote_model v now r).0 ≡ ok tt
unfolding promote_model
promote_model-no_provenance v now r e ep = rw e (rw ep refl)

-- A registration never touches a version that is there, and either fails and changes nothing or
-- adds an inactive model in the state `candidate`, with the artifact that was given, under a
-- version that is new and not empty.
pub register_candidate_lem :
    (c : ModelCandidate) (uri sum : String) (now : ℕ) (r : ModelRegistry)
    → let (res, r') = register_candidate c uri sum now r in
      ((res ≢ ok tt) × (r' ≡ r))
      ⊎ ((c.version ≢ "")
          × (lookup c.version r.models ≡ none)
          × ((m : RegisteredModel) × (lookup c.version r'.models ≡ some m)
              × (m.lifecycle_state ≡ candidate)
              × (m.artifact_uri ≡ uri)
              × (m.artifact_checksum ≡ sum)
              × (m.is_production_active ≡ false))
          × ((ver : String) → ver ≢ c.version → lookup ver r'.models ≡ lookup ver r.models))
unfolding register_candidate
register_candidate_lem c uri sum now r = elim (Bool-cases (str_eq c.version "")) [
  | inl blank ↦ rw blank (inl (λ e. cc, refl))
  | inr named ↦ elim (Option-cases (lookup c.version r.models)) [
    | inl new ↦
        rw (named, new)
          (inr (
            ground (arith, eq_iff c.version ""),
            refl,
            (
              registered c uri sum now,
              ground (
                arith,
                eq_iff c.version c.version,
                lookup-insert c.version c.version (registered c uri sum now) r.models,
              ),
              refl,
              refl,
              refl,
              refl,
            ),
            λ ver ne. ground (
              arith,
              eq_iff c.version ver,
              lookup-insert c.version ver (registered c uri sum now) r.models,
            ),
          ))
    | inr (m, e) ↦ rw (named, e) (inl (λ p. cc, refl))
  ]
]
