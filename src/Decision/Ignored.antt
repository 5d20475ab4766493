-- ===== src/Decision/Ignored.antt =====
-- What does not count in orchestrator.go.
use ropus.Common.{
  ℕ, ◌≡◌, ◌∙◌, sym, ap, refl, String, ◌||◌, Bool, false, Option, none, some, List, [], ◌∷◌, ◌++◌,
  Bool-cases, inl, inr, arith,
}
use ropus.Rollout.Float.{Floats}
use ropus.Rollout.Router.{CanaryRouter, ModelRoute, route_legacy, route_candidate, route}
use ropus.Decision.Signals.{
  Findings, raised, with_codes, early_signals, hard_threat_score, Hit, is_hard, run_hits,
}
use ropus.Decision.Pipeline.{
  MlPredictResponse, MlShadowPredictResponse, Evidence, legacy_of, after_failure, on_legacy,
  on_candidate, ask_model, infer, score, choose, decide,
}

-- The rules force the same, and leave the same score, whatever the codes.
run_hits_same :
    (hits : List (Option Hit)) (f g : Findings)
    → f.risk_score ≡ g.risk_score
    → ((run_hits hits f).forced ≡ (run_hits hits g).forced)
      × ((run_hits hits f).findings.risk_score ≡ (run_hits hits g).findings.risk_score)
unfolding run_hits
run_hits_same [] f g e = (refl, e)
run_hits_same (none ∷ hs) f g e = run_hits_same hs f g e
run_hits_same (some h ∷ hs) f g e = elim (Bool-cases (is_hard h.action)) [
  | inl hard ↦ rw hard (refl, refl)
  | inr soft ↦
      rw soft (run_hits_same hs (with_codes (h.code ∷ []) f) (with_codes (h.code ∷ []) g) e)
]

run_hits_forced :
    (hits : List (Option Hit)) (f g : Findings)
    → (run_hits hits f).forced ≡ (run_hits hits g).forced
unfolding run_hits
run_hits_forced [] f g = refl
run_hits_forced (none ∷ hs) f g = run_hits_forced hs f g
run_hits_forced (some h ∷ hs) f g =
    let e = run_hits_forced hs (with_codes (h.code ∷ []) f) (with_codes (h.code ∷ []) g) in
    ground arith

run_hits_soft :
    (before : List (Option Hit)) (h : Hit) (after : List (Option Hit)) (f : Findings)
    → is_hard h.action ≡ false
    → ((run_hits (before ++ (some h ∷ after)) f).forced ≡ (run_hits (before ++ after) f).forced)
      × ((run_hits (before ++ (some h ∷ after)) f).findings.risk_score
          ≡ (run_hits (before ++ after) f).findings.risk_score)
unfolding run_hits
run_hits_soft [] h after f soft = rw soft (run_hits_same after (with_codes (h.code ∷ []) f) f refl)
run_hits_soft (none ∷ before) h after f soft = run_hits_soft before h after f soft
run_hits_soft (some b ∷ before) h after f soft = elim (Bool-cases (is_hard b.action)) [
  | inl hard ↦ rw hard (refl, refl)
  | inr also ↦ rw also (run_hits_soft before h after (with_codes (b.code ∷ []) f) soft)
]

module _ (fl : Floats) (is_finite : fl.F → Bool) (digest : String → ℕ) where
  open fl use {F}

  after_failure_same :
      (e : Evidence F) (m : Option MlPredictResponse) (d : Bool) (r : CanaryRouter F)
      (f g : Findings)
      → f.risk_score ≡ g.risk_score
      → (after_failure e m d r f).findings.risk_score
        ≡ (after_failure e m d r g).findings.risk_score
  after_failure_same e none d r f g q = rw q refl
  after_failure_same e (some m) d r f g q = rw q refl

  on_legacy_same :
      (e : Evidence F) (m : Option MlPredictResponse) (d : Bool) (r : CanaryRouter F)
      (f g : Findings)
      → (on_legacy e m d r f).findings.risk_score ≡ (on_legacy e m d r g).findings.risk_score
  on_legacy_same e none d r f g = refl
  on_legacy_same e (some m) d r f g = refl

  on_candidate_same :
      (e : Evidence F) (c : Option MlShadowPredictResponse) (d : Bool) (r : CanaryRouter F)
      (f g : Findings)
      → f.risk_score ≡ g.risk_score
      → (on_candidate fl is_finite digest e c d r f).findings.risk_score
        ≡ (on_candidate fl is_finite digest e c d r g).findings.risk_score
  on_candidate_same e none d r f g q = after_failure_same e (legacy_of e) d _ _ _ q
  on_candidate_same e (some c) d r f g q = refl

  ask_model_same :
      (e : Evidence F) (k : ModelRoute) (d : Bool) (r : CanaryRouter F) (f g : Findings)
      → f.risk_score ≡ g.risk_score
      → (ask_model fl is_finite digest e k d r f).findings.risk_score
        ≡ (ask_model fl is_finite digest e k d r g).findings.risk_score
  unfolding ask_model
  ask_model_same e route_legacy d r f g q = on_legacy_same e (legacy_of e) d r f g
  ask_model_same e route_candidate d r f g q = ground (
    arith,
    on_candidate_same e e.candidate_answer d r f g q,
    on_legacy_same e (legacy_of e) d r f g,
  )

  score_same :
      (e : Evidence F) (d : Bool) (r : CanaryRouter F) (f g : Findings) (forced : Option String)
      → f.risk_score ≡ g.risk_score
      → (score fl is_finite digest e d r f forced).findings.risk_score
        ≡ (score fl is_finite digest e d r g forced).findings.risk_score
  unfolding score infer
  score_same e d r f g (some a) q = q
  score_same e d r f g none q =
      ap (raised (hard_threat_score e.threat e.graph)) (ask_model_same e _ d r f g q)

  -- A rule that matches and asks for review or for a step-up changes neither the recommended action
  -- nor the score, wherever it stands among the active rules: only the rules that decline or allow
  -- count.
  pub soft_rules_ignored :
      (e : Evidence F) (before : List (Option Hit)) (h : Hit) (after : List (Option Hit))
      (r : CanaryRouter F)
      → is_hard h.action ≡ false
      → ((decide fl is_finite digest e (before ++ (some h ∷ after)) r).action
          ≡ (decide fl is_finite digest e (before ++ after) r).action)
        × ((decide fl is_finite digest e (before ++ (some h ∷ after)) r).risk_score
            ≡ (decide fl is_finite digest e (before ++ after) r).risk_score)
  unfolding decide
  soft_rules_ignored e before h after r soft =
      let f = early_signals e.is_invalid_device e.threat e.graph in
      let (u, v) = run_hits_soft before h after f soft in
      let v1 = run_hits (before ++ (some h ∷ after)) f in
      let v2 = run_hits (before ++ after) f in
      let q =
        score_same e (e.is_invalid_device || e.is_store_degraded) r
          (with_codes e.feature_codes v1.findings) (with_codes e.feature_codes v2.findings)
          v2.forced v in
      (rw u (ap (λ x. choose fl is_finite digest x e.amount v2.forced) q), rw (u, decide) q)

  legacy_scored :
      (e : Evidence F) (hits : List (Option Hit)) (r : CanaryRouter F) (m : MlPredictResponse)
      → (run_hits hits (early_signals e.is_invalid_device e.threat e.graph)).forced ≡ none
      → route digest e.tenant_id e.transaction_id r ≡ route_legacy
      → legacy_of e ≡ some m
      → let risk = raised (hard_threat_score e.threat e.graph) m.risk_score in
        ((decide fl is_finite digest e hits r).action
          ≡ choose fl is_finite digest risk e.amount none)
        × ((decide fl is_finite digest e hits r).risk_score ≡ risk)
  unfolding decide score infer ask_model
  legacy_scored e hits r m free legacy answer =
      (rw (free, legacy, answer) refl, rw (free, decide, legacy, answer) refl)

  -- Signals that the legacy answer wipes out. On the legacy route, when the model answers and no rule
  -- forces an action, neither the fraud ring, the compromised device nor the number of connected
  -- accounts has any influence on the recommended action and the score.
  pub signals_overwritten :
      (e : Evidence F) (hits : List (Option Hit)) (r : CanaryRouter F) (m : MlPredictResponse)
      (is_compromised_dev fraud_ring_detected : Bool) (connected_account_count : ℕ)
      → (run_hits hits (early_signals e.is_invalid_device e.threat e.graph)).forced ≡ none
      → route digest e.tenant_id e.transaction_id r ≡ route_legacy
      → legacy_of e ≡ some m
      → let e' : Evidence F = record e {
        threat = record (e.threat) { is_compromised_dev = is_compromised_dev };
        graph = record (e.graph) {
          fraud_ring_detected = fraud_ring_detected;
          connected_account_count = connected_account_count;
        };
      } in
        ((decide fl is_finite digest e' hits r).action
          ≡ (decide fl is_finite digest e hits r).action)
        × ((decide fl is_finite digest e' hits r).risk_score
            ≡ (decide fl is_finite digest e hits r).risk_score)
  unfolding hard_threat_score
  signals_overwritten e hits r m c b n free legacy answer =
      let e' : Evidence F = record e {
        threat = record (e.threat) { is_compromised_dev = c };
        graph = record (e.graph) { fraud_ring_detected = b; connected_account_count = n };
      } in
      let same =
        run_hits_forced hits (early_signals e.is_invalid_device e'.threat e'.graph)
          (early_signals e.is_invalid_device e.threat e.graph) in
      let (a, s) = legacy_scored e hits r m free legacy answer in
      let (a', s') = legacy_scored e' hits r m (same ∙ free) legacy answer in
      (a' ∙ sym a, s' ∙ sym s)
