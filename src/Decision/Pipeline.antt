-- ===== src/Decision/Pipeline.antt =====
-- `Evaluate` of orchestrator.go from the rules to the recommended action. The reports, the active
-- rules, the context in which they are evaluated, the reason codes that the feature stores add and
-- the answers of the ML service are given; a canary router is present. The latency of a candidate is
-- measured once.
use ropus.Common.{
  ℕ, String, str_eq, Bool, true, ◌||◌, Option, none, some, List, [], ◌∷◌, ◌++◌, map, if◌then◌else◌,
  leb,
}
use ropus.Rollout.Float.{Floats}
use ropus.Rollout.Router.{
  CanaryRouter, ModelRoute, route_legacy, route_candidate, route, record_legacy_request,
  record_candidate_request, record_candidate_success, record_candidate_fallback,
}
use ropus.Rules.Value.{Fields, Formats}
use ropus.Rules.Ast.{AstNode}
use ropus.Rules.Service.{Rule}
use ropus.Rules.Service.Parse.{RuleDefinition}
use ropus.Decision.Cost.{
  allow, step_up, review, decline, default_economic_policy_config, evaluate_cost_sensitive_decision,
}
use ropus.Decision.Signals.{
  ThreatReport, EntityGraphEvidence, VelocityMetrics, Findings, raised, with_codes, early_signals,
  calculate_fallback_risk_score, hard_threat_score, Hit, run_hits, hit,
}

pub record MlPredictResponse : Type 0 where
  pub risk_score : ℕ
  pub reason_codes : List String

pub record MlShadowPredictResponse : Type 0 where
  pub risk_score : ℕ
  pub shadow_decision : String

-- What a transaction is decided on. An answer that is none is an error.
pub record Evidence (F : Type 0) : Type 0 where
  pub tenant_id : String
  pub transaction_id : String
  pub amount : ℕ
  pub now : ℕ
  pub candidate_latency : F
  pub is_invalid_device : Bool
  pub is_store_degraded : Bool
  pub feature_codes : List String
  pub threat : ThreatReport
  pub graph : EntityGraphEvidence
  pub velocity : Option VelocityMetrics
  pub has_ml_client : Bool
  pub candidate_answer : Option MlShadowPredictResponse
  pub legacy_answer : Option MlPredictResponse

pub record Scored (F : Type 0) : Type 0 where
  pub findings : Findings
  pub is_degraded : Bool
  pub router : CanaryRouter F

pub record Decision (F : Type 0) : Type 0 where
  pub action : String
  pub risk_score : ℕ
  pub reason_codes : List String
  pub is_degraded : Bool
  pub router : CanaryRouter F

-- `callLegacyML`
abbrev pub legacy_of : {F : Type 0} → Evidence F → Option MlPredictResponse
legacy_of e = if e.has_ml_client then e.legacy_answer else none

abbrev pub fallback_of : {F : Type 0} → Evidence F → ℕ
fallback_of e = calculate_fallback_risk_score e.amount e.velocity e.threat e.graph

module _ {F : Type 0} where
  -- After the candidate has failed, the legacy answer can only raise the score.
  abbrev pub after_failure :
      Evidence F → Option MlPredictResponse → Bool → CanaryRouter F → Findings → Scored F
  after_failure e none d r f = record {
    findings = record {
      risk_score = raised (fallback_of e) f.risk_score;
      reason_codes = f.reason_codes ++ ("ML_SERVICE_DEGRADED" ∷ []);
    };
    is_degraded = true;
    router = r;
  }
  after_failure e (some m) d r f = record {
    findings = record {
      risk_score = raised m.risk_score f.risk_score;
      reason_codes = f.reason_codes ++ m.reason_codes;
    };
    is_degraded = d;
    router = r;
  }

  -- On the legacy route, the answer replaces the score.
  abbrev pub on_legacy :
      Evidence F → Option MlPredictResponse → Bool → CanaryRouter F → Findings → Scored F
  on_legacy e none d r f = record {
    findings = record {
      risk_score = fallback_of e;
      reason_codes = f.reason_codes ++ ("ML_SERVICE_DEGRADED" ∷ []);
    };
    is_degraded = true;
    router = record_legacy_request r;
  }
  on_legacy e (some m) d r f = record {
    findings = record {
      risk_score = m.risk_score;
      reason_codes = f.reason_codes ++ m.reason_codes;
    };
    is_degraded = d;
    router = record_legacy_request r;
  }

module _ (fl : Floats) (is_finite : fl.F → Bool) (digest : String → ℕ) where
  open fl use {F, of_int, literal, div, mul}

  abbrev pub on_candidate :
      Evidence F → Option MlShadowPredictResponse → Bool → CanaryRouter F → Findings → Scored F
  on_candidate e none d r f =
      after_failure e (legacy_of e) d
        (record_candidate_fallback fl e.now e.candidate_latency (record_candidate_request r))
        (with_codes ("CANARY_FALLBACK_TO_LEGACY" ∷ []) f)
  on_candidate e (some c) d r f = record {
    findings = record {
      risk_score = c.risk_score;
      reason_codes = f.reason_codes ++ ("MODEL_SIGNAL:CANDIDATE_25F_ACTIVE" ∷ []);
    };
    is_degraded = d;
    router =
        record_candidate_success fl e.now e.candidate_latency c.shadow_decision
          (record_candidate_request r);
  }

  unfoldable pub ask_model : Evidence F → ModelRoute → Bool → CanaryRouter F → Findings → Scored F
  unfolding record_candidate_success record_candidate_fallback record_candidate_request
      record_legacy_request
  ask_model e route_legacy d r f = on_legacy e (legacy_of e) d r f
  ask_model e route_candidate d r f =
      if e.has_ml_client
      then on_candidate e e.candidate_answer d r f
      else on_legacy e (legacy_of e) d r f

  -- The third step, where no rule has forced an action.
  unfoldable pub infer : Evidence F → Bool → CanaryRouter F → Findings → Scored F
  unfolding ask_model route hard_threat_score
  infer e d r f =
      let s = ask_model e (route digest e.tenant_id e.transaction_id r) d r f in
      record s {
        findings = record (s.findings) {
          risk_score = raised (hard_threat_score e.threat e.graph) s.findings.risk_score;
        };
      }

  unfoldable pub score : Evidence F → Bool → CanaryRouter F → Findings → Option String → Scored F
  unfolding infer
  score e d r f none = infer e d r f
  score e d r f (some action) = record { findings = f; is_degraded = d; router = r }

  -- The economic decision elevates an action, or allows.
  abbrev pub elevated : String → String
  elevated a = if str_eq a decline || str_eq a review || str_eq a step_up then a else allow

  unfoldable pub economic_action : ℕ → ℕ → String
  unfolding evaluate_cost_sensitive_decision default_economic_policy_config
  economic_action risk amount =
      (evaluate_cost_sensitive_decision fl is_finite (div (of_int risk) (literal 100 1))
        (of_int amount) (default_economic_policy_config fl is_finite)).optimal_action

  unfoldable pub choose : ℕ → ℕ → Option String → String
  unfolding economic_action
  choose risk amount (some action) = action
  choose risk amount none =
      if leb 85 risk
      then decline
      else if leb 65 risk
      then review
      else if leb 45 risk
      then step_up
      else elevated (economic_action risk amount)

  unfoldable pub decide : Evidence F → List (Option Hit) → CanaryRouter F → Decision F
  unfolding early_signals run_hits score choose
  decide e hits r =
      let v = run_hits hits (early_signals e.is_invalid_device e.threat e.graph) in
      let degraded = e.is_invalid_device || e.is_store_degraded in
      let s = score e degraded r (with_codes e.feature_codes v.findings) v.forced in
      record {
        action = choose s.findings.risk_score e.amount v.forced;
        risk_score = s.findings.risk_score;
        reason_codes = s.findings.reason_codes;
        is_degraded = s.is_degraded;
        router = s.router;
      }

module _ (fl : Floats) (is_finite : fl.F → Bool) (digest : String → ℕ) (fm : Formats)
    (unmarshal_rule : String → Option (RuleDefinition fm.F))
    (unmarshal_node : String → Option (AstNode fm.F)) where
  -- The decision under the active rules of the tenant.
  unfoldable pub recommend :
      Evidence fl.F → Fields fm.F → List Rule → CanaryRouter fl.F → Decision fl.F
  unfolding decide hit
  recommend e ctx active_rules r =
      decide fl is_finite digest e (map (hit fm unmarshal_rule unmarshal_node ctx) active_rules) r
