-- ===== src/Examples/Decision.antt =====
-- Tests of orchestrator.go and cost_policy.go, over natural numbers of hundredths as floats.
use ropus.Common.{
  ℕ, ◌≡◌, ◌≢◌, inl, inr, refl, String, Bool, true, false, none, some, [], ◌∷◌, arith,
}
use ropus.Rollout.Router.{route_legacy, route, new_canary_router}
use ropus.Rollout.Breaker.{new_circuit_breaker}
use ropus.Decision.Cost.{allow, review, decline}
use ropus.Decision.Signals.{
  ThreatReport, EntityGraphEvidence, early_signals, calculate_fallback_risk_score, Hit, is_hard,
  run_hits,
}
use ropus.Decision.Pipeline.{MlPredictResponse, Evidence, decide, score, infer, ask_model, choose}
use ropus.Decision.Threats.{threat_declines}
use ropus.Decision.Ignored.{soft_rules_ignored, signals_overwritten}
use ropus.Examples.Rollout.{hundredths, router}

abbrev finite : ℕ → Bool
finite _ = true

abbrev hash : String → ℕ
hash _ = 99

abbrev quiet : ThreatReport
quiet = record {
  is_malicious_ip = false;
  is_compromised_dev = false;
  is_proxy_datacenter = false;
  is_impossible_trip = false;
}

abbrev alone : EntityGraphEvidence
alone = record {
  connected_account_count = 1;
  fraud_nodes_count = 0;
  fraud_ring_detected = false;
  degree_centrality = 1;
}

abbrev low : MlPredictResponse
low = record { risk_score = 5; reason_codes = [] }

-- A small transaction that the legacy model finds harmless.
abbrev evidence : Evidence ℕ
evidence = record {
  tenant_id = "acme";
  transaction_id = "txn-1";
  amount = 10;
  now = 0;
  candidate_latency = 0;
  is_invalid_device = false;
  is_store_degraded = false;
  feature_codes = [];
  threat = quiet;
  graph = alone;
  velocity = none;
  has_ml_client = true;
  candidate_answer = none;
  legacy_answer = some low;
}

-- The fallback score of a quiet transaction, and its bound.
fallback_quiet : calculate_fallback_risk_score 10 none quiet alone ≡ 15
unfolding calculate_fallback_risk_score
fallback_quiet = refl

abbrev from_bad_address : Evidence ℕ
from_bad_address = record evidence { threat = record quiet { is_malicious_ip = true } }

abbrev noted : Hit
noted = record { action = review; code = "VELOCITY" }

nothing_forced :
    (run_hits
      (some noted ∷ [])
      (early_signals false from_bad_address.threat from_bad_address.graph)).forced
    ≢ some allow
unfolding run_hits early_signals
nothing_forced = ground arith

threat_declines_example :
    (decide hundredths finite hash from_bad_address (some noted ∷ []) router).action ≡ decline
threat_declines_example =
    threat_declines hundredths finite hash from_bad_address (some noted ∷ []) router
      (inr (inl refl)) nothing_forced

noted-IsSoft : is_hard noted.action ≡ false
noted-IsSoft = refl

soft_rules_ignored_example :
    ((decide hundredths finite hash evidence (none ∷ some noted ∷ []) router).action
      ≡ (decide hundredths finite hash evidence (none ∷ []) router).action)
    × ((decide hundredths finite hash evidence (none ∷ some noted ∷ []) router).risk_score
        ≡ (decide hundredths finite hash evidence (none ∷ []) router).risk_score)
soft_rules_ignored_example =
    soft_rules_ignored hundredths finite hash evidence (none ∷ []) noted [] router noted-IsSoft

free : (run_hits [] (early_signals false quiet alone)).forced ≡ none
unfolding run_hits
free = refl

to_legacy : route hash "acme" "txn-1" router ≡ route_legacy
unfolding route new_canary_router new_circuit_breaker
to_legacy = refl

signals_overwritten_example :
    let ringed : Evidence ℕ = record evidence {
      threat = record quiet { is_compromised_dev = true };
      graph = record alone { fraud_ring_detected = true; connected_account_count = 7 };
    } in
    ((decide hundredths finite hash ringed [] router).action
      ≡ (decide hundredths finite hash evidence [] router).action)
    × ((decide hundredths finite hash ringed [] router).risk_score
        ≡ (decide hundredths finite hash evidence [] router).risk_score)
signals_overwritten_example =
    signals_overwritten hundredths finite hash evidence [] router low true true 7 free to_legacy
      refl

-- A fraud ring of seven accounts is allowed.
ring_allowed :
    (decide hundredths finite hash
      (record evidence { graph = record alone { fraud_ring_detected = true } })
      []
      router).action
    ≡ allow
unfolding decide score infer ask_model run_hits early_signals choose new_canary_router
    new_circuit_breaker
ring_allowed = refl
