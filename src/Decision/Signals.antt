-- ===== src/Decision/Signals.antt =====
-- The signals of orchestrator.go: of the threat report, of the graph and of the rules. Counts, scores
-- and amounts are natural numbers.
use ropus.Common.{
  ℕ, ◌+◌, String, ◌<>◌, str_eq, Bool, true, false, ◌||◌, Option, none, some, List, [], ◌∷◌, ◌++◌,
  if◌then◌else◌, ltb, leb,
}
use ropus.Rules.Value.{Fields, Formats, Outcome, answers, fails}
use ropus.Rules.Ast.{AstNode, evaluate}
use ropus.Rules.Service.{Rule}
use ropus.Rules.Service.Parse.{RuleDefinition, parse_rule_definition}
use ropus.Decision.Cost.{allow, review, decline}

pub record ThreatReport : Type 0 where
  pub is_malicious_ip : Bool
  pub is_compromised_dev : Bool
  pub is_proxy_datacenter : Bool
  pub is_impossible_trip : Bool

pub record EntityGraphEvidence : Type 0 where
  pub connected_account_count : ℕ
  pub fraud_nodes_count : ℕ
  pub fraud_ring_detected : Bool
  pub degree_centrality : ℕ

pub record VelocityMetrics : Type 0 where
  pub txn_count_ip_1h : ℕ
  pub txn_count_token_24h : ℕ

-- The score and the reason codes so far.
pub record Findings : Type 0 where
  pub risk_score : ℕ
  pub reason_codes : List String

-- `if riskScore < n { riskScore = n }`
abbrev pub raised : ℕ → ℕ → ℕ
raised n score = if ltb score n then n else score

abbrev pub with_codes : List String → Findings → Findings
with_codes codes f = record f { reason_codes = f.reason_codes ++ codes }

-- A signal that has been met: its code, and the score that it asks for.
abbrev pub signal : Bool → String → ℕ → Findings → Findings
signal is_met code least f =
    if is_met
    then record {
      risk_score = raised least f.risk_score;
      reason_codes = f.reason_codes ++ (code ∷ []);
    }
    else f

unfoldable pub early_signals : Bool → ThreatReport → EntityGraphEvidence → Findings
early_signals is_invalid_device threat graph =
    signal (ltb 0 graph.fraud_nodes_count) "GRAPH_SIGNAL:CONFIRMED_FRAUD_NEIGHBOR" 85 (
      signal (leb 3 graph.connected_account_count) "GRAPH_SIGNAL:MULTI_ACCOUNT_DEVICE_CLUSTER" 70 (
        signal graph.fraud_ring_detected "GRAPH_SIGNAL:FRAUD_RING_CLUSTER" 90 (
          signal threat.is_impossible_trip "THREAT_INTEL:IMPOSSIBLE_TRAVEL_VELOCITY" 80 (
            signal threat.is_proxy_datacenter "THREAT_INTEL:DATACENTER_PROXY_ASN" 0 (
              signal threat.is_compromised_dev "THREAT_INTEL:COMPROMISED_EMULATOR_DEVICE" 80 (
                signal threat.is_malicious_ip "THREAT_INTEL:KNOWN_MALICIOUS_IP" 85 (
                  signal is_invalid_device "INVALID_DEVICE_TELEMETRY" 0
                    (record { risk_score = 10; reason_codes = [] }))))))))

-- `calculateFallbackRiskScore`
abbrev points : Bool → ℕ → ℕ
points b n = if b then n else 0

abbrev velocity_points : Option VelocityMetrics → ℕ
velocity_points none = 0
velocity_points (some v) =
    points (leb 4 v.txn_count_ip_1h) 30 + points (leb 6 v.txn_count_token_24h) 25

unfoldable pub calculate_fallback_risk_score :
    ℕ → Option VelocityMetrics → ThreatReport → EntityGraphEvidence → ℕ
calculate_fallback_risk_score amount velocity threat graph =
    let accounts =
      if leb 3 graph.connected_account_count
      then 55
      else points (leb 2 graph.connected_account_count) 30 in
    let score =
      15
      + points (ltb 100000 amount) 35
      + velocity_points velocity
      + points threat.is_impossible_trip 70
      + points threat.is_malicious_ip 55
      + points threat.is_proxy_datacenter 35
      + points threat.is_compromised_dev 40
      + points (ltb 0 graph.fraud_nodes_count) 65
      + accounts
      + points (leb 6 graph.degree_centrality) 25 in
    if ltb 99 score then 99 else score

-- The floor of unambiguous threats.
unfoldable pub hard_threat_score : ThreatReport → EntityGraphEvidence → ℕ
hard_threat_score threat graph =
    let reported =
      if threat.is_impossible_trip then 88 else if threat.is_malicious_ip then 85 else 0 in
    if ltb 0 graph.fraud_nodes_count then raised 90 reported else reported

-- A rule that matches: its action and its code.
pub record Hit : Type 0 where
  pub action : String
  pub code : String

abbrev pub hit_of : {F : Type 0} → String → RuleDefinition F → Outcome → Option Hit
hit_of name def (answers true) = some (record {
  action = if str_eq def.action "" then review else def.action;
  code = if str_eq def.reason_code "" then "RULE_" <> (name <> "_MATCHED") else def.reason_code;
})
hit_of name def (answers false) = none
hit_of name def (fails e) = none

abbrev pub is_hard : String → Bool
is_hard action = str_eq action decline || str_eq action allow

-- What the rules have led to: the forced action, if there is one.
pub record Verdict : Type 0 where
  pub findings : Findings
  pub forced : Option String

-- The loop over the active rules, of which each matches or does not.
unfoldable pub run_hits : List (Option Hit) → Findings → Verdict
run_hits [] f = record { findings = f; forced = none }
run_hits (none ∷ hs) f = run_hits hs f
run_hits (some h ∷ hs) f =
    let noted = with_codes (h.code ∷ []) f in
    let rest = run_hits hs noted in
    if is_hard h.action
    then record {
      findings = record noted { risk_score = if str_eq h.action decline then 95 else 5 };
      forced = some h.action;
    }
    else rest

module _ (fm : Formats) (unmarshal_rule : String → Option (RuleDefinition fm.F))
    (unmarshal_node : String → Option (AstNode fm.F)) where
  open fm use {F}

  abbrev tried : Fields F → String → Option (RuleDefinition F) → Option Hit
  tried ctx name none = none
  tried ctx name (some def) = hit_of name def (evaluate fm ctx def.condition)

  unfoldable pub hit : Fields F → Rule → Option Hit
  unfolding parse_rule_definition evaluate
  hit ctx r = tried ctx r.name (parse_rule_definition unmarshal_rule unmarshal_node r.dsl_ast)
