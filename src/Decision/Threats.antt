-- ===== src/Decision/Threats.antt =====
-- Known threats in orchestrator.go.
use ropus.Common.{
  ℕ, ◌≤◌, ◌<◌, ◌≡◌, ◌≢◌, ◌⊎◌, inl, inr, ap, refl, String, eq_iff, Bool, true, Option, none, some,
  List, [], ◌∷◌, Bool-cases, arith,
}
use ropus.Rollout.Float.{Floats}
use ropus.Rollout.Router.{CanaryRouter}
use ropus.Decision.Cost.{allow, decline}
use ropus.Decision.Signals.{
  ThreatReport, EntityGraphEvidence, Findings, raised, with_codes, early_signals, hard_threat_score,
  Hit, is_hard, run_hits,
}
use ropus.Decision.Pipeline.{Evidence, infer, score, choose, decide}

-- A threat that a transaction is not allowed with.
abbrev pub IsKnown : ThreatReport → EntityGraphEvidence → Type 0
IsKnown threat graph =
    (threat.is_impossible_trip ≡ true)
    ⊎ ((threat.is_malicious_ip ≡ true) ⊎ (0 < graph.fraud_nodes_count))

hard_threat_score_least :
    (threat : ThreatReport) (graph : EntityGraphEvidence)
    → IsKnown threat graph
    → 85 ≤ hard_threat_score threat graph
unfolding hard_threat_score
hard_threat_score_least threat graph h = ground arith

raised_least : (n s : ℕ) → n ≤ raised n s
raised_least n s = ground arith

hard_cases : (a : String) → is_hard a ≡ true → (a ≡ decline) ⊎ (a ≡ allow)
hard_cases a h = ground (arith, eq_iff a decline, eq_iff a allow)

forced_cases :
    (hits : List (Option Hit)) (f : Findings)
    → ((run_hits hits f).forced ≡ none)
      ⊎ (((run_hits hits f).forced ≡ some decline) ⊎ ((run_hits hits f).forced ≡ some allow))
unfolding run_hits
forced_cases [] f = inl refl
forced_cases (none ∷ hs) f = forced_cases hs f
forced_cases (some h ∷ hs) f = elim (Bool-cases (is_hard h.action)) [
  | inr soft ↦ rw soft (forced_cases hs (with_codes (h.code ∷ []) f))
  | inl hard ↦ elim (hard_cases h.action hard) [
    | inl d ↦ inr (inl (rw hard (ap some d)))
    | inr a ↦ inr (inr (rw hard (ap some a)))
  ]
]

module _ (fl : Floats) (is_finite : fl.F → Bool) (digest : String → ℕ) where
  open fl use {F}

  chosen_high :
      (risk amount : ℕ) → 85 ≤ risk → choose fl is_finite digest risk amount none ≡ decline
  unfolding choose
  chosen_high risk amount h = ground arith

  infer_least :
      (e : Evidence F) (d : Bool) (r : CanaryRouter F) (f : Findings)
      → hard_threat_score e.threat e.graph ≤ (infer fl is_finite digest e d r f).findings.risk_score
  unfolding infer
  infer_least e d r f = raised_least (hard_threat_score e.threat e.graph) _

  infer_high :
      (e : Evidence F) (d : Bool) (r : CanaryRouter F) (f : Findings)
      → IsKnown e.threat e.graph
      → 85 ≤ (infer fl is_finite digest e d r f).findings.risk_score
  infer_high e d r f known =
      let h = infer_least e d r f in
      let k = hard_threat_score_least e.threat e.graph known in omega arith

  -- A known threat is declined. When the trip is impossible, the address is known as malicious, or a
  -- neighbour in the graph is confirmed fraud, then, whatever the models answer or fail to answer,
  -- whatever the route and the amount: the recommended action is to decline, unless an active rule
  -- of the tenant that forces an action forces to allow.
  pub threat_declines :
      (e : Evidence F) (hits : List (Option Hit)) (r : CanaryRouter F)
      → IsKnown e.threat e.graph
      → (run_hits hits (early_signals e.is_invalid_device e.threat e.graph)).forced ≢ some allow
      → (decide fl is_finite digest e hits r).action ≡ decline
  unfolding decide score choose
  threat_declines e hits r known denied =
      elim (forced_cases hits (early_signals e.is_invalid_device e.threat e.graph)) [
        | inl free ↦ rw free (chosen_high _ e.amount (infer_high e _ r _ known))
        | inr (inl d) ↦ rw d refl
        | inr (inr a) ↦ absurd (denied a)
      ]
