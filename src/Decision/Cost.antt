-- ===== src/Decision/Cost.antt =====
-- `EvaluateCostSensitiveDecision` of cost_policy.go. Whether a float64 is neither NaN nor infinite is
-- a parameter. The reason, a printed text, is left out.
use ropus.Common.{String, Bool, true, ◌&&◌, ◌||◌, if◌then◌else◌}
use ropus.Rollout.Float.{Floats}

abbrev pub allow : String
allow = "ALLOW_RECOMMENDATION"

abbrev pub step_up : String
step_up = "STEP_UP_RECOMMENDATION"

abbrev pub review : String
review = "MANUAL_REVIEW"

abbrev pub decline : String
decline = "DECLINE_RECOMMENDATION"

pub record EconomicPolicyConfig (F : Type 0) : Type 0 where
  pub false_positive_cost_base : F
  pub false_positive_rate_ltv : F
  pub manual_review_cost : F
  pub challenge_cost : F
  pub challenge_friction_rate : F
  pub fraud_multiplier : F
  pub residual_review_rate : F

pub record ActionCostBreakdown (F : Type 0) : Type 0 where
  pub calibrated_probability : F
  pub transaction_amount : F
  pub expected_fraud_exposure : F
  pub allow_cost : F
  pub challenge_cost : F
  pub review_cost : F
  pub decline_cost : F
  pub optimal_action : String

-- The best action so far, and its cost.
pub record Best (F : Type 0) : Type 0 where
  pub action : String
  pub cost : F

module _ (fl : Floats) (is_finite : fl.F → Bool) where
  open fl use {F, literal, add, sub, mul, div, round, is_gt, is_ge, is_le}

  unfoldable pub default_economic_policy_config : EconomicPolicyConfig F
  default_economic_policy_config = record {
    false_positive_cost_base = literal 500 1;
    false_positive_rate_ltv = literal 5 100;
    manual_review_cost = literal 100 1;
    challenge_cost = literal 2 1;
    challenge_friction_rate = literal 2 100;
    fraud_multiplier = literal 1 1;
    residual_review_rate = literal 5 100;
  }

  -- `math.Max` and `math.Min`, of numbers that are not NaN
  abbrev pub max_of : F → F → F
  max_of a b = if is_gt a b then a else b

  abbrev pub min_of : F → F → F
  min_of a b = if is_gt b a then a else b

  -- The guards: the median, or no amount, for what is no number, and the bounds.
  unfoldable pub guarded_probability : F → F
  guarded_probability p =
      max_of (literal 0 1) (min_of (literal 1 1) (if is_finite p then p else literal 5 10))

  unfoldable pub guarded_amount : F → F
  guarded_amount a = max_of (literal 0 1) (if is_finite a then a else literal 0 1)

  unfoldable pub false_positive_cost : F → EconomicPolicyConfig F → F
  false_positive_cost amt cfg =
      if is_gt amt (literal 0 1) && is_gt (literal 250 1) amt
      then max_of (literal 25 1) (min_of cfg.false_positive_cost_base (mul (literal 2 1) amt))
      else if is_gt (mul amt cfg.false_positive_rate_ltv) cfg.false_positive_cost_base
      then mul amt cfg.false_positive_rate_ltv
      else cfg.false_positive_cost_base

  abbrev pub better : Bool → String → F → Best F → Best F
  better is_active action cost best =
      if is_active && is_gt best.cost cost then record { action = action; cost = cost } else best

  -- The action of least cost among those that are active, and the floor of 0.80.
  unfoldable pub optimal : F → F → F → F → F → F → Best F
  optimal p exposure cost_allow cost_challenge cost_review cost_decline =
      let challenged =
        better (is_ge p (literal 15 100) || is_ge exposure (literal 2500 1)) step_up cost_challenge
          (record { action = allow; cost = cost_allow }) in
      let reviewed =
        better (is_ge p (literal 25 100) || is_ge exposure (literal 5000 1)) review cost_review
          challenged in
      let declined = better true decline cost_decline reviewed in
      if is_ge p (literal 80 100)
      then (if is_le cost_decline cost_review
          then record { action = decline; cost = cost_decline }
          else record { action = review; cost = cost_review })
      else declined

  -- To two decimals.
  abbrev pub rounded : F → F
  rounded x = div (round (mul x (literal 100 1))) (literal 100 1)

  unfoldable pub evaluate_cost_sensitive_decision :
      F → F → EconomicPolicyConfig F → ActionCostBreakdown F
  unfolding guarded_probability guarded_amount false_positive_cost optimal
  evaluate_cost_sensitive_decision p0 amount cfg =
      let p = guarded_probability p0 in
      let amt = guarded_amount amount in
      let exposure = mul p amt in
      let rest = sub (literal 1 1) p in
      let cost_allow = mul (mul p amt) cfg.fraud_multiplier in
      let cost_decline = mul rest (false_positive_cost amt cfg) in
      let cost_review =
        add cfg.manual_review_cost
          (mul (mul (mul cfg.residual_review_rate p) amt) cfg.fraud_multiplier) in
      let cost_challenge =
        add (mul rest (mul cfg.challenge_friction_rate amt)) cfg.challenge_cost in
      record {
        calibrated_probability = div (round (mul p (literal 1000 1))) (literal 1000 1);
        transaction_amount = rounded amt;
        expected_fraud_exposure = rounded exposure;
        allow_cost = rounded cost_allow;
        challenge_cost = rounded cost_challenge;
        review_cost = rounded cost_review;
        decline_cost = rounded cost_decline;
        optimal_action =
            (optimal p exposure cost_allow cost_challenge cost_review cost_decline).action;
      }
