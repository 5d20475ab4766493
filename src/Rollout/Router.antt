-- ===== src/Rollout/Router.antt =====
-- The canary router of canary_router.go. The breaker is never nil, as `NewCanaryRouter` makes it.
-- SHA-256 is a parameter: `digest key` is the big-endian number in its first four bytes. A write to
-- ClickHouse is a goroutine of its own, which ends at any time and with a row or without one.
pub mod Routing
pub mod Rollback
pub mod Written
pub mod Trail
use ropus.Common.{
  ℕ, ◌+◌, ◌*◌, ◌%◌, String, ◌<>◌, str_eq, starts_with, Bool, true, false, ◌&&◌, ◌||◌, not, List, [],
  ◌∷◌, ◌++◌, ltb, leb, ◌==◌, if◌then◌else◌,
}
use ropus.Common.Int.{ℤ, pos, negsuc, ◌+ℤ◌}
use ropus.Rollout.Float.{Floats}
use ropus.Rollout.Breaker.{
  CircuitBreakerState, healthy, warning, failed, rolling_back, rolled_back, is_rolled_back,
  CircuitBreakerConfig, CircuitBreaker, Snapshot, Reason, empty, given, sustained, breach, Verdict,
  new_circuit_breaker, reset, evaluate_and_check_trip,
}
use ropus.Rollout.Metrics.{CanaryMetrics, LatencyReservoir, new_latency_reservoir, add, snapshot}

pub data ModelRoute : Type 0 where
  route_legacy route_candidate : ModelRoute

-- The configuration as it is given.
pub record CanaryRouterConfig (F : Type 0) : Type 0 where
  pub enabled : Bool
  pub percentage : ℤ
  pub candidate_model_version : String
  pub candidate_feature_contract : String
  pub max_error_rate : F
  pub max_fallback_rate : F
  pub max_p95_latency_ms : F
  pub max_p99_latency_ms : F
  pub max_decision_change_rate : F

-- The configuration after `Validate`, whose percentage is never negative.
pub record Rollout (F : Type 0) : Type 0 where
  pub enabled : Bool
  pub percentage : ℕ
  pub candidate_model_version : String
  pub candidate_feature_contract : String
  pub max_error_rate : F
  pub max_fallback_rate : F
  pub max_p95_latency_ms : F
  pub max_p99_latency_ms : F
  pub max_decision_change_rate : F

pub data EventType : Type 0 where
  automatic_rollback manual_rollout manual_rollback model_promotion : EventType

-- The fields of `CanaryRolloutEvent` that are no constants and no clock readings. The percentages
-- are uint8.
pub record CanaryRolloutEvent (F : Type 0) : Type 0 where
  pub event_type : EventType
  pub previous_percentage : ℕ
  pub new_percentage : ℕ
  pub previous_model_version : String
  pub metrics : Snapshot F
  pub actor : String
  pub reason : Reason F

-- `logging` are the events of the goroutines that are still to end, and `rows` what ClickHouse has.
pub record CanaryRouter (F : Type 0) : Type 0 where
  pub config : Rollout F
  pub metrics : CanaryMetrics F
  pub circuit_breaker : CircuitBreaker F
  pub has_client : Bool
  pub logging : List (CanaryRolloutEvent F)
  pub rows : List (CanaryRolloutEvent F)

abbrev pub non_empty_or : String → String → String
non_empty_or d s = if str_eq s "" then d else s

abbrev routing_key : String → String → String
routing_key tenant txn =
    if str_eq tenant "" || str_eq txn "" then "anon_" <> txn else tenant <> (":" <> txn)

abbrev pub bucket : (String → ℕ) → String → String → ℕ
bucket digest tenant txn = digest (routing_key tenant txn) % 100

abbrev pub is_admin : String → Bool
is_admin actor = starts_with actor "admin_" || str_eq actor "ADMIN_OPERATOR"

abbrev event_type_of : ℕ → ℕ → EventType
event_type_of old new =
    if new == 0 && ltb 0 old
    then manual_rollback
    else if new == 100
    then model_promotion
    else manual_rollout

-- The percentage and the switch, after the first test of `Validate`.
abbrev clamp_percentage : ℤ → ℕ
clamp_percentage (negsuc _) = 0
clamp_percentage (pos n) = if ltb 100 n then 100 else n

abbrev enabled_after : ℤ → Bool → Bool
enabled_after (negsuc _) b = false
enabled_after (pos _) b = b

abbrev is_positive : ℤ → Bool
is_positive (negsuc _) = false
is_positive (pos n) = ltb 0 n

module _ {F : Type 0} where
  -- The call starts a goroutine and returns.
  unfoldable pub log_rollout_event : CanaryRolloutEvent F → CanaryRouter F → CanaryRouter F
  log_rollout_event e cr = if cr.has_client then record cr { logging = e ∷ cr.logging } else cr

  -- The end of the goroutine of `e`, the others being `before` and `after`: its insert has made a row,
  -- or it has failed or run out of time without one, which is logged and no more.
  unfoldable pub end_logging :
      List (CanaryRolloutEvent F)
      → CanaryRolloutEvent F
      → List (CanaryRolloutEvent F)
      → Bool
      → CanaryRouter F
      → CanaryRouter F
  end_logging before e after is_inserted cr = record cr {
    logging = before ++ after;
    rows = if is_inserted then e ∷ cr.rows else cr.rows;
  }

  unfoldable pub route : (String → ℕ) → String → String → CanaryRouter F → ModelRoute
  route digest tenant txn cr =
      if is_rolled_back cr.circuit_breaker.state
      then route_legacy
      else if not cr.config.enabled || cr.config.percentage == 0
      then route_legacy
      else if leb 100 cr.config.percentage
      then route_candidate
      else if ltb (bucket digest tenant txn) cr.config.percentage
      then route_candidate
      else route_legacy

  abbrev with_metrics : (CanaryMetrics F → CanaryMetrics F) → CanaryRouter F → CanaryRouter F
  with_metrics f cr = record cr { metrics = f cr.metrics }

  unfoldable pub record_legacy_request : CanaryRouter F → CanaryRouter F
  record_legacy_request =
      with_metrics λ m. record m { legacy_requests_total = m.legacy_requests_total + 1 }

  unfoldable pub record_candidate_request : CanaryRouter F → CanaryRouter F
  record_candidate_request =
      with_metrics λ m. record m { candidate_requests_total = m.candidate_requests_total + 1 }

  unfoldable pub record_decision_changed : CanaryRouter F → CanaryRouter F
  record_decision_changed =
      with_metrics λ m. record m { decision_changed_total = m.decision_changed_total + 1 }

  abbrev count_decision : String → CanaryMetrics F → CanaryMetrics F
  count_decision d m =
      if str_eq d "ALLOW_RECOMMENDATION" || str_eq d "ALLOW"
      then record m { candidate_decision_allow_total = m.candidate_decision_allow_total + 1 }
      else if str_eq d "MANUAL_REVIEW"
      then record m { candidate_decision_review_total = m.candidate_decision_review_total + 1 }
      else if str_eq d "DECLINE_RECOMMENDATION" || str_eq d "DECLINE"
      then record m { candidate_decision_decline_total = m.candidate_decision_decline_total + 1 }
      else m

  abbrev sample : F → CanaryMetrics F → CanaryMetrics F
  sample latency m = record m { latency_reservoir = add latency m.latency_reservoir }

  -- What is done once the breaker has answered.
  after_verdict : Snapshot F → Verdict F × CircuitBreaker F → CanaryRouter F → CanaryRouter F
  unfolding log_rollout_event
  after_verdict s (v, cb) cr =
      let checked = record cr { circuit_breaker = cb } in
      if v.tripped
      then log_rollout_event
          (record {
            event_type = automatic_rollback;
            previous_percentage = cr.config.percentage % 256;
            new_percentage = 0;
            previous_model_version = cr.config.candidate_model_version;
            metrics = s;
            actor = "circuit_breaker_daemon";
            reason = v.reason;
          })
          (record checked { config = record (cr.config) { percentage = 0; enabled = false } })
      else checked

module _ (fl : Floats) where
  open fl use {F, literal, is_gt, is_le, mul, truncate}

  abbrev positive_or : F → F → F
  positive_or d x = if is_le x (literal 0 1) then d else x

  unfoldable pub validate : CanaryRouterConfig F → Rollout F
  validate cfg = record {
    enabled = enabled_after cfg.percentage cfg.enabled;
    percentage = clamp_percentage cfg.percentage;
    candidate_model_version = non_empty_or "fraud-xgb-25f-candidate-v1" cfg.candidate_model_version;
    candidate_feature_contract = non_empty_or "v2.5" cfg.candidate_feature_contract;
    max_error_rate = positive_or (literal 1 100) cfg.max_error_rate;
    max_fallback_rate = positive_or (literal 1 100) cfg.max_fallback_rate;
    max_p95_latency_ms = positive_or (literal 15 1) cfg.max_p95_latency_ms;
    max_p99_latency_ms = positive_or (literal 25 1) cfg.max_p99_latency_ms;
    max_decision_change_rate = positive_or (literal 10 100) cfg.max_decision_change_rate;
  }

  unfoldable pub new_canary_router : CanaryRouterConfig F → Bool → CanaryRouter F
  unfolding validate
  new_canary_router cfg client =
      let c = validate cfg in
      record {
        config = c;
        metrics = record {
          legacy_requests_total = 0;
          candidate_requests_total = 0;
          candidate_success_total = 0;
          candidate_error_total = 0;
          candidate_fallback_total = 0;
          candidate_decision_allow_total = 0;
          candidate_decision_review_total = 0;
          candidate_decision_decline_total = 0;
          decision_changed_total = 0;
          total_candidate_latency_us = pos 0;
          latency_reservoir = new_latency_reservoir (literal 0 1) (pos 2000);
        };
        circuit_breaker = new_circuit_breaker fl (record {
          max_error_rate = c.max_error_rate;
          max_fallback_rate = c.max_fallback_rate;
          max_p95_latency_ms = c.max_p95_latency_ms;
          max_p99_latency_ms = c.max_p99_latency_ms;
          max_decision_change_rate = c.max_decision_change_rate;
          min_sample_count = pos 10;
          failure_window = pos 3;
          cooldown_seconds = pos 300;
        });
        has_client = client;
        logging = [];
        rows = [];
      }

  unfoldable pub check_circuit_breaker : ℕ → CanaryRouter F → CanaryRouter F
  unfolding after_verdict
  check_circuit_breaker now cr =
      let s = snapshot fl cr.metrics in
      after_verdict s (evaluate_and_check_trip fl now s cr.circuit_breaker) cr

  unfoldable pub record_candidate_success : ℕ → F → String → CanaryRouter F → CanaryRouter F
  unfolding check_circuit_breaker
  record_candidate_success now latency decision cr = check_circuit_breaker now (
      with_metrics
        (λ m. count_decision decision (
          sample latency (record m {
            candidate_success_total = m.candidate_success_total + 1;
            total_candidate_latency_us =
                m.total_candidate_latency_us +ℤ truncate (mul latency (literal 1000 1));
          })))
        cr)

  unfoldable pub record_candidate_fallback : ℕ → F → CanaryRouter F → CanaryRouter F
  unfolding check_circuit_breaker
  record_candidate_fallback now latency cr = check_circuit_breaker now (
      with_metrics
        (λ m.
          let m' : CanaryMetrics F = record m {
            candidate_error_total = m.candidate_error_total + 1;
            candidate_fallback_total = m.candidate_fallback_total + 1;
          } in
          if is_gt latency (literal 0 1) then sample latency m' else m')
        cr)

  unfoldable pub record_candidate_error : ℕ → CanaryRouter F → CanaryRouter F
  unfolding check_circuit_breaker
  record_candidate_error now cr =
      check_circuit_breaker now
        (with_metrics (λ m. record m { candidate_error_total = m.candidate_error_total + 1 }) cr)

  -- The writes of `UpdateConfig`, for a percentage in range.
  apply_update : Bool → ℕ → String → String → CanaryRouter F → CanaryRouter F
  unfolding log_rollout_event
  apply_update enabled pct actor reason cr =
      let cb =
        if pct == 0 || is_admin actor then reset cr.circuit_breaker else cr.circuit_breaker in
      log_rollout_event
        (record {
          event_type = event_type_of cr.config.percentage pct;
          previous_percentage = cr.config.percentage % 256;
          new_percentage = pct % 256;
          previous_model_version = cr.config.candidate_model_version;
          metrics = snapshot fl cr.metrics;
          actor = actor;
          reason = given reason;
        })
        (record cr {
          config = record (cr.config) { percentage = pct; enabled = enabled && ltb 0 pct };
          circuit_breaker = cb;
        })

  -- The result is whether there was no error.
  unfoldable pub update_config : Bool → ℤ → String → String → CanaryRouter F → Bool × CanaryRouter F
  unfolding apply_update
  update_config enabled (negsuc n) actor reason cr = (false, cr)
  update_config enabled (pos pct) actor reason cr =
      if ltb 100 pct then (false, cr) else (true, apply_update enabled pct actor reason cr)

  unfoldable pub set_percentage : ℤ → CanaryRouter F → CanaryRouter F
  unfolding update_config
  set_percentage pct cr =
      (update_config (is_positive pct) pct "test_harness" "direct SetPercentage call" cr).1
