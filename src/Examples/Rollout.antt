-- ===== src/Examples/Rollout.antt =====
-- Tests of circuit_breaker.go and canary_router.go, over natural numbers of hundredths as floats.
use ropus.Common.{
  ℕ, ◌+◌, ◌-◌, ◌*◌, ◌/◌, ◌≤◌, ◌<◌, ◌≡◌, ◌≢◌, refl, String, true, false, List, [], ◌∷◌, arith, leb,
  ltb, min, length, get_elem?,
}
use ropus.Common.Int.{pos, or_default}
use ropus.Rollout.Float.{Floats}
use ropus.Rollout.Breaker.{
  CircuitBreakerConfig, CircuitBreaker, Snapshot, second, new_circuit_breaker, trip,
  evaluate_and_check_trip, violations_of, given,
}
use ropus.Rollout.Breaker.Invariant
use ropus.Rollout.Breaker.Window.{IsArmed, peak, findings, trips, trips-peak}
use ropus.Rollout.Metrics.Reservoir.{filled, recent, filled_window}
use ropus.Rollout.Router.{
  EventType, manual_rollout, manual_rollback, CanaryRolloutEvent, log_rollout_event, end_logging,
  set_percentage, update_config, CanaryRouterConfig, CanaryRouter, route_legacy, route_candidate,
  route, new_canary_router, record_candidate_request, record_candidate_error, check_circuit_breaker,
}
use ropus.Rollout.Metrics.{snapshot, new_latency_reservoir}
use ropus.Rollout.Router.Routing.{route_sticky}
use ropus.Rollout.Router.Rollback.{
  Outcome, success, error, candidate_request, observe, observe_all, rollback_holds,
}
use ropus.Rollout.Router.Trail

-- Ratios in hundredths; a literal n / d is 100 n / d.
abbrev pub hundredths : Floats
hundredths = record {
  F = ℕ;
  literal = λ n d. 100 * n / d;
  of_int = λ n. 100 * n;
  is_gt = λ a b. ltb b a;
  is_le = leb;
  is_ge = λ a b. leb b a;
  add = λ a b. a + b;
  sub = λ a b. a - b;
  seconds = λ n. n / 10000000;
  mul = λ a b. a * b / 100;
  div = λ a b. 100 * a / b;
  round = λ a. (a + 50) / 100 * 100;
  ceil = λ a. (a + 99) / 100;
  truncate = λ a. pos (a / 100);
  sort = λ xs. xs;
}

abbrev settings : CircuitBreakerConfig ℕ
settings = record {
  max_error_rate = 5;
  max_fallback_rate = 0;
  max_p95_latency_ms = 5000;
  max_p99_latency_ms = 0;
  max_decision_change_rate = 0;
  min_sample_count = pos 10;
  failure_window = pos 2;
  cooldown_seconds = pos 60;
}

abbrev breaker : CircuitBreaker ℕ
breaker = new_circuit_breaker hundredths settings

abbrev metrics : ℕ → ℕ → Snapshot ℕ
metrics total errors = record {
  candidate_requests_total = total;
  candidate_error_rate = errors;
  candidate_fallback_rate = 0;
  candidate_p95_latency_ms = 1000;
  candidate_p99_latency_ms = 1000;
}

abbrev two_breaches : List (ℕ × Snapshot ℕ)
two_breaches = (1, metrics 100 50) ∷ (2, metrics 5 50) ∷ (3, metrics 100 50) ∷ []

-- `RunSelfTest`: the second breach trips.
trips_on_second : trips hundredths two_breaches breaker ≡ true
unfolding trips new_circuit_breaker evaluate_and_check_trip violations_of
trips_on_second = refl

healthy_between :
    trips hundredths ((1, metrics 100 50) ∷ (2, metrics 100 0) ∷ (3, metrics 100 50) ∷ []) breaker
    ≡ false
unfolding trips new_circuit_breaker evaluate_and_check_trip violations_of
healthy_between = refl

breaker-IsArmed : IsArmed hundredths breaker
unfolding new_circuit_breaker
breaker-IsArmed = (refl, omega arith)

trips-peak_example :
    trips hundredths two_breaches breaker
    ≡ leb breaker.config.failure_window
        (peak breaker.consecutive_failures (findings hundredths breaker.config two_breaches))
trips-peak_example = trips-peak hundredths two_breaches breaker breaker-IsArmed

abbrev calls : List (Invariant.Call ℕ)
calls = Invariant.evaluate 1 (metrics 100 50) ∷ Invariant.force 2 "by hand" ∷ Invariant.clear ∷ []

run_new-IsValid_example : Invariant.IsValid (Invariant.run hundredths calls breaker)
run_new-IsValid_example = Invariant.run_new-IsValid hundredths settings calls

abbrev forced : CircuitBreaker ℕ
forced = trip 10 "by hand" breaker

forced_cooling : 11 < forced.last_tripped_at + forced.config.cooldown_seconds * second
unfolding trip new_circuit_breaker
forced_cooling = omega arith

filled_window_example :
    let r = filled {F = ℕ} 0 (pos 2) (7 ∷ 8 ∷ 9 ∷ []) in
    (r.count ≡ min (length {A = ℕ} (7 ∷ 8 ∷ 9 ∷ [])) (or_default 2000 (pos 2)))
    × ((j : ℕ) → j < r.count → recent r j ≡ get_elem? (7 ∷ 8 ∷ 9 ∷ []) j)
filled_window_example = filled_window {F = ℕ} 0 (pos 2) (7 ∷ 8 ∷ 9 ∷ [])

abbrev given_config : CanaryRouterConfig ℕ
given_config = record {
  enabled = true;
  percentage = pos 30;
  candidate_model_version = "";
  candidate_feature_contract = "";
  max_error_rate = 5;
  max_fallback_rate = 5;
  max_p95_latency_ms = 5000;
  max_p99_latency_ms = 5000;
  max_decision_change_rate = 0;
}

abbrev pub router : CanaryRouter ℕ
router = new_canary_router hundredths given_config true

abbrev hash : String → ℕ
hash key = 117

routes_candidate : route hash "t" "x" router ≡ route_candidate
unfolding route new_canary_router new_circuit_breaker
routes_candidate = refl

router_at_30 : router.config.percentage ≤ 60
unfolding new_canary_router
router_at_30 = omega arith

route_sticky_example :
    route hash "t" "x" (record router { config = record (router.config) { percentage = 60 } })
    ≡ route_candidate
route_sticky_example = route_sticky hash "t" "x" 60 router router_at_30 routes_candidate

-- A router whose breaker was tripped by hand.
abbrev tripped_router : CanaryRouter ℕ
tripped_router = record router { circuit_breaker = forced }

abbrev ten_requests : List (Outcome ℕ)
ten_requests =
    candidate_request
    ∷ candidate_request
    ∷ candidate_request
    ∷ candidate_request
    ∷ candidate_request
    ∷ candidate_request
    ∷ candidate_request
    ∷ candidate_request
    ∷ candidate_request
    ∷ candidate_request
    ∷ error 1
    ∷ error 2
    ∷ []

-- The third error in a row trips.
abbrev failing : CanaryRouter ℕ
failing = observe_all hundredths ten_requests router

failing_trips :
    (observe hundredths (error 3) failing).circuit_breaker.tripped_count
    ≢ failing.circuit_breaker.tripped_count
unfolding new_canary_router new_circuit_breaker observe observe_all record_candidate_request
    record_candidate_error check_circuit_breaker snapshot evaluate_and_check_trip violations_of
    new_latency_reservoir
failing_trips = omega arith

rollback_holds_example :
    route hash "t" "x"
      (observe_all hundredths (success 9 1 "ALLOW" ∷ []) (observe hundredths (error 3) failing))
    ≡ route_legacy
rollback_holds_example =
    rollback_holds hundredths (error 3) (success 9 1 "ALLOW" ∷ []) failing failing_trips hash "t"
      "x"

abbrev event : EventType → ℕ → ℕ → CanaryRolloutEvent ℕ
event kind old new = record {
  event_type = kind;
  previous_percentage = old;
  new_percentage = new;
  previous_model_version = "fraud-xgb-25f-candidate-v1";
  metrics = snapshot hundredths router.metrics;
  actor = "test_harness";
  reason = given "direct SetPercentage call";
}

-- Two changes; the second event is written first, and the first one is lost.
abbrev changed : CanaryRouter ℕ
changed =
    Trail.call hundredths (Trail.set_to (pos 0))
      (Trail.call hundredths (Trail.set_to (pos 60)) router)

abbrev once_written : CanaryRouter ℕ
once_written =
    end_logging [] (event manual_rollback 60 0) (event manual_rollout 30 60 ∷ []) true changed

abbrev written : CanaryRouter ℕ
written = end_logging [] (event manual_rollout 30 60) [] false once_written

one_row : written.rows ≡ event manual_rollback 60 0 ∷ []
unfolding Trail.call set_percentage update_config log_rollout_event new_canary_router end_logging
one_row = refl
