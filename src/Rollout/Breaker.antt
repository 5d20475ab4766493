-- ===== src/Rollout/Breaker.antt =====
-- The circuit breaker of circuit_breaker.go. Times are nanoseconds; the messages of violations
-- and trips are constructors with the values that are printed.
pub mod Window
pub mod Invariant
use ropus.Common.{
  ℕ, ◌+◌, ◌*◌, String, Bool, true, false, ◌||◌, List, [], ◌∷◌, ◌++◌, ltb, leb, if◌then◌else◌,
}
use ropus.Common.Int.{ℤ, or_default}
use ropus.Rollout.Float.{Floats}

pub data CircuitBreakerState : Type 0 where
  healthy warning failed rolling_back rolled_back : CircuitBreakerState

-- The configuration as it is given.
pub record CircuitBreakerConfig (F : Type 0) : Type 0 where
  pub max_error_rate : F
  pub max_fallback_rate : F
  pub max_p95_latency_ms : F
  pub max_p99_latency_ms : F
  pub max_decision_change_rate : F
  pub min_sample_count : ℤ
  pub failure_window : ℤ
  pub cooldown_seconds : ℤ

-- The configuration once `NewCircuitBreaker` has replaced what is not positive.
pub record Limits (F : Type 0) : Type 0 where
  pub max_error_rate : F
  pub max_fallback_rate : F
  pub max_p95_latency_ms : F
  pub max_p99_latency_ms : F
  pub max_decision_change_rate : F
  pub min_sample_count : ℕ
  pub failure_window : ℕ
  pub cooldown_seconds : ℕ

pub data Violation (F : Type 0) : Type 0 where
  error_rate fallback_rate p95_latency p99_latency : F → F → Violation F

pub data Reason (F : Type 0) : Type 0 where
  empty : Reason F
  given : String → Reason F
  sustained : ℕ → List (Violation F) → Reason F
  breach : ℕ → ℕ → List (Violation F) → Reason F

pub record CircuitBreaker (F : Type 0) : Type 0 where
  pub config : Limits F
  pub state : CircuitBreakerState
  pub consecutive_failures : ℕ
  pub last_tripped_at : ℕ
  pub last_trip_reason : Reason F
  pub tripped_count : ℕ

-- The entries of the metrics map that are read.
pub record Snapshot (F : Type 0) : Type 0 where
  pub candidate_requests_total : ℕ
  pub candidate_error_rate : F
  pub candidate_fallback_rate : F
  pub candidate_p95_latency_ms : F
  pub candidate_p99_latency_ms : F

-- The four results of `EvaluateAndCheckTrip`.
pub record Verdict (F : Type 0) : Type 0 where
  pub tripped : Bool
  pub state : CircuitBreakerState
  pub reason : Reason F
  pub violations : List (Violation F)

abbrev pub second : ℕ
second = 1000000000

abbrev pub is_rolled_back : CircuitBreakerState → Bool
is_rolled_back rolled_back = true
is_rolled_back _ = false

module _ {F : Type 0} where
  -- `time.Since(cb.lastTrippedAt) < cooldown`, added over
  abbrev pub in_cooldown : ℕ → CircuitBreaker F → Bool
  in_cooldown now cb =
      if is_rolled_back cb.state
      then ltb now (cb.last_tripped_at + cb.config.cooldown_seconds * second)
      else false

  unfoldable pub trip : ℕ → String → CircuitBreaker F → CircuitBreaker F
  trip now reason cb = record cb {
    state = rolled_back;
    last_tripped_at = now;
    last_trip_reason = given reason;
    tripped_count = cb.tripped_count + 1;
  }

  unfoldable pub reset : CircuitBreaker F → CircuitBreaker F
  reset cb = record cb { state = healthy; consecutive_failures = 0; last_trip_reason = empty }

  -- The branch of a breach.
  on_breach : ℕ → List (Violation F) → CircuitBreaker F → Verdict F × CircuitBreaker F
  on_breach now vs cb =
      let n = cb.consecutive_failures + 1 in
      if leb cb.config.failure_window n
      then (
        record { tripped = true; state = rolled_back; reason = sustained n vs; violations = vs },
        record cb {
          state = rolled_back;
          consecutive_failures = n;
          last_tripped_at = now;
          last_trip_reason = sustained n vs;
          tripped_count = cb.tripped_count + 1;
        },
      )
      else (
        record {
          tripped = false;
          state = failed;
          reason = breach n cb.config.failure_window vs;
          violations = vs;
        },
        record cb { state = failed; consecutive_failures = n },
      )

  on_healthy : CircuitBreaker F → Verdict F × CircuitBreaker F
  on_healthy cb = (
    record { tripped = false; state = healthy; reason = empty; violations = [] },
    record cb { consecutive_failures = 0; state = healthy },
  )

  abbrev is_empty : List (Violation F) → Bool
  is_empty [] = true
  is_empty (_ ∷ _) = false

  abbrev when : Bool → Violation F → List (Violation F)
  when true v = v ∷ []
  when false v = []

module _ (fl : Floats) where
  open fl use {F, literal, is_gt, is_le}

  abbrev positive_or : F → F → F
  positive_or d x = if is_le x (literal 0 1) then d else x

  unfoldable pub new_circuit_breaker : CircuitBreakerConfig F → CircuitBreaker F
  new_circuit_breaker cfg = record {
    config = record {
      max_error_rate = positive_or (literal 1 100) cfg.max_error_rate;
      max_fallback_rate = positive_or (literal 1 100) cfg.max_fallback_rate;
      max_p95_latency_ms = positive_or (literal 15 1) cfg.max_p95_latency_ms;
      max_p99_latency_ms = positive_or (literal 25 1) cfg.max_p99_latency_ms;
      max_decision_change_rate = positive_or (literal 10 100) cfg.max_decision_change_rate;
      min_sample_count = or_default 10 cfg.min_sample_count;
      failure_window = or_default 3 cfg.failure_window;
      cooldown_seconds = or_default 300 cfg.cooldown_seconds;
    };
    state = healthy;
    consecutive_failures = 0;
    last_tripped_at = 0;
    last_trip_reason = empty;
    tripped_count = 0;
  }

  -- The four comparisons, in the order of the code.
  unfoldable pub violations_of : Limits F → Snapshot F → List (Violation F)
  violations_of c s =
      when (is_gt s.candidate_error_rate c.max_error_rate)
        (error_rate s.candidate_error_rate c.max_error_rate)
      ++ (when (is_gt s.candidate_fallback_rate c.max_fallback_rate)
            (fallback_rate s.candidate_fallback_rate c.max_fallback_rate)
          ++ (when (is_gt s.candidate_p95_latency_ms c.max_p95_latency_ms)
                (p95_latency s.candidate_p95_latency_ms c.max_p95_latency_ms)
              ++ when (is_gt s.candidate_p99_latency_ms c.max_p99_latency_ms)
                  (p99_latency s.candidate_p99_latency_ms c.max_p99_latency_ms)))

  judge : ℕ → List (Violation F) → CircuitBreaker F → Verdict F × CircuitBreaker F
  unfolding on_breach on_healthy
  judge now vs cb = if is_empty vs then on_healthy cb else on_breach now vs cb

  unfoldable pub evaluate_and_check_trip :
      ℕ → Snapshot F → CircuitBreaker F → Verdict F × CircuitBreaker F
  unfolding judge
  evaluate_and_check_trip now s cb =
      if in_cooldown now cb
      then (
        record {
          tripped = false;
          state = rolled_back;
          reason = cb.last_trip_reason;
          violations = [];
        },
        cb,
      )
      else if ltb s.candidate_requests_total cb.config.min_sample_count
      then (record { tripped = false; state = cb.state; reason = empty; violations = [] }, cb)
      else judge now (violations_of cb.config s) cb
