-- ===== src/Retraining/Trigger.antt =====
-- `RetrainingTriggerEngine` of retraining_trigger.go. Each call is given the clock reading that it
-- makes. The reasons are constructors, without the values that are printed.
use ropus.Common.{
  ℕ, ◌+◌, ◌-◌, ◌/◌, ◌%◌, ◌^◌, String, str_eq, Bool, true, false, not, ◌&&◌, ◌||◌, Option, none,
  some, if◌then◌else◌, ltb, leb,
}
use ropus.Common.Int.{ℤ, pos, negsuc}
use ropus.Rollout.Float.{Floats}
use ropus.Rollout.Breaker.{CircuitBreakerState}
use ropus.Retraining.Types.{RetrainingConfig, JobState, validate_config}
pub mod Drift

pub data ModelDriftStatus : Type 0 where
  healthy warning degraded critical : ModelDriftStatus

-- The fields of `DriftMeasurement` that decide.
pub record DriftMeasurement (F : Type 0) : Type 0 where
  pub sample_count : ℤ
  pub overall_status : ModelDriftStatus
  pub max_psi : F

pub record RetrainingTriggerEngine (F : Type 0) : Type 0 where
  pub config : RetrainingConfig F
  pub consecutive_drift_count : ℕ
  pub last_trigger_time : Option ℕ
  pub last_trigger_reason : String
  pub last_successful_training_time : Option ℕ
  pub last_failure_time : Option ℕ
  pub active_job_id : String

pub data TriggerAnswer : Type 0 where
  disabled no_measurement breaker_unhealthy job_active below_quorum in_cooldown stable observed :
      TriggerAnswer
  drift_critical drift_sustained : TriggerAnswer

abbrev pub should_trigger : TriggerAnswer → Bool
should_trigger drift_critical = true
should_trigger drift_sustained = true
should_trigger _ = false

-- `uint32(n)`
abbrev pub to_uint32 : ℤ → ℕ
to_uint32 (pos n) = n % 2 ^ 32
to_uint32 (negsuc n) = 2 ^ 32 - 1 - n % 2 ^ 32

-- A state that is neither healthy nor the empty string, which is none.
abbrev pub is_unhealthy : Option CircuitBreakerState → Bool
is_unhealthy none = false
is_unhealthy (some CircuitBreakerState.healthy) = false
is_unhealthy (some _) = true

-- An `int` is less than a natural number plus one: `n >= d` of a counter and a limit.
abbrev pub reaches : ℕ → ℤ → Bool
reaches n (pos d) = leb d n
reaches n (negsuc _) = true

-- `now.Sub(last) < cooldown`, of a last time that is not zero.
abbrev pub is_cooling : ℕ → ℤ → Option ℕ → Bool
is_cooling now d none = false
is_cooling now (pos d) (some last) = ltb now (last + d)
is_cooling now (negsuc d) (some last) = ltb (now + d + 1) last

abbrev is_critical : ModelDriftStatus → Bool
is_critical critical = true
is_critical _ = false

abbrev is_degraded : ModelDriftStatus → Bool
is_degraded degraded = true
is_degraded _ = false

module _ (fl : Floats) where
  open fl use {F, literal, is_ge}

  unfoldable pub new_trigger_engine : RetrainingConfig F → RetrainingTriggerEngine F
  unfolding validate_config
  new_trigger_engine cfg = record {
    config = validate_config fl cfg;
    consecutive_drift_count = 0;
    last_trigger_time = none;
    last_trigger_reason = "";
    last_successful_training_time = none;
    last_failure_time = none;
    active_job_id = "";
  }

  unfoldable pub update_trigger_config :
      RetrainingConfig F → RetrainingTriggerEngine F → RetrainingTriggerEngine F
  update_trigger_config cfg e = record e { config = validate_config fl cfg }

  abbrev pub is_drifted : RetrainingConfig F → DriftMeasurement F → Bool
  is_drifted cfg m =
      is_ge m.max_psi cfg.drift_threshold
      || is_critical m.overall_status
      || is_degraded m.overall_status

  -- Critical drift, which triggers at once.
  abbrev pub is_severe : DriftMeasurement F → Bool
  is_severe m = is_critical m.overall_status && is_ge m.max_psi (literal 30 100)

  -- The tests before the drift itself is looked at.
  unfoldable pub suppressed_by :
      ℕ
      → DriftMeasurement F
      → Option CircuitBreakerState
      → RetrainingTriggerEngine F
      → Option TriggerAnswer
  suppressed_by now m cb e =
      if not e.config.enabled
      then some disabled
      else if is_unhealthy cb
      then some breaker_unhealthy
      else if not (str_eq e.active_job_id "")
      then some job_active
      else if ltb (to_uint32 m.sample_count) e.config.min_samples
      then some below_quorum
      else if is_cooling now e.config.cooldown_duration e.last_trigger_time
      then some in_cooldown
      else none

  unfoldable pub judge_drift :
      DriftMeasurement F → RetrainingTriggerEngine F → TriggerAnswer × RetrainingTriggerEngine F
  judge_drift m e =
      let n = e.consecutive_drift_count + 1 in
      if not (is_drifted e.config m)
      then (stable, record e { consecutive_drift_count = 0 })
      else if is_severe m
      then (drift_critical, record e { consecutive_drift_count = n })
      else if reaches n e.config.required_consecutive_windows
      then (drift_sustained, record e { consecutive_drift_count = n })
      else (observed, record e { consecutive_drift_count = n })

  answer_or :
      Option TriggerAnswer
      → DriftMeasurement F
      → RetrainingTriggerEngine F
      → TriggerAnswer × RetrainingTriggerEngine F
  answer_or (some a) m e = (a, e)
  answer_or none m e = judge_drift m e

  -- A missing measurement is not looked at before the subsystem is found enabled.
  unfoldable pub evaluate_drift :
      ℕ
      → Option (DriftMeasurement F)
      → Option CircuitBreakerState
      → RetrainingTriggerEngine F
      → TriggerAnswer × RetrainingTriggerEngine F
  unfolding answer_or
  evaluate_drift now none cb e = ((if not e.config.enabled then disabled else no_measurement), e)
  evaluate_drift now (some m) cb e = answer_or (suppressed_by now m cb e) m e

module _ {F : Type 0} where
  unfoldable pub set_active_job :
      ℕ → String → String → RetrainingTriggerEngine F → RetrainingTriggerEngine F
  set_active_job now job reason e = record e {
    active_job_id = job;
    last_trigger_time = some now;
    last_trigger_reason = reason;
  }

  unfoldable pub clear_active_job : ℕ → Bool → RetrainingTriggerEngine F → RetrainingTriggerEngine F
  clear_active_job now true e = record e {
    active_job_id = "";
    consecutive_drift_count = 0;
    last_successful_training_time = some now;
  }
  clear_active_job now false e = record e {
    active_job_id = "";
    consecutive_drift_count = 0;
    last_failure_time = some now;
  }

  unfoldable pub can_trigger_manual :
      Option CircuitBreakerState → RetrainingTriggerEngine F → Option TriggerAnswer
  can_trigger_manual cb e =
      if not e.config.enabled
      then some disabled
      else if is_unhealthy cb
      then some breaker_unhealthy
      else if not (str_eq e.active_job_id "")
      then some job_active
      else none

  -- The seconds of `cooldown_remaining_sec`, of a cooldown that is not negative: `Seconds` and the
  -- conversion to an integer round a whole number of nanoseconds down.
  unfoldable pub cooldown_remaining_sec : ℕ → ℕ → RetrainingTriggerEngine F → ℕ
  cooldown_remaining_sec now cooldown e = elim (e.last_trigger_time) [
    | none ↦ 0
    | some last ↦ (cooldown - (now - last)) / 1000000000
  ]
