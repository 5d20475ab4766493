-- ===== src/Retraining/Trigger/Drift.antt =====
-- The cooldown of the trigger engine over any sequence of calls.
use ropus.Common.{
  ℕ, ◌+◌, ◌<◌, ◌≡◌, refl, String, Bool, true, false, Option, none, some, List, [], ◌∷◌, arith,
}
use ropus.Common.Int.{pos}
use ropus.Rollout.Float.{Floats}
use ropus.Rollout.Breaker.{CircuitBreakerState}
use ropus.Retraining.Trigger.{
  DriftMeasurement, RetrainingTriggerEngine, should_trigger, suppressed_by, judge_drift, answer_or,
  evaluate_drift, set_active_job, clear_active_job,
}

-- A call that neither starts a job nor changes the configuration.
pub data Call (F : Type 0) : Type 0 where
  evaluates : ℕ → Option (DriftMeasurement F) → Option CircuitBreakerState → Call F
  clears : ℕ → Bool → Call F

module _ (fl : Floats) where
  open fl use {F}

  unfoldable pub call : Call F → RetrainingTriggerEngine F → RetrainingTriggerEngine F
  call (evaluates now m cb) e = (evaluate_drift fl now m cb e).1
  call (clears now success) e = clear_active_job now success e

  unfoldable pub run : List (Call F) → RetrainingTriggerEngine F → RetrainingTriggerEngine F
  run [] e = e
  run (c ∷ cs) e = run cs (call c e)

  -- What a call leaves.
  call_keeps :
      (c : Call F) (e : RetrainingTriggerEngine F)
      → ((call c e).last_trigger_time ≡ e.last_trigger_time) × ((call c e).config ≡ e.config)
  unfolding call evaluate_drift answer_or judge_drift clear_active_job
  call_keeps (evaluates now none cb) e = (refl, refl)
  call_keeps (evaluates now (some m) cb) e = (ground arith, ground arith)
  call_keeps (clears now true) e = (refl, refl)
  call_keeps (clears now false) e = (refl, refl)

  run_keeps :
      (cs : List (Call F)) (e : RetrainingTriggerEngine F)
      → ((run cs e).last_trigger_time ≡ e.last_trigger_time) × ((run cs e).config ≡ e.config)
  unfolding run
  run_keeps [] e = (refl, refl)
  run_keeps (c ∷ cs) e =
      let (t, g) = call_keeps c e in
      let (t', g') = run_keeps cs (call c e) in (ground arith, ground arith)

  cooling_refuses :
      (now last d : ℕ) (m : Option (DriftMeasurement F)) (cb : Option CircuitBreakerState)
      (e : RetrainingTriggerEngine F)
      → e.last_trigger_time ≡ some last
      → e.config.cooldown_duration ≡ pos d
      → now < last + d
      → should_trigger (evaluate_drift fl now m cb e).0 ≡ false
  unfolding evaluate_drift suppressed_by answer_or
  cooling_refuses now last d none cb e t c q = ground arith
  cooling_refuses now last d (some m) cb e t c q = rw (t, c) (ground arith)

  -- One trigger in a cooldown: once a job has been started, whatever drift is evaluated and whether
  -- or not the job has ended, no evaluation triggers another one before the cooldown is over.
  pub cooldown_holds :
      (start d : ℕ) (job reason : String) (e : RetrainingTriggerEngine F) (cs : List (Call F))
      (now : ℕ) (m : Option (DriftMeasurement F)) (cb : Option CircuitBreakerState)
      → e.config.cooldown_duration ≡ pos d
      → now < start + d
      → should_trigger (evaluate_drift fl now m cb (run cs (set_active_job start job reason e))).0
        ≡ false
  unfolding set_active_job
  cooldown_holds start d job reason e cs now m cb c q =
      let e' = set_active_job start job reason e in
      let (t, g) = run_keeps cs e' in
      cooling_refuses now start d m cb (run cs e') t (ground arith) q
