-- ===== src/Examples/Retraining.antt =====
-- Tests of retraining_trigger.go, offline_validator.go and retraining_coordinator.go, over natural
-- numbers of hundredths as floats.
use ropus.Common.{
  ℕ, ◌*◌, ◌≤◌, ◌≡◌, ◌⊎◌, refl, String, true, false, Option, none, some, List, [], ◌∷◌, ◌++◌, arith,
}
use ropus.Common.Int.{pos}
use ropus.Registry.Types.{ModelRegistry}
use ropus.Registry.Ops.{new_model_registry}
use ropus.Retraining.Types.{
  canary, failed, promoted, can_transition_to, RetrainingConfig, default_retraining_config,
  ValidationMetrics, minute,
}
use ropus.Retraining.Trigger.{
  DriftMeasurement, critical, RetrainingTriggerEngine, new_trigger_engine, should_trigger,
  suppressed_by, judge_drift, evaluate_drift, set_active_job,
}
use ropus.Retraining.Trigger.Drift.{clears, run, cooldown_holds}
use ropus.Retraining.Gates.{gates, default_production_baseline_metrics, validate_candidate}
use ropus.Retraining.State.{RetrainingCoordinator}
use ropus.Retraining.Ends.{is_promotion_blocked}
use ropus.Retraining.Coordinator.{create_and_start_job, transition_job_state}
use ropus.Retraining.Pipeline.{
  is_running, Cause, Thread, After, goes_on, moving, queueing, to_training, promoting, advance,
}
use ropus.Retraining.Pipeline.Progress.{waits, stays, then_goes, Journey-length}
use ropus.Retraining.Steps.{System, new_system, resume, spawn, Step, Steps, done, then_step}
use ropus.Retraining.Steps.Keeps.{production}
use ropus.Retraining.Steps.Production.{Changes, production_guarded}
use ropus.Retraining.Steps.Lawful.{lifecycle_holds}
use ropus.Retraining.Steps.Serial.{IsSerial, Lawful}
use ropus.Retraining.Steps.Cancel.{cancel_race}
use ropus.Examples.Rollout.{hundredths, router}

abbrev config : RetrainingConfig ℕ
config = default_retraining_config hundredths

abbrev engine : RetrainingTriggerEngine ℕ
engine = new_trigger_engine hundredths config

abbrev drift : Option (DriftMeasurement ℕ)
drift = some (record { sample_count = pos 500; overall_status = critical; max_psi = 40 })

-- Critical drift triggers at once, and not again in the cooldown.
critical_triggers : should_trigger (evaluate_drift hundredths 0 drift none engine).0 ≡ true
unfolding evaluate_drift new_trigger_engine suppressed_by default_retraining_config judge_drift
critical_triggers = refl

engine-cooldown : engine.config.cooldown_duration ≡ pos (30 * minute)
unfolding new_trigger_engine default_retraining_config
engine-cooldown = refl

cooldown_holds_example :
    should_trigger
      (evaluate_drift hundredths
        (20 * minute)
        drift
        none
        (run hundredths (clears minute true ∷ []) (set_active_job 0 "job-1" "drift" engine))).0
    ≡ false
cooldown_holds_example =
    cooldown_holds hundredths 0 (30 * minute) "job-1" "drift" engine (clears minute true ∷ [])
      (20 * minute) drift none engine-cooldown (omega arith)

abbrev measured : ValidationMetrics ℕ
measured = record (default_production_baseline_metrics hundredths) { roc_auc = 91 }

-- One inference error is enough.
one_error :
    (validate_candidate hundredths config
      (record measured { inference_errors = pos 1 })
      (default_production_baseline_metrics hundredths)).passed
    ≡ false
unfolding validate_candidate gates default_production_baseline_metrics default_retraining_config
one_error = refl

abbrev registry : ModelRegistry
registry = new_model_registry 1

abbrev text : Cause ℕ → String
text _ = "reason"

abbrev fresh : System ℕ
fresh = new_system hundredths config router registry

-- The coordinator after a manual trigger, and the system with the job's goroutine.
abbrev triggered_now : RetrainingCoordinator ℕ
triggered_now =
    (create_and_start_job 5 "job-1" "set" "MANUAL_OPERATOR" "drift" 1000 fresh.coordinator).1

abbrev worker : Thread ℕ
worker = record { job = some 1; candidate = none; actor = "ops"; start = 5; stage = queueing }

abbrev working : System ℕ
working = spawn queueing (some 1) none "ops" 5 triggered_now fresh

starts : Step hundredths text false fresh working
unfolding new_system create_and_start_job
starts = Step.starts 5 "job-1" "set" "MANUAL_OPERATOR" "drift" "ops" 1000 triggered_now refl refl

abbrev queued_next : After ℕ × RetrainingCoordinator ℕ
queued_next = advance hundredths text 6 is_running queueing worker triggered_now

abbrev queued_system : System ℕ
queued_system = resume [] [] queued_next.0 queued_next.1

queues : Step hundredths text false working queued_system
unfolding new_system create_and_start_job spawn
queues = Step.advances [] worker [] 6 is_running refl refl

lifecycle_holds_example :
    Lawful working.coordinator queued_system.coordinator × IsSerial queued_system
lifecycle_holds_example =
    lifecycle_holds hundredths text config router registry working queued_system
      (then_step done starts) queues

is_queued :
    (advance hundredths text 6 is_running queueing worker triggered_now).0
    ≡ goes_on (record worker { stage = to_training })
unfolding advance moving transition_job_state can_transition_to create_and_start_job new_system
is_queued = refl

is_no_wait : waits is_running worker.stage triggered_now ≡ false
unfolding waits
is_no_wait = refl

Journey-length_example : 1 ≤ 33
Journey-length_example =
    Journey-length hundredths text worker (record worker { stage = to_training }) 1 refl
      (then_goes 6 is_running triggered_now stays is_no_wait is_queued)

-- A rollout that is about to promote.
abbrev promoter : Thread ℕ
promoter = record { job = some 1; candidate = some 0; actor = "ops"; start = 5; stage = promoting }

abbrev ready : System ℕ
ready = record {
  coordinator = record triggered_now {
    current_state = canary;
    next_cand = 1;
    active_candidate = some 0;
  };
  threads = promoter ∷ [];
  has_panicked = false;
}

abbrev promotion : After ℕ × RetrainingCoordinator ℕ
promotion = advance hundredths text 9 is_running promoting promoter ready.coordinator

abbrev promoted_system : System ℕ
promoted_system = resume [] [] promotion.0 promotion.1

promotes : Step hundredths text true ready promoted_system
promotes = Step.advances [] promoter [] 9 is_running refl refl

production_guarded_example :
    (production promoted_system.coordinator ≡ production ready.coordinator)
    ⊎ ((before : List (Thread ℕ)) × (t : Thread ℕ) × (after : List (Thread ℕ)) × (ready.threads
          ≡ before ++ (t ∷ after))
        × Changes t ready.coordinator promoted_system.coordinator)
production_guarded_example = production_guarded hundredths text true ready promoted_system promotes

ready-IsActive : ready.coordinator.active_job ≡ some 0
unfolding new_system create_and_start_job
ready-IsActive = refl

ready-IsFree : is_promotion_blocked ready.coordinator ≡ false
unfolding new_system create_and_start_job
ready-IsFree = refl

cancel_race_example :
    (s1 : System ℕ) × (s2 : System ℕ) × Steps hundredths text true ready s1
    × (s1.coordinator.active_job ≡ none)
    × (s1.coordinator.current_state ≡ failed)
    × Step hundredths text true s1 s2
    × (s2.coordinator.current_state ≡ promoted)
    × (can_transition_to failed promoted ≡ false)
cancel_race_example =
    cancel_race hundredths text 9 1 0 0 promoter [] [] ready refl refl refl refl refl ready-IsFree
      ready-IsActive
