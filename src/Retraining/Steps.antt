-- ===== src/Retraining/Steps.antt =====
-- The goroutines of retraining_coordinator.go and the calls that are made meanwhile, in any
-- interleaving. `is_open` says whether operators may cancel jobs and reject candidates.
pub mod Keeps
pub mod Production
pub mod Cancel
pub mod Serial
pub mod Ahead
pub mod Lawful
use ropus.Common.{ℕ, ◌+◌, ◌≡◌, String, Bool, true, false, Option, none, some, List, [], ◌∷◌, ◌++◌}
use ropus.Rollout.Float.{Floats}
use ropus.Rollout.Breaker.{CircuitBreakerState}
use ropus.Rollout.Router.Rollback.{Outcome, observe}
use ropus.Retraining.Trigger.{DriftMeasurement, evaluate_drift}
use ropus.Registry.Types.{ModelRegistry}
use ropus.Rollout.Router.{CanaryRouter}
use ropus.Retraining.Types.{RetrainingConfig}
use ropus.Retraining.State.{
  new_retraining_coordinator, RetrainingCoordinator, set_maintenance_mode, set_model_frozen,
  set_retraining_paused, set_canary_paused,
}
use ropus.Retraining.Coordinator.{create_and_start_job, cancel_job, approve_candidate, reject_head}
use ropus.Retraining.Pipeline.{
  Training, Cause, cancelled, operator_rejection, Stage, queueing, entering, rejecting, failing,
  Thread, After, goes_on, returns, panics, advance,
}

pub record System (F : Type 0) : Type 0 where
  pub coordinator : RetrainingCoordinator F
  pub threads : List (Thread F)
  pub has_panicked : Bool

module _ {F : Type 0} where
  abbrev pub remains : After F → List (Thread F) → List (Thread F)
  remains (goes_on t) after = t ∷ after
  remains returns after = after
  remains panics after = after

  abbrev pub is_panic : After F → Bool
  is_panic panics = true
  is_panic _ = false

  -- The system after a step of the goroutine between the two lists.
  unfoldable pub resume :
      List (Thread F) → List (Thread F) → After F → RetrainingCoordinator F → System F
  resume before after next c = record {
    coordinator = c;
    threads = before ++ remains next after;
    has_panicked = is_panic next;
  }

  unfoldable pub spawn :
      Stage F → Option ℕ → Option ℕ → String → ℕ → RetrainingCoordinator F → System F → System F
  spawn stage job cand actor now c s = record s {
    coordinator = c;
    threads =
        s.threads
        ++ (record { job = job; candidate = cand; actor = actor; start = now; stage = stage } ∷ []);
  }

  unfoldable pub leaving : RetrainingCoordinator F → System F → System F
  leaving c s = record s { coordinator = c }

  pub data Switch (c : RetrainingCoordinator F) : RetrainingCoordinator F → Type 0 where
    maintenance : (b : Bool) → Switch c (set_maintenance_mode b c)
    freeze : (b : Bool) → Switch c (set_model_frozen b c)
    pause_retraining : (b : Bool) → Switch c (set_retraining_paused b c)
    pause_canary : (b : Bool) → Switch c (set_canary_paused b c)

module _ (fl : Floats) where
  open fl use {F}

  unfoldable pub new_system : RetrainingConfig F → CanaryRouter F → ModelRegistry → System F
  unfolding new_retraining_coordinator
  new_system cfg router registry = record {
    coordinator = new_retraining_coordinator fl cfg router registry;
    threads = [];
    has_panicked = false;
  }

module _ (fl : Floats) (message : Cause fl.F → String) where
  open fl use {F}

  pub data Step (is_open : Bool) (s : System F) : System F → Type 0 where
    starts :
        (now : ℕ) (id dataset trigger_type reason actor : String) (samples : ℕ)
        (c : RetrainingCoordinator F)
        → s.has_panicked ≡ false
        → create_and_start_job now id dataset trigger_type reason samples s.coordinator ≡ (none, c)
        → Step is_open s (spawn queueing (some (s.coordinator.next_job + 1)) none actor now c s)
    evaluates :
        (now : ℕ) (m : Option (DriftMeasurement F)) (cb : Option CircuitBreakerState)
        → s.has_panicked ≡ false
        → Step is_open s (
            leaving
              (record (s.coordinator) {
                trigger_engine = (evaluate_drift fl now m cb s.coordinator.trigger_engine).1;
              })
              s)
    observes :
        (o : Outcome F)
        → s.has_panicked ≡ false
        → Step is_open s (
            leaving
              (record (s.coordinator) { canary_router = observe fl o s.coordinator.canary_router })
              s)
    switches :
        (c : RetrainingCoordinator F)
        → s.has_panicked ≡ false
        → Switch s.coordinator c
        → Step is_open s (leaving c s)
    approves :
        (now : ℕ) (id actor : String) (cand : ℕ) (c : RetrainingCoordinator F)
        → s.has_panicked ≡ false
        → approve_candidate id s.coordinator ≡ (none, some cand, c)
        → Step is_open s (spawn entering s.coordinator.active_job (some cand) actor now c s)
    cancels :
        (now : ℕ) (id actor reason : String) (job : ℕ)
        → s.has_panicked ≡ false
        → is_open ≡ true
        → cancel_job id s.coordinator ≡ (none, some job)
        → Step is_open s
            (spawn (failing (cancelled actor reason)) (some job) none actor now s.coordinator s)
    rejects :
        (now : ℕ) (id actor reason : String) (cand : ℕ)
        → s.has_panicked ≡ false
        → is_open ≡ true
        → reject_head id s.coordinator ≡ (none, some cand)
        → Step is_open s (
            spawn
              (rejecting (operator_rejection actor reason))
              s.coordinator.active_job
              (some cand)
              actor
              now
              s.coordinator
              s)
    advances :
        (before : List (Thread F)) (t : Thread F) (after : List (Thread F)) (now : ℕ)
        (a : Training F)
        → s.has_panicked ≡ false
        → s.threads ≡ before ++ (t ∷ after)
        → Step is_open s (
            let (next, c) = advance fl message now a t.stage t s.coordinator in
            resume before after next c)

  pub data Steps (is_open : Bool) (s : System F) : System F → Type 0 where
    done : Steps is_open s s
    then_step : {s1 s2 : System F} → Steps is_open s s1 → Step is_open s1 s2 → Steps is_open s s2
