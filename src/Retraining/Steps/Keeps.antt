-- ===== src/Retraining/Steps/Keeps.antt =====
-- The stages and calls of the retraining coordinator that keep the production model.
use ropus.Common.{ℕ, ◌≡◌, ◌∙◌, ◌⊎◌, refl, String, Bool, true, false, Option, none, some, arith}
use ropus.Registry.Types.{ModelRegistry, ModelLifecycleState, ModelCandidate as RegistryCandidate}
use ropus.Registry.Ops.{register_candidate, update_lifecycle_state, rollback_model, promote_model}
use ropus.Retraining.Types.{JobState}
use ropus.Retraining.State.{
  RetrainingCoordinator, count, set_maintenance_mode, set_model_frozen, set_retraining_paused,
  set_canary_paused,
}
use ropus.Retraining.Ends.{close_job, in_registry, with_candidate, reject_candidate}
use ropus.Retraining.Coordinator.{create_and_start_job, approve_candidate, transition_job_state}
use ropus.Retraining.Pipeline.{
  Training, Cause, Trained, Stage, Thread, After, moving, trained, store_candidate, gated,
  put_in_canary, enter_canary, set_stage, promote, advance, polled, goes_to, mark_approved, returns,
  goes_on, panics, queueing, to_training, starting, waiting, storing, to_validating, judging,
  to_shadow, shadowing, to_approval, entering, staging, observing, promoting, rejecting,
  rolling_back, failing,
}
use ropus.Retraining.Pipeline
use ropus.Retraining.Steps.{Switch}

module _ {F : Type 0} where
  abbrev pub production : RetrainingCoordinator F → String
  production c = c.model_registry.production_model

update_lifecycle_state-production :
    (v : String) (s : ModelLifecycleState) (r : ModelRegistry)
    → (update_lifecycle_state v s r).1.production_model ≡ r.production_model
unfolding update_lifecycle_state
update_lifecycle_state-production v s r = ground arith

pub rollback_model-production :
    (v : String) (r : ModelRegistry) → (rollback_model v r).1.production_model ≡ r.production_model
unfolding rollback_model
rollback_model-production v r = ground arith

register_candidate-production :
    (m : RegistryCandidate) (path sum : String) (now : ℕ) (r : ModelRegistry)
    → (register_candidate m path sum now r).1.production_model ≡ r.production_model
unfolding register_candidate
register_candidate-production m path sum now r = ground arith

pub promote_model-production :
    (v : String) (now : ℕ) (r : ModelRegistry)
    → ((promote_model v now r).1.production_model ≡ r.production_model)
      ⊎ ((promote_model v now r).1.production_model ≡ v)
unfolding promote_model
promote_model-production v now r = ground arith

module _ {F : Type 0} where
  with_candidate-production :
      (cand : Option ℕ) (s : ModelLifecycleState) (c : RetrainingCoordinator F)
      → production (with_candidate cand (in_registry s) c) ≡ production c
  with_candidate-production none s c = refl
  with_candidate-production (some ref) s c = update_lifecycle_state-production _ s c.model_registry

  pub close_job-production :
      (now : ℕ) (s : JobState) (reason : String) (job : Option ℕ) (c : RetrainingCoordinator F)
      → production (close_job now s reason job c) ≡ production c
  close_job-production now s reason none c = refl
  close_job-production now s reason (some ref) c = refl

  -- What `advance` leads to, unless it is a promotion.
  abbrev pub Keeps : RetrainingCoordinator F → After F × RetrainingCoordinator F → Type 0
  Keeps c r = production r.1 ≡ production c

  pub moving-Keeps :
      (target : JobState) (t : Thread F) (next : After F) (c : RetrainingCoordinator F)
      → Keeps c (moving target t next c)
  unfolding moving transition_job_state
  moving-Keeps target t next c = ground arith

  pub trained-Keeps :
      (a : Training F) (t : Thread F) (c : RetrainingCoordinator F) (now : ℕ)
      → Keeps c (trained a t c now)
  unfolding trained
  trained-Keeps Pipeline.is_running t c now = refl
  trained-Keeps (Pipeline.refused e) t c now = refl
  trained-Keeps (Pipeline.not_succeeded s e) t c now = refl
  trained-Keeps (Pipeline.succeeded r) t c now =
      register_candidate-production r.candidate.model r.artifact_path r.artifact_checksum now
        c.model_registry

  pub gated-Keeps :
      (b : Bool) (failures : String) (s : ModelLifecycleState) (cause : Cause F) (next : Stage F)
      (t : Thread F) (c : RetrainingCoordinator F)
      → Keeps c (gated b failures s cause next t c)
  unfolding gated
  gated-Keeps true failures s cause next t c = with_candidate-production t.candidate s c
  gated-Keeps false failures s cause next t c =
      with_candidate-production t.candidate ModelLifecycleState.rejected
        (count "candidate_rejections" (count failures c))

  pub enter_canary-Keeps : (t : Thread F) (c : RetrainingCoordinator F) → Keeps c (enter_canary t c)
  unfolding enter_canary
  enter_canary-Keeps t c = ground (
    arith,
    with_candidate-production t.candidate ModelLifecycleState.canary c,
    with_candidate-production t.candidate ModelLifecycleState.canary (put_in_canary t c),
  )

  pub mark_approved-production :
      (next : After F) (t : Thread F) (c : RetrainingCoordinator F)
      → production (mark_approved next t c) ≡ production c
  mark_approved-production returns t c =
      with_candidate-production t.candidate ModelLifecycleState.approved c
  mark_approved-production (goes_on _) t c = refl
  mark_approved-production panics t c = refl

  pub reject_candidate-production :
      (now : ℕ) (job cand : Option ℕ) (reason : String) (c : RetrainingCoordinator F)
      → production (reject_candidate now job cand reason c) ≡ production c
  unfolding reject_candidate
  reject_candidate-production now job cand reason c =
      with_candidate-production cand ModelLifecycleState.rejected _
      ∙ close_job-production now JobState.rejected reason job _

  pub create_and_start_job-production :
      (now : ℕ) (id dataset trigger_type reason : String) (samples : ℕ)
      (c : RetrainingCoordinator F)
      → production (create_and_start_job now id dataset trigger_type reason samples c).1
        ≡ production c
  unfolding create_and_start_job
  create_and_start_job-production now id dataset trigger_type reason samples c = ground arith

  pub approve_candidate-production :
      (id : String) (c : RetrainingCoordinator F)
      → production (approve_candidate id c).2 ≡ production c
  unfolding approve_candidate
  approve_candidate-production id c = ground arith

  pub Switch-production :
      {c c' : RetrainingCoordinator F} → Switch c c' → production c' ≡ production c
  unfolding set_maintenance_mode set_model_frozen set_retraining_paused set_canary_paused
  Switch-production (Switch.maintenance b) = refl
  Switch-production (Switch.freeze b) = refl
  Switch-production (Switch.pause_retraining b) = refl
  Switch-production (Switch.pause_canary b) = refl
  -- What a step of a goroutine does to the production model.
