-- ===== src/Retraining/Ends.antt =====
-- The four ways in which a job of retraining_coordinator.go ends. The audit log and the saved state
-- are output.
use ropus.Common.{
  ℕ, ◌-◌, ◌/◌, String, ◌<>◌, Bool, true, false, ◌||◌, Option, none, some, [], ◌∷◌, ◌++◌,
}
use ropus.Common.Int.{pos}
use ropus.Rollout.Float.{Floats}
use ropus.Rollout.Router.{update_config}
use ropus.Registry.Types.{ModelLifecycleState}
use ropus.Registry.Ops.{update_lifecycle_state, promote_model, rollback_model}
use ropus.Retraining.Types.{JobState, promoted, rejected, failed, rolled_back, RetrainingJob}
use ropus.Retraining.State.{RetrainingCoordinator, write_at, write_opt, in_state, count}
use ropus.Retraining.Trigger.{clear_active_job}

module _ {F : Type 0} where
  -- A pointer to a job that has ended, and its copy in the history.
  abbrev pub close_job :
      ℕ → JobState → String → Option ℕ → RetrainingCoordinator F → RetrainingCoordinator F
  close_job now s reason none c = c
  close_job now s reason (some ref) c =
      let jobs' =
        write_at ref
          (λ (j : RetrainingJob). record j { state = s; completed_at = some now; error = reason })
          c.jobs in
      record c { jobs = jobs'; job_history = c.job_history ++ (jobs' ref ∷ []) }

  -- The end of a job that has not been promoted.
  abbrev pub released : ℕ → RetrainingCoordinator F → RetrainingCoordinator F
  released now c = record c {
    trigger_engine = clear_active_job now false c.trigger_engine;
    active_job = none;
  }

  unfoldable pub fail_job :
      ℕ → Option ℕ → String → RetrainingCoordinator F → RetrainingCoordinator F
  fail_job now job reason c =
      released now (close_job now failed reason job (record c { current_state = failed }))

  abbrev pub in_registry :
      ModelLifecycleState → ℕ → RetrainingCoordinator F → RetrainingCoordinator F
  in_registry s cand c = record c {
    model_registry = (update_lifecycle_state (c.cands cand).model.version s c.model_registry).1;
  }

  abbrev pub with_candidate :
      Option ℕ
      → (ℕ → RetrainingCoordinator F → RetrainingCoordinator F)
      → RetrainingCoordinator F
      → RetrainingCoordinator F
  with_candidate none f c = c
  with_candidate (some ref) f c = f ref c

  unfoldable pub reject_candidate :
      ℕ → Option ℕ → Option ℕ → String → RetrainingCoordinator F → RetrainingCoordinator F
  reject_candidate now job cand reason c = released now (
      count "candidate_rejections" (
        with_candidate cand (in_registry ModelLifecycleState.rejected) (
          close_job now rejected reason job (record c {
            current_state = rejected;
            cands = write_opt cand (in_state rejected) c.cands;
          }))))

  -- Whether promotion is blocked, which leads to a rollback.
  abbrev pub is_promotion_blocked : RetrainingCoordinator F → Bool
  is_promotion_blocked c = c.maintenance_mode || c.model_frozen

module _ (fl : Floats) where
  open fl use {F}

  unfoldable pub rollback_candidate :
      ℕ → Option ℕ → Option ℕ → String → String → RetrainingCoordinator F → RetrainingCoordinator F
  rollback_candidate now job cand reason actor c =
      let c1 = close_job now rolled_back reason job (record c {
        current_state = rolled_back;
        cands = write_opt cand (in_state rolled_back) c.cands;
      }) in
      let c2 : RetrainingCoordinator F = record c1 {
        canary_router =
            (update_config fl false (pos 0) actor ("AUTOMATIC ROLLBACK: " <> reason)
              c1.canary_router).1;
      } in
      released now (
        count "candidate_rollbacks" (
          with_candidate cand
            (λ ref x. record x {
              model_registry = (rollback_model (x.cands ref).model.version x.model_registry).1;
            })
            c2))

  -- `promoteCandidate`, where it is not blocked. The error of `PromoteModel` is dropped.
  unfoldable pub promote_candidate :
      ℕ → ℕ → ℕ → ℕ → String → RetrainingCoordinator F → RetrainingCoordinator F
  promote_candidate start now job cand actor c =
      let jobs' =
        write_at job
          (λ (j : RetrainingJob). record j {
            state = promoted;
            completed_at = some now;
            duration_ms = (now - start) / 1000000;
          })
          c.jobs in
      count "candidate_promotions" (record c {
        current_state = promoted;
        cands = write_at cand (in_state promoted) c.cands;
        jobs = jobs';
        canary_router =
            (update_config fl false (pos 0) actor
              "Promotion completed; candidate promoted to primary production" c.canary_router).1;
        model_registry = (promote_model (c.cands cand).model.version now c.model_registry).1;
        trigger_engine = clear_active_job now true c.trigger_engine;
        active_job = none;
        job_history = c.job_history ++ (jobs' job ∷ []);
      })
