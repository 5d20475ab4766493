-- ===== src/Retraining/Steps/Cancel.antt =====
-- A cancellation of `CancelJob` against the goroutine that promotes.
use ropus.Common.{
  ℕ, ◌∙◌, ◌≡◌, refl, String, eq_iff, true, false, Option, none, some, List, [], ◌∷◌, ◌++◌, arith,
}
use mathlib.Core.List.{append-nil}
use ropus.Rollout.Float.{Floats}
use ropus.Retraining.Types.{failed, promoted, can_transition_to}
use ropus.Retraining.State.{RetrainingCoordinator}
use ropus.Retraining.Ends.{fail_job, is_promotion_blocked, promote_candidate}
use ropus.Retraining.Coordinator.{cancel_job}
use ropus.Retraining.Pipeline.{
  Training, is_running, Cause, cancelled, Thread, returns, promoting, failing, promote, advance,
}
use ropus.Retraining.Steps.{System, resume, spawn, Step, Steps, done, then_step}

module _ {F : Type 0} where
  fail_job-same :
      (now : ℕ) (job : Option ℕ) (reason : String) (c : RetrainingCoordinator F)
      → let c' = fail_job now job reason c in
        (c'.current_state ≡ failed)
        × (c'.active_job ≡ none)
        × (c'.maintenance_mode ≡ c.maintenance_mode)
        × (c'.model_frozen ≡ c.model_frozen)
  unfolding fail_job
  fail_job-same now none reason c = (refl, refl, refl, refl)
  fail_job-same now (some ref) reason c = (refl, refl, refl, refl)

module _ (fl : Floats) (message : Cause fl.F → String) where
  open fl use {F}

  cancel_job-active :
      (ref : ℕ) (c : RetrainingCoordinator F)
      → c.active_job ≡ some ref
      → cancel_job (c.jobs ref).job_id c ≡ (none, some ref)
  unfolding cancel_job
  cancel_job-active ref c e = ground (arith, eq_iff (c.jobs ref).job_id (c.jobs ref).job_id)

  promotes :
      (now job cand : ℕ) (t : Thread F) (c : RetrainingCoordinator F)
      → t.stage ≡ promoting
      → t.job ≡ some job
      → t.candidate ≡ some cand
      → is_promotion_blocked c ≡ false
      → (a : Training F) → (advance fl message now a t.stage t c).1.current_state ≡ promoted
  unfolding advance promote promote_candidate
  promotes now job cand t c e j k free a = rw (e, j, k, free) refl

  -- A cancellation does not stop a promotion. While a goroutine is about to promote its candidate,
  -- and neither maintenance mode nor a freeze is on, the active job can be cancelled, which leaves
  -- no active job and the state `failed`; and then the goroutine promotes the candidate all the
  -- same, from `failed` to `promoted`, which `CanTransitionTo` does not allow.
  pub cancel_race :
      (now job cand ref : ℕ) (t : Thread F) (before after : List (Thread F)) (s : System F)
      → s.has_panicked ≡ false
      → s.threads ≡ before ++ (t ∷ after)
      → t.stage ≡ promoting
      → t.job ≡ some job
      → t.candidate ≡ some cand
      → is_promotion_blocked s.coordinator ≡ false
      → s.coordinator.active_job ≡ some ref
      → (s1 : System F) × (s2 : System F) × Steps fl message true s s1
        × (s1.coordinator.active_job ≡ none)
        × (s1.coordinator.current_state ≡ failed)
        × Step fl message true s1 s2
        × (s2.coordinator.current_state ≡ promoted)
        × (can_transition_to failed promoted ≡ false)
  unfolding can_transition_to spawn resume advance
  cancel_race now job cand ref t before after s p q e j k free active =
      let c = s.coordinator in
      let cause : Cause F = cancelled "operator" "reason" in
      let c1 = fail_job now (some ref) (message cause) c in
      let (f, none_active, m, z) = fail_job-same now (some ref) (message cause) c in
      let x : System F = spawn (failing cause) (some ref) none "operator" now c s in
      let s1 : System F = resume s.threads [] returns c1 in
      let (next, c2) = advance fl message now is_running t.stage t c1 in
      let s2 : System F = resume before after next c2 in
      let one : Step fl message true s x =
        Step.cancels now (c.jobs ref).job_id "operator" "reason" ref p refl
          (cancel_job-active ref c active) in
      let two : Step fl message true x s1 = Step.advances s.threads _ [] now is_running p refl in
      let three : Step fl message true s1 s2 =
        Step.advances before t after now is_running refl (append-nil s.threads ∙ q) in
      (
        s1,
        s2,
        then_step (then_step done one) two,
        none_active,
        f,
        three,
        promotes now job cand t c1 e j k (rw (m, z) free) is_running,
        refl,
      )
