-- ===== src/Retraining/Steps/Serial.antt =====
-- A coordinator on which nobody cancels a job or rejects a candidate: its goroutines and its state
-- go together.
use ropus.Common.{
  ℕ, ◌≡◌, ◌⊎◌, inl, inr, refl, String, Bool, true, false, not, ◌||◌, Option, none, some, List, [],
  ◌∷◌, arith, Bool-cases,
}
use ropus.Rollout.Float.{Floats}
use ropus.Registry.Types.{ModelLifecycleState}
use ropus.Retraining.Types.{
  JobState, triggered, queued, training, validating, shadow_evaluation, awaiting_approval, canary,
  can_transition_to,
}
use ropus.Retraining.State.{RetrainingCoordinator, is_some_ref, count}
use ropus.Retraining.Ends.{
  close_job, in_registry, with_candidate, is_promotion_blocked, promote_candidate,
}
use ropus.Retraining.Coordinator.{moved, transition_job_state, is_settled}
use ropus.Retraining.Pipeline.{
  Training, Cause, Trained, Stage, Thread, After, moving, trained, store_candidate, gated,
  put_in_canary, enter_canary, check_hold, set_stage, promote, advance, polled, goes_to,
  mark_approved, returns, goes_on, panics, queueing, to_training, starting, waiting, storing,
  to_validating, judging, to_shadow, shadowing, to_approval, entering, staging, updating, observing,
  promoting, rejecting, rolling_back, failing,
}
use ropus.Retraining.Pipeline
use ropus.Retraining.Steps.{System}

module _ {F : Type 0} where
  -- The state in which a goroutine reaches a stage.
  unfoldable pub Expects : Stage F → JobState → Type 0
  Expects queueing s = s ≡ triggered
  Expects to_training s = s ≡ queued
  Expects starting s = s ≡ training
  Expects waiting s = s ≡ training
  Expects (storing _) s = s ≡ training
  Expects (to_validating _) s = s ≡ training
  Expects (judging _) s = s ≡ validating
  Expects to_shadow s = s ≡ validating
  Expects shadowing s = s ≡ shadow_evaluation
  Expects to_approval s = s ≡ shadow_evaluation
  Expects entering s = (s ≡ shadow_evaluation) ⊎ (s ≡ canary)
  Expects (staging _) s = s ≡ canary
  Expects (updating _ _) s = s ≡ canary
  Expects (observing _ _) s = s ≡ canary
  Expects promoting s = s ≡ canary
  Expects (rejecting _) s = (s ≡ validating) ⊎ (s ≡ shadow_evaluation)
  Expects (rolling_back _) s = s ≡ canary
  Expects (failing _) s = s ≡ training

  -- Whether a goroutine at the stage has a candidate.
  unfoldable pub has_stored : Stage F → Bool
  has_stored queueing = false
  has_stored to_training = false
  has_stored starting = false
  has_stored waiting = false
  has_stored (storing _) = false
  has_stored (failing _) = false
  has_stored _ = true

  abbrev pub Fits : Stage F → Thread F → RetrainingCoordinator F → Type 0
  Fits stage t c =
      Expects stage c.current_state
      × (is_some_ref t.job ≡ true)
      × (is_some_ref c.active_job ≡ true)
      × ((not (has_stored stage) || is_some_ref t.candidate) ≡ true)

  -- A coordinator whose job, if it has one, waits for approval.
  unfoldable pub Rests : RetrainingCoordinator F → Type 0
  Rests c =
      ((is_settled c.current_state ≡ true) × (c.active_job ≡ none))
      ⊎ ((c.current_state ≡ awaiting_approval) × (is_some_ref c.active_job ≡ true))

  unfoldable pub IsSerial : System F → Type 0
  IsSerial s =
      (s.has_panicked ≡ false)
      × (((s.threads ≡ []) × Rests s.coordinator)
          ⊎ ((t : Thread F) × (s.threads ≡ t ∷ []) × Fits t.stage t s.coordinator))

  -- A state that is left as it is or along an edge of `CanTransitionTo`.
  abbrev pub Lawful : RetrainingCoordinator F → RetrainingCoordinator F → Type 0
  Lawful c c' =
      (c'.current_state ≡ c.current_state)
      ⊎ (can_transition_to c.current_state c'.current_state ≡ true)

  -- What a step of a goroutine that fits leads to.
  unfoldable pub Leads : RetrainingCoordinator F → After F × RetrainingCoordinator F → Type 0
  Leads c (goes_on t, c') = Lawful c c' × Fits t.stage t c'
  Leads c (returns, c') = Lawful c c' × Rests c'
  Leads c (panics, c') = true ≡ false

  pub moving-Leads :
      (stage : Stage F) (from target : JobState) (t : Thread F) (next : Stage F)
      (c : RetrainingCoordinator F)
      → Fits stage t c
      → c.current_state ≡ from
      → can_transition_to from target ≡ true
      → Expects next target
      → (not (has_stored next) || is_some_ref t.candidate) ≡ true
      → Leads c (moving target t (goes_to next t) c)
  unfolding moving transition_job_state Leads
  moving-Leads stage from target t next c h e k x n = rw (e, k) (inr k, (x, h.1, h.2, n))

  pub trained-Leads :
      (stage : Stage F) (a : Training F) (t : Thread F) (c : RetrainingCoordinator F) (now : ℕ)
      → Fits stage t c
      → c.current_state ≡ training
      → Leads c (trained a t c now)
  unfolding trained Leads Expects has_stored
  trained-Leads stage Pipeline.is_running t c now h e = (inl refl, (e, h.1, h.2, refl))
  trained-Leads stage (Pipeline.refused x) t c now h e = (inl refl, (e, h.1, h.2, refl))
  trained-Leads stage (Pipeline.not_succeeded s x) t c now h e = (inl refl, (e, h.1, h.2, refl))
  trained-Leads stage (Pipeline.succeeded r) t c now h e = (inl refl, (e, h.1, h.2, refl))

  pub with_candidate-same :
      (cand : Option ℕ) (s : ModelLifecycleState) (c : RetrainingCoordinator F)
      → let c' = with_candidate cand (in_registry s) c in
        (c'.current_state ≡ c.current_state) × (c'.active_job ≡ c.active_job)
  with_candidate-same none s c = (refl, refl)
  with_candidate-same (some ref) s c = (refl, refl)

  pub close_job-same :
      (now : ℕ) (s : JobState) (reason : String) (job : Option ℕ) (c : RetrainingCoordinator F)
      → (close_job now s reason job c).current_state ≡ c.current_state
  close_job-same now s reason none c = refl
  close_job-same now s reason (some ref) c = refl

  pub gated-Leads :
      (stage : Stage F) (b : Bool) (failures : String) (s : ModelLifecycleState) (cause : Cause F)
      (next : Stage F) (t : Thread F) (c : RetrainingCoordinator F)
      → Fits stage t c
      → Expects next c.current_state
      → Expects (rejecting cause) c.current_state
      → is_some_ref t.candidate ≡ true
      → Leads c (gated b failures s cause next t c)
  unfolding gated Leads
  gated-Leads stage true failures s cause next t c h x r n =
      let (u, v) = with_candidate-same t.candidate s c in
      (inl u, (rw u x, h.1, rw v h.2, ground arith))
  gated-Leads stage false failures s cause next t c h x r n =
      let (u, v) =
        with_candidate-same t.candidate ModelLifecycleState.rejected
          (count "candidate_rejections" (count failures c)) in
      (inl u, (rw u r, h.1, rw v h.2, ground arith))

  pub enter_canary-Leads :
      (t : Thread F) (c : RetrainingCoordinator F) → Fits entering t c → Leads c (enter_canary t c)
  unfolding enter_canary Leads Expects has_stored can_transition_to
  enter_canary-Leads t c (inl e, j, a, n) =
      let (u, v) = with_candidate-same t.candidate ModelLifecycleState.canary (put_in_canary t c) in
      rw e (inr (rw u refl), (u, j, rw v a, n))
  enter_canary-Leads t c (inr e, j, a, n) =
      let (u, v) =
        with_candidate-same t.candidate ModelLifecycleState.canary
          (record c { current_state = canary }) in
      rw e (inl u, (u, j, rw v a, n))

  pub approval-Leads :
      (t : Thread F) (c : RetrainingCoordinator F)
      → Fits to_approval t c
      → let (next, c') = moving awaiting_approval t returns c in
        Leads c (next, mark_approved next t c')
  unfolding moving transition_job_state Leads Rests Expects can_transition_to
  approval-Leads t c (e, j, a, n) =
      let (u, v) =
        with_candidate-same t.candidate ModelLifecycleState.approved
          (moved awaiting_approval t.job c) in
      rw e (inr (rw u refl), inr (u, rw v a))

  pub check_hold-Leads :
      (pct : ℕ) (rest : List ℕ) (t : Thread F) (c : RetrainingCoordinator F)
      → Fits (staging (pct ∷ rest)) t c
      → t.stage ≡ staging (pct ∷ rest)
      → Leads c (check_hold pct rest t c)
  unfolding check_hold Leads Expects has_stored
  check_hold-Leads pct rest t c (x, j, a, n) e = ground arith

module _ (fl : Floats) (message : Cause fl.F → String) where
  open fl use {F}

  pub set_stage-Leads :
      (pct : ℕ) (rest : List ℕ) (t : Thread F) (c : RetrainingCoordinator F)
      → Fits (updating pct rest) t c
      → Leads c (set_stage fl message pct rest t c)
  unfolding set_stage Leads Expects has_stored
  set_stage-Leads pct rest t c (x, j, a, n) = ground arith

  pub promote-Leads :
      (now : ℕ) (job cand : Option ℕ) (t : Thread F) (c : RetrainingCoordinator F)
      → t.job ≡ job
      → t.candidate ≡ cand
      → Fits promoting t c
      → Leads c (promote fl message now job cand t c)
  unfolding promote promote_candidate Leads Expects has_stored Rests can_transition_to
  promote-Leads now none cand t c u v (x, j, a, n) = ground arith
  promote-Leads now (some job) none t c u v (x, j, a, n) = ground arith
  promote-Leads now (some job) (some ref) t c u v (x, j, a, n) =
      elim (Bool-cases (is_promotion_blocked c)) [
        | inl blocked ↦ rw blocked (inl refl, (x, j, a, n))
        | inr free ↦ rw free (inr (rw x refl), inl (refl, refl))
      ]
