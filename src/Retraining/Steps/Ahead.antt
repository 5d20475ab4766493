-- ===== src/Retraining/Steps/Ahead.antt =====
-- What one step of a goroutine leads to, and what the calls that start one need.
use ropus.Common.{
  ℕ, ◌∙◌, ◌≡◌, ◌⊎◌, inl, inr, refl, String, Bool, true, false, Option, none, some, List, [], ◌∷◌,
  ◌++◌, arith, if◌then◌else◌,
}
use ropus.Rollout.Float.{Floats}
use ropus.Registry.Types.{ModelLifecycleState}
use ropus.Retraining.Types.{
  JobState, idle, triggered, queued, training, validating, shadow_evaluation, awaiting_approval,
  canary, promoted, rejected, failed, rolled_back, can_transition_to,
}
use ropus.Retraining.State.{RetrainingCoordinator, is_some_ref}
use ropus.Retraining.Ends.{fail_job, reject_candidate, rollback_candidate}
use ropus.Retraining.Coordinator.{create_and_start_job, approve_candidate, is_settled}
use ropus.Retraining.Pipeline.{
  Training, Cause, Stage, Thread, store_candidate, advance, polled, returns, queueing, to_training,
  starting, waiting, storing, to_validating, judging, to_shadow, shadowing, to_approval, entering,
  staging, updating, observing, promoting, rejecting, rolling_back, failing,
}
use ropus.Retraining.Steps.Serial.{
  Expects, has_stored, Fits, Rests, Leads, moving-Leads, trained-Leads, with_candidate-same,
  close_job-same, gated-Leads, enter_canary-Leads, approval-Leads, check_hold-Leads,
  set_stage-Leads, promote-Leads,
}

pub settled_triggers : (s : JobState) → is_settled s ≡ true → can_transition_to s triggered ≡ true
unfolding can_transition_to
settled_triggers idle h = refl
settled_triggers promoted h = refl
settled_triggers rejected h = refl
settled_triggers failed h = refl
settled_triggers rolled_back h = refl
settled_triggers triggered h = ground arith
settled_triggers queued h = ground arith
settled_triggers training h = ground arith
settled_triggers validating h = ground arith
settled_triggers shadow_evaluation h = ground arith
settled_triggers awaiting_approval h = ground arith
settled_triggers canary h = ground arith

pub single_split :
    {A : Type 0} (before : List A) (t : A) (after : List A) (t' : A)
    → before ++ (t ∷ after) ≡ t' ∷ []
    → (before ≡ []) × (t ≡ t') × (after ≡ [])
single_split [] t after t' e = ground arith
single_split (b ∷ []) t after t' e = ground arith
single_split (b ∷ c ∷ bs) t after t' e = ground arith

rejectable :
    {s : JobState}
    → (s ≡ validating) ⊎ (s ≡ shadow_evaluation)
    → can_transition_to s rejected ≡ true
unfolding can_transition_to
rejectable (inl x) = rw x refl
rejectable (inr x) = rw x refl

pub no_split :
    {A : Type 0} (before : List A) (t : A) (after : List A)
    → before ++ (t ∷ after) ≡ []
    → true ≡ false
no_split [] t after e = ground arith
no_split (b ∷ bs) t after e = ground arith

approval-Expects :
    (F : Type 0) (b : Bool) {s : JobState}
    → s ≡ shadow_evaluation
    → Expects {F = F} (if b then entering else to_approval) s
unfolding Expects
approval-Expects F true x = inl x
approval-Expects F false x = x

pub appended : {A : Type 0} {xs : List A} (a : A) → xs ≡ [] → xs ++ (a ∷ []) ≡ a ∷ []
appended a e = rw e refl

module _ {F : Type 0} where
  pub Expects-IsBusy :
      (stage : Stage F) (s : JobState) → Expects stage s → s ≡ awaiting_approval → true ≡ false
  unfolding Expects
  Expects-IsBusy queueing s x e = ground arith
  Expects-IsBusy to_training s x e = ground arith
  Expects-IsBusy starting s x e = ground arith
  Expects-IsBusy waiting s x e = ground arith
  Expects-IsBusy (storing r) s x e = ground arith
  Expects-IsBusy (to_validating m) s x e = ground arith
  Expects-IsBusy (judging m) s x e = ground arith
  Expects-IsBusy to_shadow s x e = ground arith
  Expects-IsBusy shadowing s x e = ground arith
  Expects-IsBusy to_approval s x e = ground arith
  Expects-IsBusy entering s x e = ground arith
  Expects-IsBusy (staging l) s x e = ground arith
  Expects-IsBusy (updating p l) s x e = ground arith
  Expects-IsBusy (observing p l) s x e = ground arith
  Expects-IsBusy promoting s x e = ground arith
  Expects-IsBusy (rejecting q) s x e = ground arith
  Expects-IsBusy (rolling_back q) s x e = ground arith
  Expects-IsBusy (failing q) s x e = ground arith

  pub start_lem :
      (now : ℕ) (id dataset trigger_type reason : String) (samples : ℕ)
      (c c' : RetrainingCoordinator F)
      → create_and_start_job now id dataset trigger_type reason samples c ≡ (none, c')
      → (is_some_ref c.active_job ≡ false)
        × (is_settled c.current_state ≡ true)
        × (c'.current_state ≡ triggered)
        × (is_some_ref c'.active_job ≡ true)
  unfolding create_and_start_job
  start_lem now id dataset trigger_type reason samples c c' e = ground arith

  pub approve_lem :
      (id : String) (cand : ℕ) (c c' : RetrainingCoordinator F)
      → approve_candidate id c ≡ (none, some cand, c')
      → (c.current_state ≡ awaiting_approval)
        × (c'.current_state ≡ canary)
        × (c'.active_job ≡ c.active_job)
  unfolding approve_candidate
  approve_lem id cand c c' e = ground arith

  ends-Leads :
      (s : JobState) (c c' : RetrainingCoordinator F)
      → can_transition_to c.current_state s ≡ true
      → is_settled s ≡ true
      → c'.current_state ≡ s
      → c'.active_job ≡ none
      → Leads c (returns, c')
  unfolding Leads Rests
  ends-Leads s c c' k d e n = (inr (rw e k), inl (rw e d, n))

module _ (fl : Floats) where
  open fl use {F}

  rollback_candidate-state :
      (now : ℕ) (job cand : Option ℕ) (reason actor : String) (c : RetrainingCoordinator F)
      → (rollback_candidate fl now job cand reason actor c).current_state ≡ rolled_back
  unfolding rollback_candidate
  rollback_candidate-state now job none reason actor c = close_job-same now rolled_back reason job _
  rollback_candidate-state now job (some ref) reason actor c =
      close_job-same now rolled_back reason job _

module _ (fl : Floats) (message : Cause fl.F → String) where
  open fl use {F}

  pub advance-Leads :
      (now : ℕ) (a : Training F) (stage : Stage F) (t : Thread F) (c : RetrainingCoordinator F)
      → t.stage ≡ stage
      → Fits stage t c
      → Leads c (advance fl message now a stage t c)
  unfolding advance store_candidate Leads Expects has_stored can_transition_to fail_job
      reject_candidate rollback_candidate
  advance-Leads now a queueing t c e h =
      moving-Leads queueing triggered queued t to_training c h h.0 refl refl refl
  advance-Leads now a to_training t c e h =
      moving-Leads to_training queued training t starting c h h.0 refl refl refl
  advance-Leads now a starting t c e h = trained-Leads starting a t c now h h.0
  advance-Leads now a waiting t c e h = trained-Leads waiting (polled a) t c now h h.0
  advance-Leads now a (storing r) t c e (x, j, b, n) = (inl refl, (x, j, b, refl))
  advance-Leads now a (to_validating m) t c e h =
      moving-Leads (to_validating m) training validating t (judging m) c h h.0 refl refl h.3
  advance-Leads now a (judging m) t c e (x, j, b, n) =
      gated-Leads (judging m) _ _ _ _ _ t _ (x, j, b, n) x (inl x) n
  advance-Leads now a to_shadow t c e h =
      moving-Leads to_shadow validating shadow_evaluation t shadowing c h h.0 refl refl h.3
  advance-Leads now a shadowing t c e (x, j, b, n) =
      gated-Leads shadowing _ _ _ _ _ t _ (x, j, b, n)
        (approval-Expects F c.config.auto_approve_canary x) (inr x) n
  advance-Leads now a to_approval t c e h = approval-Leads t c h
  advance-Leads now a entering t c e h = enter_canary-Leads t c h
  advance-Leads now a (staging []) t c e (x, j, b, n) = (inl refl, (x, j, b, n))
  advance-Leads now a (staging (pct ∷ rest)) t c e h = check_hold-Leads pct rest t c h e
  advance-Leads now a (updating pct rest) t c e h = set_stage-Leads fl message pct rest t c h
  advance-Leads now a (observing pct rest) t c e h = ground arith
  advance-Leads now a promoting t c e h =
      promote-Leads fl message now t.job t.candidate t c refl refl h
  advance-Leads now a (rejecting cause) t c e h =
      ends-Leads rejected c _ (rejectable h.0) refl
        ((with_candidate-same t.candidate ModelLifecycleState.rejected _).0
          ∙ close_job-same now rejected (message cause) t.job _)
        refl
  advance-Leads now a (rolling_back cause) t c e h =
      ends-Leads rolled_back c _ (rw (h.0) refl) refl
        (rollback_candidate-state fl now t.job t.candidate (message cause) t.actor c) refl
  advance-Leads now a (failing cause) t c e h =
      ends-Leads failed c _ (rw (h.0) refl) refl
        (close_job-same now failed (message cause) t.job (record c { current_state = failed })) refl
