-- ===== src/Retraining/Steps/Production.antt =====
-- Which step changes the production model.
use ropus.Common.{
  ℕ, ◌≡◌, sym, ap, ◌∙◌, ◌⊎◌, inl, inr, refl, String, Bool, false, Option, none, some, List, [], ◌∷◌,
  ◌++◌, arith, Bool-cases,
}
use ropus.Rollout.Float.{Floats}
use ropus.Retraining.Types.{JobState, awaiting_approval}
use ropus.Retraining.State.{RetrainingCoordinator}
use ropus.Retraining.Ends.{fail_job, rollback_candidate, is_promotion_blocked, promote_candidate}
use ropus.Retraining.Pipeline.{
  Training, Cause, Stage, Thread, moving, store_candidate, check_hold, set_stage, promote, advance,
  polled, goes_to, returns, queueing, to_training, starting, waiting, storing, to_validating,
  judging, to_shadow, shadowing, to_approval, entering, staging, updating, observing, promoting,
  rejecting, rolling_back, failing,
}
use ropus.Retraining.Steps.{System, resume, spawn, leaving, Step}
use ropus.Retraining.Steps.Keeps.{
  production, rollback_model-production, promote_model-production, close_job-production, Keeps,
  moving-Keeps, trained-Keeps, gated-Keeps, enter_canary-Keeps, mark_approved-production,
  reject_candidate-production, create_and_start_job-production, approve_candidate-production,
  Switch-production,
}

module _ {F : Type 0} where
  abbrev pub Changes : Thread F → RetrainingCoordinator F → RetrainingCoordinator F → Type 0
  Changes t c c' =
      (is_promotion_blocked c ≡ false)
      × (t.stage ≡ promoting)
      × ((cand : ℕ) × (t.candidate ≡ some cand) × (production c' ≡ (c.cands cand).model.version))

module _ (fl : Floats) (message : Cause fl.F → String) where
  open fl use {F}

  check_hold-Keeps :
      (pct : ℕ) (rest : List ℕ) (t : Thread F) (c : RetrainingCoordinator F)
      → Keeps c (check_hold pct rest t c)
  unfolding check_hold
  check_hold-Keeps pct rest t c = ground arith

  set_stage-Keeps :
      (pct : ℕ) (rest : List ℕ) (t : Thread F) (c : RetrainingCoordinator F)
      → Keeps c (set_stage fl message pct rest t c)
  unfolding set_stage
  set_stage-Keeps pct rest t c = ground arith

  rollback_candidate-production :
      (now : ℕ) (job cand : Option ℕ) (reason actor : String) (c : RetrainingCoordinator F)
      → production (rollback_candidate fl now job cand reason actor c) ≡ production c
  unfolding rollback_candidate
  rollback_candidate-production now job none reason actor c =
      close_job-production now JobState.rolled_back reason job _
  rollback_candidate-production now job (some ref) reason actor c =
      rollback_model-production _ _ ∙ close_job-production now JobState.rolled_back reason job _

  -- The hypotheses name the parts of the goroutine.
  promote-Changes :
      (now : ℕ) (job cand : Option ℕ) (t : Thread F) (c : RetrainingCoordinator F)
      → t.candidate ≡ cand
      → t.stage ≡ promoting
      → Keeps c (promote fl message now job cand t c)
        ⊎ Changes t c (promote fl message now job cand t c).1
  unfolding promote promote_candidate
  promote-Changes now none cand t c e q = inl (ground arith)
  promote-Changes now (some job) none t c e q = inl (ground arith)
  promote-Changes now (some job) (some ref) t c e q = elim (Bool-cases (is_promotion_blocked c)) [
    | inl blocked ↦ inl (rw blocked refl)
    | inr free ↦ elim (promote_model-production (c.cands ref).model.version now c.model_registry) [
      | inl same ↦ inl (rw free same)
      | inr new ↦ inr (free, q, (ref, e, rw free new))
    ]
  ]

  advance-Changes :
      (now : ℕ) (a : Training F) (stage : Stage F) (t : Thread F) (c : RetrainingCoordinator F)
      → t.stage ≡ stage
      → Keeps c (advance fl message now a stage t c)
        ⊎ Changes t c (advance fl message now a stage t c).1
  unfolding advance store_candidate fail_job
  advance-Changes now a queueing t c e = inl (moving-Keeps _ t (goes_to to_training t) c)
  advance-Changes now a to_training t c e = inl (moving-Keeps _ t (goes_to starting t) c)
  advance-Changes now a starting t c e = inl (trained-Keeps a t c now)
  advance-Changes now a waiting t c e = inl (trained-Keeps (polled a) t c now)
  advance-Changes now a (storing r) t c e = inl refl
  advance-Changes now a (to_validating m) t c e = inl (moving-Keeps _ t (goes_to (judging m) t) c)
  advance-Changes now a (judging m) t c e = inl (gated-Keeps _ _ _ _ _ t _)
  advance-Changes now a to_shadow t c e = inl (moving-Keeps _ t (goes_to shadowing t) c)
  advance-Changes now a shadowing t c e = inl (gated-Keeps _ _ _ _ _ t _)
  advance-Changes now a to_approval t c e =
      let (next, c') = moving awaiting_approval t returns c in
      inl (mark_approved-production next t c' ∙ moving-Keeps awaiting_approval t returns c)
  advance-Changes now a entering t c e = inl (enter_canary-Keeps t c)
  advance-Changes now a (staging []) t c e = inl refl
  advance-Changes now a (staging (pct ∷ rest)) t c e = inl (check_hold-Keeps pct rest t c)
  advance-Changes now a (updating pct rest) t c e = inl (set_stage-Keeps pct rest t c)
  advance-Changes now a (observing pct rest) t c e = inl (ground arith)
  advance-Changes now a promoting t c e = promote-Changes now t.job t.candidate t c refl e
  advance-Changes now a (rejecting cause) t c e = inl (reject_candidate-production now _ _ _ c)
  advance-Changes now a (rolling_back cause) t c e =
      inl (rollback_candidate-production now _ _ _ _ c)
  advance-Changes now a (failing cause) t c e =
      inl (close_job-production now JobState.failed _ t.job _)

  -- The production model changes in one way only: a goroutine that holds the candidate promotes it
  -- while neither maintenance mode nor a freeze is on, and then the new production model is that
  -- candidate's version. No other step, in any interleaving and with cancellations, changes it.
  pub production_guarded :
      (is_open : Bool) (s s' : System F)
      → Step fl message is_open s s'
      → (production s'.coordinator ≡ production s.coordinator)
        ⊎ ((before : List (Thread F)) × (t : Thread F) × (after : List (Thread F)) × (s.threads
              ≡ before ++ (t ∷ after))
            × Changes t s.coordinator s'.coordinator)
  unfolding resume spawn leaving
  production_guarded is_open s _ (Step.starts now id dataset kind reason actor n c p q) = inl (
      sym (ap (λ x. production x.1) q)
      ∙ create_and_start_job-production now id dataset kind reason n s.coordinator)
  production_guarded is_open s _ (Step.evaluates now m cb p) = inl refl
  production_guarded is_open s _ (Step.observes o p) = inl refl
  production_guarded is_open s _ (Step.switches c p w) = inl (Switch-production w)
  production_guarded is_open s _ (Step.approves now id actor cand c p q) =
      inl (sym (ap (λ x. production x.2) q) ∙ approve_candidate-production id s.coordinator)
  production_guarded is_open s _ (Step.cancels now id actor reason job p o q) = inl refl
  production_guarded is_open s _ (Step.rejects now id actor reason cand p o q) = inl refl
  production_guarded is_open s _ (Step.advances before t after now a p q) =
      elim (advance-Changes now a t.stage t s.coordinator refl) [
        | inl same ↦ inl same
        | inr changed ↦ inr (before, t, after, q, changed)
      ]
