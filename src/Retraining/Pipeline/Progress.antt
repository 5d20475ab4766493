-- ===== src/Retraining/Pipeline/Progress.antt =====
-- How long a goroutine of retraining_coordinator.go goes on.
use ropus.Common.{
  ℕ, suc, ◌+◌, ◌≤◌, ◌<◌, ◌≡◌, subst, String, Bool, true, false, List, [], ◌∷◌, arith,
}
use ropus.Rollout.Float.{Floats}
use ropus.Retraining.State.{RetrainingCoordinator}
use ropus.Retraining.Coordinator.{transition_job_state}
use ropus.Retraining.Pipeline.{
  Training, refused, is_running, not_succeeded, succeeded, Cause, Stage, Thread, After, goes_on,
  returns, panics, is_held, moving, trained, store_candidate, gated, enter_canary, check_hold,
  set_stage, promote, advance, queueing, to_training, starting, waiting, storing, to_validating,
  judging, to_shadow, shadowing, to_approval, entering, staging, updating, observing, promoting,
  rejecting, rolling_back, failing,
}

rungs : List ℕ → ℕ
rungs [] = 4
rungs (_ ∷ rest) = 3 + rungs rest

rungs_least : (l : List ℕ) → 4 ≤ rungs l
unfolding rungs
rungs_least [] = ground arith
rungs_least (_ ∷ rest) = let h = rungs_least rest in ground arith

module _ {F : Type 0} where
  -- What is left of the way, at most.
  rank : Stage F → ℕ
  rank queueing = 33
  rank to_training = 32
  rank starting = 31
  rank waiting = 30
  rank (storing _) = 29
  rank (to_validating _) = 28
  rank (judging _) = 27
  rank to_shadow = 26
  rank shadowing = 25
  rank to_approval = 24
  rank entering = 23
  rank (staging rest) = rungs rest
  rank (updating _ rest) = 2 + rungs rest
  rank (observing _ rest) = 1 + rungs rest
  rank promoting = 3
  rank (rolling_back _) = 2
  rank (rejecting _) = 1
  rank (failing _) = 1

  -- The two loops that wait: for the training runner, and for the switches.
  unfoldable pub waits : Training F → Stage F → RetrainingCoordinator F → Bool
  waits is_running waiting c = true
  waits (refused _) waiting c = true
  waits a (staging (_ ∷ _)) c = is_held c
  waits a _ c = false

  Falls : ℕ → After F → Type 0
  Falls n (goes_on t) = rank t.stage < n
  Falls n returns = 0 < n
  Falls n panics = 0 < n

module _ (fl : Floats) (message : Cause fl.F → String) where
  open fl use {F}

  advance-Falls :
      (now : ℕ) (a : Training F) (stage : Stage F) (t : Thread F) (c : RetrainingCoordinator F)
      → waits a stage c ≡ false
      → Falls (rank stage) (advance fl message now a stage t c).0
  unfolding advance rank rungs Falls waits moving transition_job_state trained store_candidate gated
      enter_canary check_hold set_stage promote
  advance-Falls now a queueing t c w = ground arith
  advance-Falls now a to_training t c w = ground arith
  advance-Falls now is_running starting t c w = ground arith
  advance-Falls now (refused e) starting t c w = ground arith
  advance-Falls now (not_succeeded s e) starting t c w = ground arith
  advance-Falls now (succeeded r) starting t c w = ground arith
  advance-Falls now is_running waiting t c w = ground arith
  advance-Falls now (refused e) waiting t c w = ground arith
  advance-Falls now (not_succeeded s e) waiting t c w = ground arith
  advance-Falls now (succeeded r) waiting t c w = ground arith
  advance-Falls now a (storing r) t c w = ground arith
  advance-Falls now a (to_validating m) t c w = ground arith
  advance-Falls now a (judging m) t c w = ground arith
  advance-Falls now a to_shadow t c w = ground arith
  advance-Falls now a shadowing t c w = ground arith
  advance-Falls now a to_approval t c w = ground arith
  advance-Falls now a entering t c w = ground arith
  advance-Falls now a (staging []) t c w = ground arith
  advance-Falls now a (staging (pct ∷ rest)) t c w = let h = rungs_least rest in ground arith
  advance-Falls now a (updating pct rest) t c w = let h = rungs_least rest in ground arith
  advance-Falls now a (observing pct rest) t c w = let h = rungs_least rest in ground arith
  advance-Falls now a promoting t c w = ground arith
  advance-Falls now a (rejecting cause) t c w = ground arith
  advance-Falls now a (rolling_back cause) t c w = ground arith
  advance-Falls now a (failing cause) t c w = ground arith

  -- Steps of one goroutine from a stage that are no waits, after each of which it goes on. Between
  -- them the coordinator may become anything.
  pub data Journey (t : Thread F) : Thread F → ℕ → Type 0 where
    stays : Journey t t 0
    then_goes :
        {t1 t2 : Thread F} {n : ℕ} (now : ℕ) (a : Training F) (c : RetrainingCoordinator F)
        → Journey t t1 n
        → waits a t1.stage c ≡ false
        → (advance fl message now a t1.stage t1 c).0 ≡ goes_on t2
        → Journey t t2 (suc n)

  Journey-rank : (t t' : Thread F) (n : ℕ) → Journey t t' n → n + rank t'.stage ≤ rank t.stage
  unfolding Falls
  Journey-rank t t' n stays = ground arith
  Journey-rank t t' n (then_goes now a c j w e) =
      let h = Journey-rank t _ _ j in
      let f = subst (Falls _) e (advance-Falls now a _ _ c w) in ground arith

  -- A job's goroutine comes to an end. However the coordinator changes in between, and whatever the
  -- runner, the gates and the breaker say: after it was started it makes at most 33 steps after
  -- which it goes on, apart from those in which it waits for the runner or for the switches.
  pub Journey-length : (t t' : Thread F) (n : ℕ) → t.stage ≡ queueing → Journey t t' n → n ≤ 33
  unfolding rank
  Journey-length t t' n e j =
      let h = subst (λ x. n + rank t'.stage ≤ rank x) e (Journey-rank t t' n j) in ground arith
