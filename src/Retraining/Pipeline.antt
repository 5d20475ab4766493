-- ===== src/Retraining/Pipeline.antt =====
-- `executeJobPipeline` and `executeCanaryRollout` of retraining_coordinator.go. A stage is a place of
-- the code between two critical sections of the coordinator; a step is one of them with the calls of
-- the metrics, the registry and the router up to the next. What the training runner answers and the
-- text of the reasons, which `fmt` makes, are parameters.
pub mod Progress
use ropus.Common.{
  ℕ, zero, suc, ◌+◌, String, ◌<>◌, str_eq, Bool, true, false, not, ◌&&◌, ◌||◌, Option, none, some,
  List, [], ◌∷◌, if◌then◌else◌, ◌==◌,
}
use ropus.Common.Int.{pos}
use ropus.Common.Dict.{insert}
use ropus.Rollout.Float.{Floats}
use ropus.Rollout.Breaker.{
  CircuitBreakerState, failed as breaker_failed, rolled_back as breaker_rolled_back,
}
use ropus.Rollout.Router.{update_config}
use ropus.Registry.Types.{ModelLifecycleState}
use ropus.Registry.Ops.{register_candidate}
use ropus.Retraining.Types.{
  JobState, queued, training, validating, shadow_evaluation, awaiting_approval, canary,
  can_transition_to, RetrainingJob, ValidationMetrics, ModelCandidate,
}
use ropus.Retraining.Gates.{
  GateViolation, is_empty, default_production_baseline_metrics, ValidationGateResult,
  validate_candidate, shadow_violations,
}
use ropus.Retraining.State.{RetrainingCoordinator, write_at, write_opt, in_state, count}
use ropus.Retraining.Ends.{
  fail_job, in_registry, with_candidate, reject_candidate, rollback_candidate, is_promotion_blocked,
  promote_candidate,
}
use ropus.Retraining.Coordinator.{transition_job_state}

-- A training job that has succeeded.
pub record Trained (F : Type 0) : Type 0 where
  pub candidate : ModelCandidate
  pub artifact_path : String
  pub artifact_checksum : String
  pub validation_metrics : ValidationMetrics F

-- What the runner answers: an error, a job that is queued or running, one that has ended otherwise
-- (its state and its error), or one that has succeeded.
pub data Training (F : Type 0) : Type 0 where
  refused : String → Training F
  is_running : Training F
  not_succeeded : String → String → Training F
  succeeded : Trained F → Training F

-- The reasons that are recorded, and that of a stage.
pub data Cause (F : Type 0) : Type 0 where
  no_transition : JobState → Cause F
  training_refused : String → Cause F
  training_failed : String → String → Cause F
  validation_failed shadow_failed : List (GateViolation F) → Cause F
  stage_reached update_refused : ℕ → Cause F
  tripped : ℕ → CircuitBreakerState → Cause F
  promotion_blocked : Cause F
  cancelled operator_rejection : String → String → Cause F

pub data Stage (F : Type 0) : Type 0 where
  queueing to_training starting waiting : Stage F
  storing : Trained F → Stage F
  to_validating judging : ValidationMetrics F → Stage F
  to_shadow shadowing to_approval entering : Stage F
  staging : List ℕ → Stage F
  updating observing : ℕ → List ℕ → Stage F
  promoting : Stage F
  rejecting rolling_back failing : Cause F → Stage F

-- A goroutine that works on a job, with the pointers that it holds.
pub record Thread (F : Type 0) : Type 0 where
  pub job : Option ℕ
  pub candidate : Option ℕ
  pub actor : String
  pub start : ℕ
  pub stage : Stage F

pub data After (F : Type 0) : Type 0 where
  goes_on : Thread F → After F
  returns : After F
  panics : After F

abbrev pub stages : List ℕ
stages = 1 ∷ 5 ∷ 10 ∷ 25 ∷ 50 ∷ 100 ∷ []

abbrev pub is_tripped : CircuitBreakerState → Bool
is_tripped breaker_failed = true
is_tripped breaker_rolled_back = true
is_tripped _ = false

abbrev pub is_canary : JobState → Bool
is_canary canary = true
is_canary _ = false

module _ {F : Type 0} where
  abbrev pub at_stage : Stage F → Thread F → Thread F
  at_stage s t = record t { stage = s }

  abbrev pub goes_to : Stage F → Thread F → After F
  goes_to s t = goes_on (at_stage s t)

  abbrev pub is_held : RetrainingCoordinator F → Bool
  is_held c = c.canary_paused || c.maintenance_mode || c.model_frozen

  -- `transitionJobState`, and what follows where it succeeds; otherwise the job fails.
  unfoldable pub moving :
      JobState → Thread F → After F → RetrainingCoordinator F → After F × RetrainingCoordinator F
  unfolding transition_job_state
  moving target t next c =
      let (is_done, c') = transition_job_state t.job target c in
      (if is_done then next else goes_to (failing (no_transition target)) t, c')

  -- The runner's answer.
  unfoldable pub trained :
      Training F → Thread F → RetrainingCoordinator F → ℕ → After F × RetrainingCoordinator F
  trained is_running t c now = (goes_to waiting t, c)
  trained (refused e) t c now =
      (goes_to (failing (training_refused e)) t, count "training_jobs_failed" c)
  trained (not_succeeded s e) t c now =
      (goes_to (failing (training_failed s e)) t, count "training_jobs_failed" c)
  trained (succeeded r) t c now =
      let m = r.candidate.model in
      let c1 = count "training_jobs_completed" c in
      (
        goes_to (storing r) t,
        record c1 {
          jobs =
              write_opt t.job
                (λ (j : RetrainingJob). record j { candidate_model_version = m.version }) c.jobs;
          model_registry =
              (register_candidate m r.artifact_path r.artifact_checksum now c.model_registry).1;
        },
      )

  -- `GetTrainingStatus`, whose error is ignored.
  abbrev pub polled : Training F → Training F
  polled (refused e) = is_running
  polled a = a

  unfoldable pub store_candidate :
      Trained F → Thread F → RetrainingCoordinator F → After F × RetrainingCoordinator F
  store_candidate r t c = (
    goes_on (record t { candidate = some c.next_cand; stage = to_validating r.validation_metrics }),
    record c {
      cands = write_at c.next_cand (λ _. r.candidate) c.cands;
      next_cand = c.next_cand + 1;
      candidates = insert r.candidate.model.model_id c.next_cand c.candidates;
      active_candidate = some c.next_cand;
    },
  )

  -- What a gate leads to: the candidate is marked in the registry.
  unfoldable pub gated :
      Bool
      → String
      → ModelLifecycleState
      → Cause F
      → Stage F
      → Thread F
      → RetrainingCoordinator F
      → After F × RetrainingCoordinator F
  gated true failures s cause next t c =
      (goes_to next t, with_candidate t.candidate (in_registry s) c)
  gated false failures s cause next t c = (
    goes_to (rejecting cause) t,
    with_candidate t.candidate (in_registry ModelLifecycleState.rejected)
        (count "candidate_rejections" (count failures c)),
  )

  abbrev pub put_in_canary : Thread F → RetrainingCoordinator F → RetrainingCoordinator F
  put_in_canary t c = record c {
    current_state = canary;
    jobs = write_opt t.job (λ (j : RetrainingJob). record j { state = canary }) c.jobs;
    cands = write_opt t.candidate (in_state canary) c.cands;
  }

  -- The registry's mark of a candidate whose state has been moved.
  abbrev pub mark_approved : After F → Thread F → RetrainingCoordinator F → RetrainingCoordinator F
  mark_approved returns t c =
      with_candidate t.candidate (in_registry ModelLifecycleState.approved) c
  mark_approved (goes_on _) t c = c
  mark_approved panics t c = c

  -- The head of `executeCanaryRollout`.
  unfoldable pub enter_canary :
      Thread F → RetrainingCoordinator F → After F × RetrainingCoordinator F
  enter_canary t c =
      let marked = with_candidate t.candidate (in_registry ModelLifecycleState.canary) in
      if is_canary c.current_state
      then (goes_to (staging stages) t, marked c)
      else if can_transition_to c.current_state canary
      then (goes_to (staging stages) t, marked (put_in_canary t c))
      else (goes_to (failing (no_transition canary)) t, c)

  -- The test of the switches before a stage, each time that it is made. Nothing in the program sets
  -- `closed`, on which the loop would return.
  unfoldable pub check_hold :
      ℕ → List ℕ → Thread F → RetrainingCoordinator F → After F × RetrainingCoordinator F
  check_hold pct rest t c = if is_held c then (goes_on t, c) else (goes_to (updating pct rest) t, c)

module _ (fl : Floats) (message : Cause fl.F → String) where
  open fl use {F}

  unfoldable pub set_stage :
      ℕ → List ℕ → Thread F → RetrainingCoordinator F → After F × RetrainingCoordinator F
  set_stage pct rest t c =
      let (is_ok, r) =
        update_config fl true (pos pct) t.actor (message (stage_reached pct)) c.canary_router in
      if is_ok
      then (goes_to (observing pct rest) t, record c { canary_router = r })
      else (goes_to (rolling_back (update_refused pct)) t, record c { canary_router = r })

  unfoldable pub promote :
      ℕ
      → Option ℕ
      → Option ℕ
      → Thread F
      → RetrainingCoordinator F
      → After F × RetrainingCoordinator F
  unfolding promote_candidate
  promote now (some job) (some cand) t c =
      if is_promotion_blocked c
      then (goes_to (rolling_back promotion_blocked) t, c)
      else (returns, promote_candidate fl t.start now job cand t.actor c)
  promote now _ _ t c =
      if is_promotion_blocked c
      then (goes_to (rolling_back promotion_blocked) t, c)
      else (panics, c)

  -- One step of a goroutine at a stage. The answer of the runner is read only where it is asked.
  unfoldable pub advance :
      ℕ
      → Training F
      → Stage F
      → Thread F
      → RetrainingCoordinator F
      → After F × RetrainingCoordinator F
  unfolding moving trained store_candidate gated enter_canary check_hold set_stage promote fail_job
      reject_candidate rollback_candidate
  advance now a queueing t c = moving queued t (goes_to to_training t) c
  advance now a to_training t c = moving training t (goes_to starting t) c
  advance now a starting t c = trained a t c now
  advance now a waiting t c = trained (polled a) t c now
  advance now a (storing r) t c = store_candidate r t c
  advance now a (to_validating m) t c = moving validating t (goes_to (judging m) t) c
  advance now a (judging m) t c =
      let result = validate_candidate fl c.config m (default_production_baseline_metrics fl) in
      let c' : RetrainingCoordinator F = record c {
        cands =
            write_opt t.candidate
              (λ (x : ModelCandidate). record x { validation_result = some result.passed }) c.cands;
      } in
      gated result.passed "offline_validation_failures" ModelLifecycleState.validated
        (validation_failed result.violations) to_shadow t c'
  advance now a to_shadow t c = moving shadow_evaluation t (goes_to shadowing t) c
  advance now a shadowing t c =
      let vs = shadow_violations fl c.config in
      let c' : RetrainingCoordinator F = record c {
        cands =
            write_opt t.candidate
              (λ (x : ModelCandidate). record x { shadow_result = some (is_empty vs) }) c.cands;
      } in
      gated (is_empty vs) "shadow_validation_failures" ModelLifecycleState.shadow (shadow_failed vs)
        (if c.config.auto_approve_canary then entering else to_approval) t c'
  advance now a to_approval t c =
      let (next, c') = moving awaiting_approval t returns c in (next, mark_approved next t c')
  advance now a entering t c = enter_canary t c
  advance now a (staging []) t c = (goes_to promoting t, c)
  advance now a (staging (pct ∷ rest)) t c = check_hold pct rest t c
  advance now a (updating pct rest) t c = set_stage pct rest t c
  advance now a (observing pct rest) t c =
      let s = c.canary_router.circuit_breaker.state in
      if is_tripped s
      then (goes_to (rolling_back (tripped pct s)) t, c)
      else (goes_to (staging rest) t, c)
  advance now a promoting t c = promote now t.job t.candidate t c
  advance now a (rejecting cause) t c =
      (returns, reject_candidate now t.job t.candidate (message cause) c)
  advance now a (rolling_back cause) t c =
      (returns, rollback_candidate fl now t.job t.candidate (message cause) t.actor c)
  advance now a (failing cause) t c = (returns, fail_job now t.job (message cause) c)
