-- ===== src/Retraining/Coordinator.antt =====
-- How a job of retraining_coordinator.go is started and moved on, and the operators' calls. The
-- jobs' names, which the code makes from the clock, are arguments.
use ropus.Common.{
  ℕ, ◌+◌, String, str_eq, Bool, true, false, not, ◌||◌, Option, none, some, if◌then◌else◌,
}
use ropus.Common.Dict.{lookup}
use ropus.Rollout.Float.{Floats}
use ropus.Registry.Types.{RegisteredModel, Result, ok, err}
use ropus.Registry.Ops.{production_version, get_production_model}
use ropus.Retraining.Types.{
  JobState, idle, triggered, awaiting_approval, canary, promoted, rejected, failed, rolled_back,
  can_transition_to, RetrainingJob,
}
use ropus.Retraining.State.{
  RetrainingCoordinator, write_at, write_opt, is_some_ref, in_state, count,
}
use ropus.Retraining.Trigger.{
  DriftMeasurement, TriggerAnswer, should_trigger, to_uint32, evaluate_drift, set_active_job,
  can_trigger_manual,
}

pub data RetrainingError : Type 0 where
  empty_reason in_maintenance retraining_is_paused already_active not_active already_approved
        not_awaiting already_rejected candidate_not_found :
      RetrainingError
  trigger_rejected : TriggerAnswer → RetrainingError

abbrev pub is_settled : JobState → Bool
is_settled idle = true
is_settled promoted = true
is_settled rejected = true
is_settled failed = true
is_settled rolled_back = true
is_settled _ = false

-- The production model's version, or the literal of the source.
abbrev version_or_default : Result RegisteredModel → String
version_or_default (ok m) = m.version
version_or_default (err _) = production_version

abbrev not_awaiting_because : JobState → RetrainingError
not_awaiting_because canary = already_approved
not_awaiting_because promoted = already_approved
not_awaiting_because _ = not_awaiting

abbrev pub is_awaiting : JobState → Bool
is_awaiting awaiting_approval = true
is_awaiting _ = false

abbrev not_rejectable_because : JobState → RetrainingError
not_rejectable_because rejected = already_rejected
not_rejectable_because _ = not_awaiting

module _ {F : Type 0} where
  -- The result is the job that is active and its copy, which the pipeline works on.
  unfoldable pub create_and_start_job :
      ℕ
      → String
      → String
      → String
      → String
      → ℕ
      → RetrainingCoordinator F
      → Option RetrainingError × RetrainingCoordinator F
  create_and_start_job now id dataset trigger_type reason samples c =
      let job : RetrainingJob = record {
        job_id = id;
        triggered_at = now;
        state = triggered;
        trigger_type = trigger_type;
        trigger_reason = reason;
        parent_model_version = version_or_default (get_production_model c.model_registry);
        candidate_model_version = "";
        dataset_id = dataset;
        sample_count = samples;
        completed_at = none;
        duration_ms = 0;
        error = "";
      } in
      if c.maintenance_mode
      then (some in_maintenance, c)
      else if c.retraining_paused
      then (some retraining_is_paused, c)
      else if is_some_ref c.active_job || not (is_settled c.current_state)
      then (some already_active, c)
      else (
        none,
        count "training_jobs_started" (record c {
          current_state = triggered;
          jobs = write_at (c.next_job + 1) (λ _. job) (write_at c.next_job (λ _. job) c.jobs);
          next_job = c.next_job + 2;
          active_job = some c.next_job;
          trigger_engine = set_active_job now id reason c.trigger_engine;
        }),
      )

  unfoldable pub trigger_manual :
      ℕ
      → String
      → String
      → String
      → RetrainingCoordinator F
      → Option RetrainingError × RetrainingCoordinator F
  trigger_manual now id dataset reason c =
      if str_eq reason ""
      then (some empty_reason, c)
      else elim (can_trigger_manual (some c.canary_router.circuit_breaker.state) c.trigger_engine) [
        | some a ↦ (some (trigger_rejected a), c)
        | none ↦ create_and_start_job now id dataset "MANUAL_OPERATOR" reason 1000 c
      ]

  -- The head of `CancelJob`: the job to fail, where there is no error.
  unfoldable pub cancel_job : String → RetrainingCoordinator F → Option RetrainingError × Option ℕ
  cancel_job id c = elim (c.active_job) [
    | none ↦ (some not_active, none)
    | some ref ↦ if str_eq (c.jobs ref).job_id id then (none, some ref) else (some not_active, none)
  ]

  -- The candidate of the rollout to start, where there is no error.
  unfoldable pub approve_candidate :
      String → RetrainingCoordinator F → Option RetrainingError × Option ℕ × RetrainingCoordinator F
  approve_candidate id c =
      if not (is_awaiting c.current_state)
      then (some (not_awaiting_because c.current_state), none, c)
      else elim (lookup id c.candidates) [
        | none ↦ (some candidate_not_found, none, c)
        | some ref ↦ (
          none,
          some ref,
          record c {
            current_state = canary;
            cands = write_at ref (in_state canary) c.cands;
            jobs =
                write_opt c.active_job (λ (j : RetrainingJob). record j { state = canary }) c.jobs;
          },
        )
      ]

  -- The head of `RejectCandidate`: the candidate to reject, where there is no error.
  unfoldable pub reject_head : String → RetrainingCoordinator F → Option RetrainingError × Option ℕ
  reject_head id c =
      if not (is_awaiting c.current_state)
      then (some (not_rejectable_because c.current_state), none)
      else elim (lookup id c.candidates) [
        | none ↦ (some candidate_not_found, none)
        | some ref ↦ (none, some ref)
      ]

  abbrev pub moved : JobState → Option ℕ → RetrainingCoordinator F → RetrainingCoordinator F
  moved target job c = record c {
    current_state = target;
    jobs = write_opt job (λ (j : RetrainingJob). record j { state = target }) c.jobs;
    cands = write_opt c.active_candidate (in_state target) c.cands;
  }

  unfoldable pub transition_job_state :
      Option ℕ → JobState → RetrainingCoordinator F → Bool × RetrainingCoordinator F
  transition_job_state job target c =
      if can_transition_to c.current_state target then (true, moved target job c) else (false, c)

module _ (fl : Floats) where
  open fl use {F}

  -- The answer is whether a job was started.
  unfoldable pub on_drift_evaluated :
      ℕ
      → String
      → String
      → String
      → DriftMeasurement F
      → RetrainingCoordinator F
      → Bool × RetrainingCoordinator F
  on_drift_evaluated now id dataset reason m c =
      let (answer, e) =
        evaluate_drift fl now (some m) (some c.canary_router.circuit_breaker.state)
          c.trigger_engine in
      let c' : RetrainingCoordinator F = record c { trigger_engine = e } in
      let type : String = elim answer [
        | TriggerAnswer.drift_critical ↦ "DRIFT_CRITICAL"
        | _ ↦ "DRIFT_SUSTAINED"
      ] in
      let (error, c'') =
        create_and_start_job now id dataset type reason (to_uint32 m.sample_count) c' in
      if c.maintenance_mode || c.retraining_paused
      then (false, c)
      else if not (should_trigger answer)
      then (false, c')
      else (elim error [ none ↦ true | some _ ↦ false ], c'')
