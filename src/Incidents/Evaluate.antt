-- ===== src/Incidents/Evaluate.antt =====
-- `Evaluate` of incident_engine.go: what the reports of a round raise and resolve.
use ropus.Common.{ℕ, String, ◌<>◌, List, [], ◌∷◌}
use ropus.Common.Dict.{Dict}
use ropus.Rollout.Breaker as Breaker
use ropus.Rollout.Breaker.{CircuitBreakerState}
use ropus.Retraining.Types as Job
use ropus.Retraining.Types.{JobState}
use ropus.Retraining.Trigger as Drift
use ropus.Retraining.Trigger.{ModelDriftStatus}
use ropus.Incidents.{
  warning, high, critical, slo_breach, circuit_breaker_trip, critical_drift, retraining_failure,
  dependency_outage, IncidentCategory, IncidentSeverity, category_text, IncidentEngine, Incident,
  Report, raise_or_update, resolve_if_open, list_incidents,
}

pub data HealthStatus : Type 0 where
  healthy degraded unhealthy unknown : HealthStatus

pub record ComponentHealth : Type 0 where
  pub status : HealthStatus
  pub message : String

pub data SloStatus : Type 0 where
  slo_healthy slo_warning slo_breached slo_unknown : SloStatus

pub record SloMetricRecord (F : Type 0) : Type 0 where
  pub name : String
  pub status : SloStatus
  pub current_value : F
  pub target : F
  pub burn_rate : F

-- What fmt writes for numbers: `%d`, `%.4f` and `%.2f`.
pub record Printer : Type 1 where
  pub F : Type 0
  pub decimal : ℕ → String
  pub four_places : F → String
  pub two_places : F → String

abbrev key_of : IncidentCategory → String → String
key_of category name = category_text category <> ":" <> name

abbrev engine : String
engine = "AUTOMATED_ENGINE"

abbrev report : IncidentSeverity → IncidentCategory → String → String → String → String → Report
report severity category name reason subsystem prod_model = record {
  key = key_of category name;
  severity = severity;
  category = category;
  reason = reason;
  subsystem = subsystem;
  model_version = prod_model;
  correlation_id = "";
}

module _ (printer : Printer) where
  open printer use {F, decimal, four_places, two_places}

  unfoldable pub on_health :
      String → ℕ → String → String → HealthStatus → IncidentEngine → IncidentEngine
  on_health prod_model now name message unhealthy ie =
      raise_or_update decimal
        (report critical dependency_outage name
          ("Critical component " <> name <> " is UNHEALTHY: " <> message) name prod_model)
        now ie
  on_health prod_model now name message degraded ie =
      raise_or_update decimal
        (report warning dependency_outage name ("Component " <> name <> " is DEGRADED: " <> message)
          name prod_model)
        now ie
  on_health prod_model now name message healthy ie =
      resolve_if_open (key_of dependency_outage name) engine now ie
  on_health prod_model now name message unknown ie = ie

  unfoldable pub visit_components :
      String → ℕ → Dict ComponentHealth → IncidentEngine → IncidentEngine
  visit_components prod_model now [] ie = ie
  visit_components prod_model now ((name, comp) ∷ d) ie =
      visit_components prod_model now d (on_health prod_model now name comp.message comp.status ie)

  abbrev tripped : String → String → ℕ → IncidentEngine → IncidentEngine
  tripped state prod_model now ie =
      raise_or_update decimal
        (report critical circuit_breaker_trip "canary_router"
          ("Circuit breaker tripped into " <> state <> " state") "canary_router" prod_model)
        now ie

  unfoldable pub evaluate_breaker :
      CircuitBreakerState → String → ℕ → IncidentEngine → IncidentEngine
  evaluate_breaker Breaker.failed prod_model now ie = tripped "FAILED" prod_model now ie
  evaluate_breaker Breaker.rolled_back prod_model now ie = tripped "ROLLED_BACK" prod_model now ie
  evaluate_breaker Breaker.healthy prod_model now ie =
      resolve_if_open (key_of circuit_breaker_trip "canary_router") engine now ie
  evaluate_breaker Breaker.warning prod_model now ie = ie
  evaluate_breaker Breaker.rolling_back prod_model now ie = ie

  unfoldable pub evaluate_drift : ModelDriftStatus → String → ℕ → IncidentEngine → IncidentEngine
  evaluate_drift Drift.critical prod_model now ie =
      raise_or_update decimal
        (report high critical_drift "drift_detector"
          "Critical feature drift detected exceeding safety threshold" "drift_detector" prod_model)
        now ie
  evaluate_drift Drift.healthy prod_model now ie =
      resolve_if_open (key_of critical_drift "drift_detector") engine now ie
  evaluate_drift Drift.warning prod_model now ie = ie
  evaluate_drift Drift.degraded prod_model now ie = ie

  unfoldable pub evaluate_retraining : JobState → String → ℕ → IncidentEngine → IncidentEngine
  evaluate_retraining Job.failed prod_model now ie =
      raise_or_update decimal
        (report warning retraining_failure "retraining_coordinator"
          "Retraining candidate generation or validation job failed" "retraining_coordinator"
          prod_model)
        now ie
  evaluate_retraining Job.promoted prod_model now ie =
      resolve_if_open (key_of retraining_failure "retraining_coordinator") engine now ie
  evaluate_retraining Job.idle prod_model now ie =
      resolve_if_open (key_of retraining_failure "retraining_coordinator") engine now ie
  evaluate_retraining _ prod_model now ie = ie

  unfoldable pub on_slo :
      String → ℕ → String → SloMetricRecord F → SloStatus → IncidentEngine → IncidentEngine
  on_slo prod_model now slo_id m slo_breached ie =
      raise_or_update decimal
        (report critical slo_breach slo_id
          ("SLO '"
            <> m.name
            <> "' BREACHED: Current "
            <> four_places m.current_value
            <> " vs Target "
            <> four_places m.target
            <> " (Burn Rate: "
            <> two_places m.burn_rate
            <> "x)")
          "slo_engine" prod_model)
        now ie
  on_slo prod_model now slo_id m slo_warning ie =
      raise_or_update decimal
        (report warning slo_breach slo_id
          ("SLO '"
            <> m.name
            <> "' in WARNING: Current "
            <> four_places m.current_value
            <> " vs Target "
            <> four_places m.target)
          "slo_engine" prod_model)
        now ie
  on_slo prod_model now slo_id m slo_healthy ie =
      resolve_if_open (key_of slo_breach slo_id) engine now ie
  on_slo prod_model now slo_id m slo_unknown ie = ie

  unfoldable pub visit_slos :
      String → ℕ → Dict (SloMetricRecord F) → IncidentEngine → IncidentEngine
  visit_slos prod_model now [] ie = ie
  visit_slos prod_model now ((slo_id, m) ∷ d) ie =
      visit_slos prod_model now d (on_slo prod_model now slo_id m m.status ie)

  unfoldable pub evaluate :
      Dict ComponentHealth
      → Dict (SloMetricRecord F)
      → CircuitBreakerState
      → ModelDriftStatus
      → JobState
      → String
      → ℕ
      → IncidentEngine
      → List Incident × IncidentEngine
  evaluate components measurements cb_state drift_status retrain_state prod_model now ie =
      let ie' = visit_slos prod_model now measurements (
        evaluate_retraining retrain_state prod_model now (
          evaluate_drift drift_status prod_model now (
            evaluate_breaker cb_state prod_model now
              (visit_components prod_model now components ie)))) in
      (list_incidents ie', ie')
