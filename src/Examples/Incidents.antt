-- ===== src/Examples/Incidents.antt =====
-- Tests of incident_engine.go, over natural numbers as floats.
use ropus.Common.{
  ℕ, ◌≡◌, ◌≢◌, ◌<◌, ◌==◌, if◌then◌else◌, refl, String, eq_iff, true, none, List, [], ◌∷◌, arith,
}
use ropus.Rollout.Breaker as Breaker
use ropus.Retraining.Types as Job
use ropus.Retraining.Trigger as Drift
use ropus.Incidents.{
  open_state, resolved, warning, high, critical, dependency_outage, Incident, IncidentEngine,
  Report, new_incident_engine, raise_or_update, acknowledge_incident, resolve_incident, file,
  repeat, escalate, repeated, find_incident, resolve_if_open,
}
use ropus.Incidents.Evaluate.{
  HealthStatus, degraded, Printer, on_health, visit_components, evaluate_breaker, evaluate_drift,
  evaluate_retraining, visit_slos, evaluate,
}
use ropus.Incidents.Climbs.{Follows}
use ropus.Incidents.History.{Call, evaluates, acknowledges, resolves, apply, apply_all, life_climbs}
use ropus.Incidents.Ids.{ids_collide}

abbrev decimal : ℕ → String
decimal n =
    if n == 0
    then "0"
    else if n == 1
    then "1"
    else if n == 2
    then "2"
    else if n == 3
    then "3"
    else "many"

abbrev plain : Printer
plain = record { F = ℕ; decimal = decimal; four_places = λ x. "0.5"; two_places = λ x. "0.5" }

abbrev blank : Incident
blank = record {
  incident_id = "";
  severity = warning;
  category = dependency_outage;
  status = open_state;
  reason = "";
  affected_subsystem = "";
  model_version = "";
  correlation_id = "";
  occurrence_count = 0;
  first_seen = 0;
  last_seen = 0;
  resolved_at = none;
  acknowledged_by = "";
  resolved_by = "";
}

abbrev fresh : IncidentEngine
fresh = new_incident_engine (λ ref. blank) true

abbrev round : HealthStatus → ℕ → Call plain
round status now =
    evaluates (("redis", record { status = status; message = "slow" }) ∷ []) [] Breaker.healthy
      Drift.healthy Job.idle "v1" now

abbrev raised : IncidentEngine
raised = apply plain (round degraded 10) fresh

abbrev calls : List (Call plain)
calls =
    round degraded 20
    ∷ acknowledges "inc_0_1" "ann"
    ∷ round degraded 30
    ∷ resolves "inc_0_1" "ann" 40
    ∷ []

raised_one : raised.next ≡ 1
unfolding apply evaluate visit_components on_health raise_or_update file evaluate_breaker
    evaluate_drift evaluate_retraining visit_slos resolve_if_open
raised_one = refl

third_is_high : ((apply_all plain calls raised).heap 0).severity ≡ high
unfolding apply apply_all evaluate visit_components on_health raise_or_update file repeat repeated
    escalate evaluate_breaker evaluate_drift evaluate_retraining visit_slos resolve_if_open
    acknowledge_incident resolve_incident find_incident
third_is_high = refl

ends_resolved : ((apply_all plain calls raised).heap 0).status ≡ resolved
unfolding apply apply_all evaluate visit_components on_health raise_or_update file repeat repeated
    escalate evaluate_breaker evaluate_drift evaluate_retraining visit_slos resolve_if_open
    acknowledge_incident resolve_incident find_incident
ends_resolved = refl

filed : 0 < raised.next
filed = ground (arith, raised_one)

life_climbs_example : Follows (raised.heap 0) ((apply_all plain calls raised).heap 0)
life_climbs_example = life_climbs plain calls raised 0 filed

abbrev outage : String → Report
outage name = record {
  key = name;
  severity = critical;
  category = dependency_outage;
  reason = "down";
  subsystem = name;
  model_version = "v1";
  correlation_id = "";
}

-- A history of two, which is full.
abbrev full : IncidentEngine
full = record fresh { next = 2; incident_list = 0 ∷ 1 ∷ []; max_history = 2 }

abbrev both : IncidentEngine
both =
    raise_or_update decimal (outage "redis") 2 (raise_or_update decimal (outage "postgres") 1 full)

names_differ : ◌≢◌ {A = String} "postgres" "redis"
names_differ = ground (arith, eq_iff "postgres" "redis")

ids_collide_example :
    let id = (both.heap 3).incident_id in
    ((both.heap 2).incident_id ≡ id)
    × ((acknowledge_incident id "ann" both).1.heap 3 ≡ both.heap 3)
    × ((resolve_incident id "ann" 2 both).1.heap 3 ≡ both.heap 3)
ids_collide_example =
    ids_collide decimal (outage "postgres") (outage "redis") 1 2 0 1 [] "ann" full refl refl
      (omega arith, (omega arith, tt)) refl refl names_differ refl
