-- ===== src/Incidents/History.antt =====
-- Sequences of rounds and of operators' calls on the engine of incident_engine.go.
use ropus.Common.{
  ℕ, ◌+◌, ◌<◌, ◌≡◌, refl, String, Bool, false, List, [], ◌∷◌, arith, Option-cases, Bool-cases, inl,
  inr, ◌==◌,
}
use ropus.Common.Dict.{Dict, lookup}
use ropus.Rollout.Breaker as Breaker
use ropus.Rollout.Breaker.{CircuitBreakerState}
use ropus.Retraining.Types as Job
use ropus.Retraining.Types.{JobState}
use ropus.Retraining.Trigger as Drift
use ropus.Retraining.Trigger.{ModelDriftStatus}
use ropus.Retraining.State.{write_at}
use ropus.Incidents.{
  acknowledged, IncidentEngine, Report, new_incident, is_resolved, file, repeat, repeated,
  raise_or_update, resolved_with, resolve_if_open, find_incident, acknowledge_incident,
  resolve_incident, set_auto_remediation_handler,
}
use ropus.Incidents.Evaluate.{
  healthy, degraded, unhealthy, unknown, ComponentHealth, slo_healthy, slo_warning, slo_breached,
  slo_unknown, SloMetricRecord, Printer, HealthStatus, SloStatus, on_health, visit_components,
  evaluate_breaker, evaluate_drift, evaluate_retraining, on_slo, visit_slos, evaluate,
}
use ropus.Incidents.Climbs.{
  Follows, Follows-refl, Climbs, Climbs-refl, Climbs-trans, write-Climbs, repeated-Follows,
  resolved_with-Follows, acknowledged-Follows,
}

repeat-Climbs :
    (r : Report) (now ref : ℕ) (ie : IncidentEngine)
    → is_resolved (ie.heap ref).status ≡ false
    → Climbs ie (repeat r now ref ie)
unfolding repeat
repeat-Climbs r now ref ie e =
    write-Climbs ie (repeat r now ref ie) ref
      (λ old. repeated r.severity r.reason now (ie.heap ref))
      (repeated-Follows r.severity r.reason now (ie.heap ref) e) (ground arith) (ground arith)

module _ (decimal : ℕ → String) where
  file-Climbs : (r : Report) (now : ℕ) (ie : IncidentEngine) → Climbs ie (file decimal r now ie)
  unfolding file Climbs
  file-Climbs r now ie =
      let inc = new_incident decimal r now ie in
      let heap : (file decimal r now ie).heap ≡ write_at ie.next (λ old. inc) ie.heap =
        ground arith in
      let next : (file decimal r now ie).next ≡ ie.next + 1 = ground arith in
      (
        omega (arith, next),
        λ ref l.
            let old : (ref == ie.next) ≡ false = ground (arith, l) in
            rw (heap, old) (Follows-refl (ie.heap ref)),
      )

  raise_or_update-Climbs :
      (r : Report) (now : ℕ) (ie : IncidentEngine) → Climbs ie (raise_or_update decimal r now ie)
  unfolding raise_or_update
  raise_or_update-Climbs r now ie = elim (Option-cases (lookup r.key ie.incidents)) [
    | inl new ↦ rw (raise_or_update, new) (file-Climbs r now ie)
    | inr (ref, old) ↦ elim (Bool-cases (is_resolved (ie.heap ref).status)) [
      | inl closed ↦ rw (raise_or_update, old, closed) (file-Climbs r now ie)
      | inr live ↦ rw (raise_or_update, old, live) (repeat-Climbs r now ref ie live)
    ]
  ]

resolve_if_open-Climbs :
    (key actor : String) (now : ℕ) (ie : IncidentEngine)
    → Climbs ie (resolve_if_open key actor now ie)
unfolding resolve_if_open
resolve_if_open-Climbs key actor now ie = elim (Option-cases (lookup key ie.incidents)) [
  | inl new ↦ rw (resolve_if_open, new) (Climbs-refl ie)
  | inr (ref, old) ↦ elim (Bool-cases (is_resolved (ie.heap ref).status)) [
    | inl closed ↦ rw (resolve_if_open, old, closed) (Climbs-refl ie)
    | inr live ↦
        rw (resolve_if_open, old, live)
          (write-Climbs ie _ ref (resolved_with actor now)
            (resolved_with-Follows actor now (ie.heap ref)) refl refl)
  ]
]

acknowledge_incident-Climbs :
    (id actor : String) (ie : IncidentEngine) → Climbs ie (acknowledge_incident id actor ie).1
unfolding acknowledge_incident
acknowledge_incident-Climbs id actor ie =
    elim (Option-cases (find_incident id ie.heap ie.incident_list)) [
      | inl missing ↦ rw (acknowledge_incident, missing) (Climbs-refl ie)
      | inr (ref, found) ↦ elim (Bool-cases (is_resolved (ie.heap ref).status)) [
        | inl closed ↦ rw (acknowledge_incident, found, closed) (Climbs-refl ie)
        | inr live ↦
            rw (acknowledge_incident, found, live)
              (write-Climbs ie _ ref
                (λ inc. record inc { status = acknowledged; acknowledged_by = actor })
                (acknowledged-Follows actor (ie.heap ref) live) refl refl)
      ]
    ]

resolve_incident-Climbs :
    (id actor : String) (now : ℕ) (ie : IncidentEngine)
    → Climbs ie (resolve_incident id actor now ie).1
unfolding resolve_incident
resolve_incident-Climbs id actor now ie =
    elim (Option-cases (find_incident id ie.heap ie.incident_list)) [
      | inl missing ↦ rw (resolve_incident, missing) (Climbs-refl ie)
      | inr (ref, found) ↦
          rw (resolve_incident, found)
            (write-Climbs ie _ ref (resolved_with actor now)
              (resolved_with-Follows actor now (ie.heap ref)) refl refl)
    ]

module _ (printer : Printer) where
  open printer use {F, decimal}

  on_health-Climbs :
      (prod_model : String) (now : ℕ) (name message : String) (s : HealthStatus)
      (ie : IncidentEngine)
      → Climbs ie (on_health printer prod_model now name message s ie)
  unfolding on_health
  on_health-Climbs p now name message unhealthy ie = raise_or_update-Climbs decimal _ now ie
  on_health-Climbs p now name message degraded ie = raise_or_update-Climbs decimal _ now ie
  on_health-Climbs p now name message healthy ie = resolve_if_open-Climbs _ _ now ie
  on_health-Climbs p now name message unknown ie = Climbs-refl ie

  visit_components-Climbs :
      (prod_model : String) (now : ℕ) (d : Dict ComponentHealth) (ie : IncidentEngine)
      → Climbs ie (visit_components printer prod_model now d ie)
  unfolding visit_components
  visit_components-Climbs p now [] ie = Climbs-refl ie
  visit_components-Climbs p now ((name, comp) ∷ d) ie =
      let mid = on_health printer p now name comp.message comp.status ie in
      Climbs-trans ie mid (visit_components printer p now d mid)
        (on_health-Climbs p now name comp.message comp.status ie)
        (visit_components-Climbs p now d mid)

  on_slo-Climbs :
      (prod_model : String) (now : ℕ) (slo_id : String) (m : SloMetricRecord F) (s : SloStatus)
      (ie : IncidentEngine)
      → Climbs ie (on_slo printer prod_model now slo_id m s ie)
  unfolding on_slo
  on_slo-Climbs p now slo_id m slo_breached ie = raise_or_update-Climbs decimal _ now ie
  on_slo-Climbs p now slo_id m slo_warning ie = raise_or_update-Climbs decimal _ now ie
  on_slo-Climbs p now slo_id m slo_healthy ie = resolve_if_open-Climbs _ _ now ie
  on_slo-Climbs p now slo_id m slo_unknown ie = Climbs-refl ie

  visit_slos-Climbs :
      (prod_model : String) (now : ℕ) (d : Dict (SloMetricRecord F)) (ie : IncidentEngine)
      → Climbs ie (visit_slos printer prod_model now d ie)
  unfolding visit_slos
  visit_slos-Climbs p now [] ie = Climbs-refl ie
  visit_slos-Climbs p now ((slo_id, m) ∷ d) ie =
      let mid = on_slo printer p now slo_id m m.status ie in
      Climbs-trans ie mid (visit_slos printer p now d mid)
        (on_slo-Climbs p now slo_id m m.status ie) (visit_slos-Climbs p now d mid)

  evaluate_breaker-Climbs :
      (s : CircuitBreakerState) (prod_model : String) (now : ℕ) (ie : IncidentEngine)
      → Climbs ie (evaluate_breaker printer s prod_model now ie)
  unfolding evaluate_breaker
  evaluate_breaker-Climbs Breaker.failed p now ie = raise_or_update-Climbs decimal _ now ie
  evaluate_breaker-Climbs Breaker.rolled_back p now ie = raise_or_update-Climbs decimal _ now ie
  evaluate_breaker-Climbs Breaker.healthy p now ie = resolve_if_open-Climbs _ _ now ie
  evaluate_breaker-Climbs Breaker.warning p now ie = Climbs-refl ie
  evaluate_breaker-Climbs Breaker.rolling_back p now ie = Climbs-refl ie

  evaluate_drift-Climbs :
      (s : ModelDriftStatus) (prod_model : String) (now : ℕ) (ie : IncidentEngine)
      → Climbs ie (evaluate_drift printer s prod_model now ie)
  unfolding evaluate_drift
  evaluate_drift-Climbs Drift.critical p now ie = raise_or_update-Climbs decimal _ now ie
  evaluate_drift-Climbs Drift.healthy p now ie = resolve_if_open-Climbs _ _ now ie
  evaluate_drift-Climbs Drift.warning p now ie = Climbs-refl ie
  evaluate_drift-Climbs Drift.degraded p now ie = Climbs-refl ie

  evaluate_retraining-Climbs :
      (s : JobState) (prod_model : String) (now : ℕ) (ie : IncidentEngine)
      → Climbs ie (evaluate_retraining printer s prod_model now ie)
  unfolding evaluate_retraining
  evaluate_retraining-Climbs Job.failed p now ie = raise_or_update-Climbs decimal _ now ie
  evaluate_retraining-Climbs Job.promoted p now ie = resolve_if_open-Climbs _ _ now ie
  evaluate_retraining-Climbs Job.idle p now ie = resolve_if_open-Climbs _ _ now ie
  evaluate_retraining-Climbs _ p now ie = Climbs-refl ie

  evaluate-Climbs :
      (components : Dict ComponentHealth) (measurements : Dict (SloMetricRecord F))
      (cb : CircuitBreakerState) (drift : ModelDriftStatus) (job : JobState) (prod_model : String)
      (now : ℕ) (ie : IncidentEngine)
      → Climbs ie (evaluate printer components measurements cb drift job prod_model now ie).1
  unfolding evaluate
  evaluate-Climbs components measurements cb drift job p now ie =
      let a = visit_components printer p now components ie in
      let b = evaluate_breaker printer cb p now a in
      let c = evaluate_drift printer drift p now b in
      let d = evaluate_retraining printer job p now c in
      let e = visit_slos printer p now measurements d in
      Climbs-trans ie a e (visit_components-Climbs p now components ie) (
        Climbs-trans a b e (evaluate_breaker-Climbs cb p now a) (
          Climbs-trans b c e (evaluate_drift-Climbs drift p now b) (
            Climbs-trans c d e (evaluate_retraining-Climbs job p now c)
              (visit_slos-Climbs p now measurements d))))

  -- The calls on an engine, in the order in which its mutex lets them in.
  pub data Call : Type 0 where
    evaluates :
        Dict ComponentHealth
        → Dict (SloMetricRecord F)
        → CircuitBreakerState
        → ModelDriftStatus
        → JobState
        → String
        → ℕ
        → Call
    acknowledges : String → String → Call
    resolves : String → String → ℕ → Call
    sets_handler : Bool → Call

  unfoldable pub apply : Call → IncidentEngine → IncidentEngine
  apply (evaluates components measurements cb drift job p now) ie =
      (evaluate printer components measurements cb drift job p now ie).1
  apply (acknowledges id actor) ie = (acknowledge_incident id actor ie).1
  apply (resolves id actor now) ie = (resolve_incident id actor now ie).1
  apply (sets_handler b) ie = set_auto_remediation_handler b ie

  unfoldable pub apply_all : List Call → IncidentEngine → IncidentEngine
  apply_all [] ie = ie
  apply_all (c ∷ cs) ie = apply_all cs (apply c ie)

  apply-Climbs : (c : Call) (ie : IncidentEngine) → Climbs ie (apply c ie)
  unfolding apply Climbs
  apply-Climbs (evaluates components measurements cb drift job p now) ie =
      evaluate-Climbs components measurements cb drift job p now ie
  apply-Climbs (acknowledges id actor) ie = acknowledge_incident-Climbs id actor ie
  apply-Climbs (resolves id actor now) ie = resolve_incident-Climbs id actor now ie
  apply-Climbs (sets_handler b) ie = Climbs-refl ie

  apply_all-Climbs : (cs : List Call) (ie : IncidentEngine) → Climbs ie (apply_all cs ie)
  unfolding apply_all
  apply_all-Climbs [] ie = Climbs-refl ie
  apply_all-Climbs (c ∷ cs) ie =
      Climbs-trans ie (apply c ie) (apply_all cs (apply c ie)) (apply-Climbs c ie)
        (apply_all-Climbs cs (apply c ie))

  -- The life of an incident. Whatever rounds are evaluated and whatever operators acknowledge and
  -- resolve, an incident that has been filed keeps its id, its category, its subsystem and the time
  -- it was first seen; its severity and its number of occurrences never fall; its status only moves
  -- on from open to acknowledged to resolved; and once it is resolved, its severity and its number
  -- of occurrences do not change any more.
  pub life_climbs :
      (cs : List Call) (ie : IncidentEngine) (ref : ℕ)
      → ref < ie.next
      → Follows (ie.heap ref) ((apply_all cs ie).heap ref)
  unfolding Climbs
  life_climbs cs ie ref h = (apply_all-Climbs cs ie).1 ref h
