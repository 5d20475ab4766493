-- ===== src/Incidents.antt =====
-- incident_engine.go: incidents and the calls that raise, acknowledge and resolve them. They are
-- shared by pointer, so they live in a heap. The engine hands alerts to an alert manager and
-- incidents to a handler; both are effects here.
use ropus.Common.{
  ℕ, ◌+◌, ◌-◌, ◌/◌, zero, suc, String, ◌<>◌, str_eq, Bool, true, false, not, ◌&&◌, Option, none,
  some, List, [], ◌∷◌, ◌++◌, map, length, if◌then◌else◌, ltb, leb,
}
use ropus.Common.Dict.{Dict, lookup, insert}
use ropus.Retraining.State.{write_at}
pub mod Evaluate
pub mod Climbs
pub mod History
pub mod Ids

pub data IncidentState : Type 0 where
  open_state acknowledged resolved : IncidentState

pub data IncidentSeverity : Type 0 where
  info warning high critical : IncidentSeverity

pub data IncidentCategory : Type 0 where
  slo_breach circuit_breaker_trip critical_drift retraining_failure dependency_outage
        canary_rollback model_failure security_violation :
      IncidentCategory

pub record Incident : Type 0 where
  pub incident_id : String
  pub severity : IncidentSeverity
  pub category : IncidentCategory
  pub status : IncidentState
  pub reason : String
  pub affected_subsystem : String
  pub model_version : String
  pub correlation_id : String
  pub occurrence_count : ℕ
  pub first_seen : ℕ
  pub last_seen : ℕ
  pub resolved_at : Option ℕ
  pub acknowledged_by : String
  pub resolved_by : String

pub record Alert : Type 0 where
  pub alert_id : String
  pub timestamp : ℕ
  pub severity : IncidentSeverity
  pub title : String
  pub message : String
  pub incident_id : String
  pub subsystem : String
  pub correlation_id : String

pub data Effect : Type 0 where
  emits : Alert → Effect
  remediates : Incident → Effect

-- `effects` are the calls made so far, the last one first.
pub record IncidentEngine : Type 0 where
  pub heap : ℕ → Incident
  pub next : ℕ
  pub incidents : Dict ℕ
  pub incident_list : List ℕ
  pub max_history : ℕ
  pub has_alert_manager : Bool
  pub auto_remediate : Bool
  pub effects : List Effect

pub data IncidentError : Type 0 where
  already_resolved not_found : IncidentError

abbrev pub new_incident_engine : (ℕ → Incident) → Bool → IncidentEngine
new_incident_engine heap has_alert_manager = record {
  heap = heap;
  next = 0;
  incidents = [];
  incident_list = [];
  max_history = 500;
  has_alert_manager = has_alert_manager;
  auto_remediate = false;
  effects = [];
}

abbrev pub set_auto_remediation_handler : Bool → IncidentEngine → IncidentEngine
set_auto_remediation_handler handler ie = record ie { auto_remediate = handler }

abbrev pub is_resolved : IncidentState → Bool
is_resolved resolved = true
is_resolved _ = false

abbrev is_warning : IncidentSeverity → Bool
is_warning warning = true
is_warning _ = false

abbrev is_high : IncidentSeverity → Bool
is_high high = true
is_high _ = false

abbrev is_critical : IncidentSeverity → Bool
is_critical critical = true
is_critical _ = false

abbrev severity_text : IncidentSeverity → String
severity_text info = "INFO"
severity_text warning = "WARNING"
severity_text high = "HIGH"
severity_text critical = "CRITICAL"

abbrev pub category_text : IncidentCategory → String
category_text slo_breach = "SLO_BREACH"
category_text circuit_breaker_trip = "CIRCUIT_BREAKER_TRIP"
category_text critical_drift = "CRITICAL_DRIFT"
category_text retraining_failure = "RETRAINING_FAILURE"
category_text dependency_outage = "DEPENDENCY_OUTAGE"
category_text canary_rollback = "CANARY_ROLLBACK"
category_text model_failure = "MODEL_FAILURE"
category_text security_violation = "SECURITY_VIOLATION"

-- Ten minutes in nanoseconds.
abbrev ten_minutes : ℕ
ten_minutes = 600000000000

abbrev escalated_once : ℕ → IncidentSeverity → IncidentSeverity
escalated_once count s = if is_warning s && leb 3 count then high else s

abbrev escalated_by_age : ℕ → ℕ → IncidentSeverity → IncidentSeverity
escalated_by_age now first_seen s =
    if is_high s && leb (first_seen + ten_minutes) now then critical else s

unfoldable pub escalate : ℕ → ℕ → ℕ → IncidentSeverity → IncidentSeverity → IncidentSeverity
escalate now first_seen count raised s =
    let s' = escalated_by_age now first_seen (escalated_once count s) in
    if is_critical raised && not (is_critical s') then critical else s'

-- The update in place of an incident that is not resolved.
unfoldable pub repeated : IncidentSeverity → String → ℕ → Incident → Incident
repeated severity reason now inc = record inc {
  last_seen = now;
  occurrence_count = inc.occurrence_count + 1;
  reason = reason;
  severity = escalate now inc.first_seen (inc.occurrence_count + 1) severity inc.severity;
}

abbrev remediate : Incident → IncidentEngine → IncidentEngine
remediate inc ie =
    if is_critical inc.severity && ie.auto_remediate
    then record ie { effects = remediates inc ∷ ie.effects }
    else ie

abbrev alert_of : Incident → Alert
alert_of inc = record {
  alert_id = "alt_" <> inc.incident_id;
  timestamp = inc.first_seen;
  severity = inc.severity;
  title = "[" <> severity_text inc.severity <> "] Incident on " <> inc.affected_subsystem;
  message = inc.reason;
  incident_id = inc.incident_id;
  subsystem = inc.affected_subsystem;
  correlation_id = inc.correlation_id;
}

abbrev emit_alert : Incident → IncidentEngine → IncidentEngine
emit_alert inc ie =
    if ie.has_alert_manager then record ie { effects = emits (alert_of inc) ∷ ie.effects } else ie

abbrev pub drop : ℕ → List ℕ → List ℕ
drop zero xs = xs
drop (suc n) [] = []
drop (suc n) (x ∷ xs) = drop n xs

abbrev pub trim : ℕ → List ℕ → List ℕ
trim max_history xs = if ltb max_history (length xs) then drop (length xs - max_history) xs else xs

-- What a caller of `raiseOrUpdateLocked` gives.
pub record Report : Type 0 where
  pub key : String
  pub severity : IncidentSeverity
  pub category : IncidentCategory
  pub reason : String
  pub subsystem : String
  pub model_version : String
  pub correlation_id : String

unfoldable pub repeat : Report → ℕ → ℕ → IncidentEngine → IncidentEngine
repeat r now ref ie =
    let inc = repeated r.severity r.reason now (ie.heap ref) in
    remediate inc (record ie { heap = write_at ref (λ old. inc) ie.heap })

-- `decimal` is how fmt writes a number.
module _ (decimal : ℕ → String) where
  abbrev pub id_at : ℕ → ℕ → String
  id_at now number = "inc_" <> decimal (now / 1000000000) <> "_" <> decimal number

  abbrev pub new_incident : Report → ℕ → IncidentEngine → Incident
  new_incident r now ie = record {
    incident_id = id_at now (length ie.incident_list + 1);
    severity = r.severity;
    category = r.category;
    status = open_state;
    reason = r.reason;
    affected_subsystem = r.subsystem;
    model_version = r.model_version;
    correlation_id = r.correlation_id;
    occurrence_count = 1;
    first_seen = now;
    last_seen = now;
    resolved_at = none;
    acknowledged_by = "";
    resolved_by = "";
  }

  unfoldable pub file : Report → ℕ → IncidentEngine → IncidentEngine
  file r now ie =
      let inc = new_incident r now ie in
      remediate inc (
        emit_alert inc (record ie {
          heap = write_at ie.next (λ old. inc) ie.heap;
          next = ie.next + 1;
          incidents = insert r.key ie.next ie.incidents;
          incident_list = trim ie.max_history (ie.incident_list ++ ie.next ∷ []);
        }))

  unfoldable pub raise_or_update : Report → ℕ → IncidentEngine → IncidentEngine
  raise_or_update r now ie = elim (lookup r.key ie.incidents) [
    | none ↦ file r now ie
    | some ref ↦ if is_resolved (ie.heap ref).status then file r now ie else repeat r now ref ie
  ]

abbrev pub resolved_with : String → ℕ → Incident → Incident
resolved_with actor now inc = record inc {
  status = resolved;
  resolved_at = some now;
  resolved_by = actor;
}

unfoldable pub resolve_if_open : String → String → ℕ → IncidentEngine → IncidentEngine
resolve_if_open key actor now ie = elim (lookup key ie.incidents) [
  | none ↦ ie
  | some ref ↦
      if is_resolved (ie.heap ref).status
      then ie
      else record ie { heap = write_at ref (resolved_with actor now) ie.heap }
]

-- The loop over the incident list: the first one with this id.
unfoldable pub find_incident : String → (ℕ → Incident) → List ℕ → Option ℕ
find_incident id heap [] = none
find_incident id heap (ref ∷ refs) =
    if str_eq (heap ref).incident_id id then some ref else find_incident id heap refs

unfoldable pub acknowledge_incident :
    String → String → IncidentEngine → Option IncidentError × IncidentEngine
acknowledge_incident id actor ie = elim (find_incident id ie.heap ie.incident_list) [
  | none ↦ (some not_found, ie)
  | some ref ↦ if is_resolved (ie.heap ref).status then (some already_resolved, ie) else (
    none,
    record ie {
      heap =
          write_at ref (λ inc. record inc { status = acknowledged; acknowledged_by = actor })
            ie.heap;
    },
  )
]

unfoldable pub resolve_incident :
    String → String → ℕ → IncidentEngine → Option IncidentError × IncidentEngine
resolve_incident id actor now ie = elim (find_incident id ie.heap ie.incident_list) [
  | none ↦ (some not_found, ie)
  | some ref ↦ (none, record ie { heap = write_at ref (resolved_with actor now) ie.heap })
]

abbrev reversed : List ℕ → List ℕ
reversed [] = []
reversed (x ∷ xs) = reversed xs ++ x ∷ []

unfoldable pub list_incidents : IncidentEngine → List Incident
list_incidents ie = map ie.heap (reversed ie.incident_list)
