-- ===== src/Incidents/Climbs.antt =====
-- What an incident of incident_engine.go can become, and what one write does to it.
use ropus.Common.{
  ℕ, ◌+◌, ◌≤◌, ◌<◌, ◌≡◌, ◌∙◌, refl, String, true, false, arith, Bool-cases, inl, inr, ◌==◌,
}
use ropus.Retraining.State.{write_at}
use ropus.Incidents.{
  IncidentState, open_state, acknowledged, resolved, IncidentSeverity, info, warning, high,
  critical, Incident, IncidentEngine, is_resolved, escalate, repeated, resolved_with,
}

abbrev pub rank : IncidentSeverity → ℕ
rank info = 0
rank warning = 1
rank high = 2
rank critical = 3

abbrev pub stage : IncidentState → ℕ
stage open_state = 0
stage acknowledged = 1
stage resolved = 2

-- What an incident is later: the same incident, no less severe, and no earlier in its life; one
-- that was resolved is as severe and as frequent as it was.
pub record Follows (before after : Incident) : Type 0 where
  pub same_id : after.incident_id ≡ before.incident_id
  pub same_category : after.category ≡ before.category
  pub same_subsystem : after.affected_subsystem ≡ before.affected_subsystem
  pub same_start : after.first_seen ≡ before.first_seen
  pub no_milder : rank before.severity ≤ rank after.severity
  pub no_rarer : before.occurrence_count ≤ after.occurrence_count
  pub no_earlier : stage before.status ≤ stage after.status
  pub at_rest :
      is_resolved before.status ≡ true
      → (after.severity ≡ before.severity) × (after.occurrence_count ≡ before.occurrence_count)

pub Follows-refl : (inc : Incident) → Follows inc inc
Follows-refl inc = record {
  same_id = refl;
  same_category = refl;
  same_subsystem = refl;
  same_start = refl;
  no_milder = omega arith;
  no_rarer = omega arith;
  no_earlier = omega arith;
  at_rest = λ h. (refl, refl);
}

stage_resolved :
    (s s' : IncidentState) → stage s ≤ stage s' → is_resolved s ≡ true → is_resolved s' ≡ true
stage_resolved resolved resolved h e = refl
stage_resolved resolved open_state h e = ground (arith, h)
stage_resolved resolved acknowledged h e = ground (arith, h)
stage_resolved open_state s' h e = ground arith
stage_resolved acknowledged s' h e = ground arith

Follows-trans : (a b c : Incident) → Follows a b → Follows b c → Follows a c
Follows-trans a b c h k = record {
  same_id = k.same_id ∙ h.same_id;
  same_category = k.same_category ∙ h.same_category;
  same_subsystem = k.same_subsystem ∙ h.same_subsystem;
  same_start = k.same_start ∙ h.same_start;
  no_milder = omega (arith, h.no_milder, k.no_milder);
  no_rarer = omega (arith, h.no_rarer, k.no_rarer);
  no_earlier = omega (arith, h.no_earlier, k.no_earlier);
  at_rest = λ e.
      let (s, n) = h.at_rest e in
      let (s', n') = k.at_rest (stage_resolved a.status b.status h.no_earlier e) in
      (s' ∙ s, n' ∙ n);
}

-- Every incident that has been filed is followed.
unfoldable pub Climbs : IncidentEngine → IncidentEngine → Type 0
Climbs ie ie' =
    (ie.next ≤ ie'.next) × ((ref : ℕ) → ref < ie.next → Follows (ie.heap ref) (ie'.heap ref))

pub Climbs-refl : (ie : IncidentEngine) → Climbs ie ie
unfolding Climbs
Climbs-refl ie = (omega arith, λ ref h. Follows-refl (ie.heap ref))

pub Climbs-trans : (a b c : IncidentEngine) → Climbs a b → Climbs b c → Climbs a c
unfolding Climbs
Climbs-trans a b c (m, h) (n, k) = (
  omega (arith, m, n),
  λ ref l.
      Follows-trans (a.heap ref) (b.heap ref) (c.heap ref) (h ref l) (k ref (omega (arith, l, m))),
)

write-Follows :
    (heap : ℕ → Incident) (p : ℕ) (f : Incident → Incident)
    → Follows (heap p) (f (heap p))
    → (ref : ℕ) → Follows (heap ref) (write_at p f heap ref)
write-Follows heap p f h ref = elim (Bool-cases (ref == p)) [
  | inl same ↦ let e : ref ≡ p = ground arith in rw (same, e) h
  | inr other ↦ rw other (Follows-refl (heap ref))
]

escalate_lem :
    (now first_seen count : ℕ) (raised s : IncidentSeverity)
    → rank s ≤ rank (escalate now first_seen count raised s)
unfolding escalate
escalate_lem now first_seen count raised info = ground arith
escalate_lem now first_seen count raised warning = ground arith
escalate_lem now first_seen count raised high = ground arith
escalate_lem now first_seen count raised critical = ground arith

pub repeated-Follows :
    (severity : IncidentSeverity) (reason : String) (now : ℕ) (inc : Incident)
    → is_resolved inc.status ≡ false
    → Follows inc (repeated severity reason now inc)
unfolding repeated
repeated-Follows severity reason now inc e = record {
  same_id = refl;
  same_category = refl;
  same_subsystem = refl;
  same_start = refl;
  no_milder = escalate_lem now inc.first_seen (inc.occurrence_count + 1) severity inc.severity;
  no_rarer = omega arith;
  no_earlier = omega arith;
  at_rest = λ h. ground (arith, e, h);
}

stage_max : (s : IncidentState) → stage s ≤ 2
stage_max open_state = omega arith
stage_max acknowledged = omega arith
stage_max resolved = omega arith

stage_acknowledged : (s : IncidentState) → is_resolved s ≡ false → stage s ≤ 1
stage_acknowledged open_state e = omega arith
stage_acknowledged acknowledged e = omega arith
stage_acknowledged resolved e = ground arith

pub resolved_with-Follows :
    (actor : String) (now : ℕ) (inc : Incident) → Follows inc (resolved_with actor now inc)
resolved_with-Follows actor now inc = record {
  same_id = refl;
  same_category = refl;
  same_subsystem = refl;
  same_start = refl;
  no_milder = omega arith;
  no_rarer = omega arith;
  no_earlier = stage_max inc.status;
  at_rest = λ h. (refl, refl);
}

pub acknowledged-Follows :
    (actor : String) (inc : Incident)
    → is_resolved inc.status ≡ false
    → Follows inc (record inc { status = acknowledged; acknowledged_by = actor })
acknowledged-Follows actor inc e = record {
  same_id = refl;
  same_category = refl;
  same_subsystem = refl;
  same_start = refl;
  no_milder = omega arith;
  no_rarer = omega arith;
  no_earlier = stage_acknowledged inc.status e;
  at_rest = λ h. ground (arith, e, h);
}

-- One write through a pointer.
pub write-Climbs :
    (ie ie' : IncidentEngine) (p : ℕ) (f : Incident → Incident)
    → Follows (ie.heap p) (f (ie.heap p))
    → ie'.next ≡ ie.next
    → ie'.heap ≡ write_at p f ie.heap
    → Climbs ie ie'
unfolding Climbs
write-Climbs ie ie' p f h n e =
    (omega (arith, n), λ ref l. rw (e) (write-Follows ie.heap p f h ref))
