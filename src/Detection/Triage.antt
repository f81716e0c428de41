-- ===== src/Detection/Triage.antt =====
-- `patch_alert` and `patch_incident` of backend/app/api/v1/threats.py, after the guards; nothing where
-- they raise NotFoundError.
pub mod Steps
use Prim.Native.String.{◌++◌ as append_str}
use egreen_quanta_tes.Base.{
  ℕ, zero, suc, ◌==◌, String, Bool, true, false, not, Option, none, some, List, [], ◌∷◌, ◌++◌, any,
  str_eq, if◌then◌else◌,
}
use egreen_quanta_tes.Base.Text.{is_set, is_given}
use egreen_quanta_tes.Detection.Number.{Numbers}
use egreen_quanta_tes.Detection.Models.{Alert, AlertStatus, Incident, IncidentStatus}
use egreen_quanta_tes.Detection.Correlate.{has_incident}

-- `AlertPatch` and `AlertNote`
pub record AlertPatch : Type 0 where
  pub status : Option AlertStatus
  pub assigned_to : Option String
  pub note : Option String

pub record AlertNote : Type 0 where
  pub alert_id : String
  pub author_id : String
  pub body : String

abbrev number : AlertStatus → ℕ
number AlertStatus.opened = 0
number AlertStatus.triaged = 1
number AlertStatus.closed = 2

abbrev pub same_status : AlertStatus → AlertStatus → Bool
same_status a b = number a == number b

-- The status that changes, if one is given that is not the row's.
abbrev pub changed : Option AlertStatus → AlertStatus → Option AlertStatus
changed none old = none
changed (some new) old = if same_status new old then none else some new

abbrev status_or : Option AlertStatus → AlertStatus → AlertStatus
status_or none old = old
status_or (some new) old = new

-- Whether the change is a triage: to another status than open.
abbrev pub is_triage : Option AlertStatus → Bool
is_triage none = false
is_triage (some new) = not (same_status new AlertStatus.opened)

abbrev assignee : Option String → Option String → Option String
assignee none old = old
assignee (some new) old = if is_set new then some new else none

abbrev with_note : Option String → String → String
with_note none notes = notes
with_note (some note) notes =
    if is_set note
    then append_str (if is_set notes then append_str notes "\n" else "") note
    else notes

abbrev new_notes : Option String → String → String → List AlertNote
new_notes none alert author = []
new_notes (some note) alert author =
    if is_set note then record { alert_id = alert; author_id = author; body = note } ∷ [] else []

module _ (n : Numbers) where
  abbrev pub has_alert : String → Alert n → Bool
  has_alert id a = str_eq a.id id

  abbrev pub patched_alert : AlertPatch → String → ℕ → Alert n → Alert n
  patched_alert p actor now a =
      let change = changed p.status a.status in
      record {
        id = a.id;
        created_at = a.created_at;
        event_id = a.event_id;
        incident_id = a.incident_id;
        title = a.title;
        severity = a.severity;
        status = status_or change a.status;
        risk_score = a.risk_score;
        rule_codes = a.rule_codes;
        assigned_to = assignee p.assigned_to a.assigned_to;
        triaged_by = if is_triage change then some actor else a.triaged_by;
        triaged_at = if is_triage change then some now else a.triaged_at;
        notes = with_note p.note a.notes;
      }

  abbrev pub patch_alerts : String → AlertPatch → String → ℕ → List (Alert n) → List (Alert n)
  patch_alerts id p actor now [] = []
  patch_alerts id p actor now (a ∷ alerts) =
      let rest = patch_alerts id p actor now alerts in
      if has_alert id a then patched_alert p actor now a ∷ rest else a ∷ rest

  -- `patch_alert`
  unfoldable pub patch_alert :
      String
      → AlertPatch
      → String
      → ℕ
      → List (Alert n)
      → List AlertNote
      → Option (List (Alert n) × List AlertNote)
  patch_alert id p actor now alerts notes =
      if any (has_alert id) alerts
      then some (patch_alerts id p actor now alerts, notes ++ new_notes p.note id actor)
      else none

  abbrev patched_incident : IncidentStatus → Incident n → Incident n
  patched_incident status i = record {
    id = i.id;
    title = i.title;
    status = status;
    severity = i.severity;
    cohesion_score = i.cohesion_score;
    method = i.method;
    alert_count = i.alert_count;
    first_seen_at = i.first_seen_at;
    last_seen_at = i.last_seen_at;
    signals = i.signals;
  }

  abbrev pub patch_incidents : String → IncidentStatus → List (Incident n) → List (Incident n)
  patch_incidents id status [] = []
  patch_incidents id status (i ∷ incidents) =
      let rest = patch_incidents id status incidents in
      if has_incident n id i then patched_incident status i ∷ rest else i ∷ rest

  -- `patch_incident`
  unfoldable pub patch_incident :
      String → IncidentStatus → List (Incident n) → Option (List (Incident n))
  patch_incident id status incidents =
      if any (has_incident n id) incidents then some (patch_incidents id status incidents) else none
