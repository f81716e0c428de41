-- ===== src/Detection/Correlate.antt =====
-- backend/app/services/detection/correlation.py. The alerts and incidents are lists in the order of
-- their creation, so the latest alerts are the last.
pub mod Counts
use egreen_quanta_tes.Base.{
  ℕ, zero, suc, ◌+◌, ◌-◌, ◌*◌, ◌==◌, String, Bool, true, false, not, ◌&&◌, ◌||◌, Option, none, some,
  List, [], ◌∷◌, ◌++◌, find, keep, any, length, take, ltb, leb, str_eq, if◌then◌else◌,
}
use egreen_quanta_tes.Base.Text.{is_set, is_given, is_in, take_str}
use egreen_quanta_tes.Crypto.Types.{Severity, critical, high, medium, low, info, text}
use egreen_quanta_tes.Detection.Number.{Numbers, null, one, min}
use egreen_quanta_tes.Detection.Models.{VerificationEvent, Alert, Incident, IncidentStatus}
use egreen_quanta_tes.Detection.History.{is_text, same_text}

-- `_severity_rank`
abbrev severity_rank : Severity → ℕ
severity_rank info = 0
severity_rank low = 1
severity_rank medium = 2
severity_rank high = 3
severity_rank critical = 4

abbrev severity_value : Severity → String
severity_value critical = "critical"
severity_value high = "high"
severity_value medium = "medium"
severity_value low = "low"
severity_value info = "info"

-- `_WINDOW`, six hours in seconds.
abbrev window : ℕ
window = 21600

abbrev reverse_onto {ℓ} : {A : Type ℓ} → List A → List A → List A
reverse_onto [] acc = acc
reverse_onto (x ∷ xs) acc = reverse_onto xs (x ∷ acc)

-- The codes of one alert that another one has, and those that it has not.
abbrev shared : List String → List String → ℕ
shared a b = length (keep (λ c. is_in c b) a)

abbrev union_size : List String → List String → ℕ
union_size a b = length a + length (keep (λ c. not (is_in c a)) b)

abbrev at_least_one : ℕ → ℕ
at_least_one zero = 1
at_least_one (suc n) = suc n

abbrev orelse : Option String → Option String → Option String
orelse a b = if is_given a then a else b

abbrev who_of : Option String → String
who_of none = "unknown source"
who_of (some s) = if is_set s then s else "unknown source"

abbrev top_of : List String → String
top_of [] = "detection"
top_of (c ∷ codes) = c

module _ (n : Numbers) where
  abbrev plus_if : Bool → n.Float → n.Float → n.Float
  plus_if b more score = if b then n.add score more else score

  abbrev matches : Option String → Option String → Bool
  matches a b = is_given a && same_text a b

  -- `similarity`; whole numbers as floats are literals in hundredths.
  unfoldable pub similarity :
      VerificationEvent n → VerificationEvent n → List String → List String → n.Float
  similarity a b a_codes b_codes =
      let s1 = plus_if (matches a.signer_spki_sha256 b.signer_spki_sha256) (n.lit 40) (null n) in
      let s2 = plus_if (matches a.submitter_ip_hash b.submitter_ip_hash) (n.lit 30) s1 in
      let s3 = plus_if (matches a.payload_sha256 b.payload_sha256) (n.lit 20) s2 in
      let count = shared a_codes b_codes in
      let s4 =
        plus_if (ltb 0 count)
          (n.div (n.mul (n.lit 20) (n.lit (count * 100)))
            (n.lit (at_least_one (union_size a_codes b_codes) * 100)))
          s3 in
      let gap = (a.created_at - b.created_at) + (b.created_at - a.created_at) in
      min n (one n) (plus_if (ltb gap 900) (n.lit 10) s4)

  abbrev pub event_of : String → List (VerificationEvent n) → Option (VerificationEvent n)
  event_of id events = find (λ e. str_eq e.id id) events

  abbrev is_recent : ℕ → List (VerificationEvent n) → Alert n → Bool
  is_recent now events a = elim (event_of a.event_id events) [
    | none ↦ false
    | some e ↦ leb now (e.created_at + window)
  ]

  -- The alerts that the query returns.
  abbrev pub recent : ℕ → String → List (VerificationEvent n) → List (Alert n) → List (Alert n)
  recent now id events alerts =
      take 200 (reverse_onto (keep (λ a. not (str_eq a.id id) && is_recent now events a) alerts) [])

  -- Whether an incident of that id is there: `other.incident is not None`.
  abbrev pub has_incident : String → Incident n → Bool
  has_incident id i = str_eq i.id id

  abbrev pub linked : Option String → List (Incident n) → Option String
  linked none incidents = none
  linked (some id) incidents = if any (has_incident id) incidents then some id else none

  abbrev pub better :
      n.Float → Option String → Option (n.Float × String) → Option (n.Float × String)
  better sim none best = best
  better sim (some id) none = if n.le (n.lit 34) sim then some (sim, id) else none
  better sim (some id) (some (s, other)) =
      if n.le (n.lit 34) sim && not (n.le sim s) then some (sim, id) else some (s, other)

  abbrev pub similar_to :
      VerificationEvent n → List String → Option (VerificationEvent n) → List String → n.Float
  similar_to event codes none others = null n
  similar_to event codes (some e) others = similarity event e codes others

  abbrev pub best_of :
      VerificationEvent n
      → List String
      → List (VerificationEvent n)
      → List (Incident n)
      → List (Alert n)
      → Option (n.Float × String)
      → Option (n.Float × String)
  best_of event codes events incidents [] best = best
  best_of event codes events incidents (a ∷ alerts) best =
      best_of event codes events incidents alerts (
        better (similar_to event codes (event_of a.event_id events) a.rule_codes)
          (linked a.incident_id incidents) best)

  -- The incident that gets a further alert.
  abbrev pub bumped : ℕ → n.Float → Severity → Incident n → Incident n
  bumped now sim severity i = record {
    id = i.id;
    title = i.title;
    status = i.status;
    severity =
        if ltb (severity_rank i.severity) (severity_rank severity) then severity else i.severity;
    cohesion_score = n.round (n.div (n.add i.cohesion_score sim) (n.lit 200)) 3;
    method = i.method;
    alert_count = suc i.alert_count;
    first_seen_at = i.first_seen_at;
    last_seen_at = now;
    signals = i.signals;
  }

  abbrev pub bump : String → ℕ → n.Float → Severity → List (Incident n) → List (Incident n)
  bump id now sim severity [] = []
  bump id now sim severity (i ∷ rows) =
      let rest = bump id now sim severity rows in
      if has_incident id i then bumped now sim severity i ∷ rest else i ∷ rest

  abbrev pub new_incident : String → ℕ → Alert n → VerificationEvent n → Incident n
  new_incident id now alert event = record {
    id = id;
    title = text (
        "["
        ∷ severity_value alert.severity
        ∷ "] "
        ∷ top_of alert.rule_codes
        ∷ " activity involving "
        ∷ take_str 60 (who_of (orelse event.signer_subject event.submitter_ip_hash))
        ∷ []);
    status = IncidentStatus.opened;
    severity = alert.severity;
    cohesion_score = one n;
    method = "greedy";
    alert_count = 1;
    first_seen_at = now;
    last_seen_at = now;
    signals = record {
      signer_spki = event.signer_spki_sha256;
      ip_hash = event.submitter_ip_hash;
      rule_codes = alert.rule_codes;
    };
  }

  abbrev pub place :
      Option (n.Float × String)
      → String
      → ℕ
      → Alert n
      → VerificationEvent n
      → List (Incident n)
      → String × List (Incident n)
  place none new now alert event incidents =
      (new, incidents ++ new_incident new now alert event ∷ [])
  place (some (sim, id)) new now alert event incidents =
      (id, bump id now sim alert.severity incidents)

  -- `correlate`: the id of the incident, which the alert is linked to, and the incidents. The id of a
  -- new incident is drawn by the caller.
  unfoldable pub correlate :
      String
      → ℕ
      → Alert n
      → VerificationEvent n
      → List (VerificationEvent n)
      → List (Alert n)
      → List (Incident n)
      → String × List (Incident n)
  correlate new now alert event events alerts incidents =
      place
        (best_of event alert.rule_codes events incidents (recent now alert.id events alerts) none)
        new now alert event incidents
