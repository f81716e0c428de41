-- ===== src/Detection/Engine.antt =====
-- backend/app/services/detection/engine.py. The session is the record `Db`; ids, times and the answer
-- of the anomaly model are given by the caller.
pub mod Rules
pub mod Alerts
use Prim.Native.String.{◌++◌ as append_str}
use egreen_quanta_tes.Base.{
  ℕ, zero, suc, ◌+◌, ◌*◌, ◌/◌, String, Bool, true, false, not, ◌&&◌, ◌||◌, Option, none, some, List,
  [], ◌∷◌, ◌++◌, map, any, keep, leb, ltb, str_eq, if◌then◌else◌,
}
use egreen_quanta_tes.Base.Text.{is_in, is_set, take_str}
use egreen_quanta_tes.Crypto.Types.{
  CryptoFinding, CertInfo, ChainResult, RevocationResult, KeyParams, critical, text,
}
use egreen_quanta_tes.Crypto.WeakAlgo.{SignatureParams}
use egreen_quanta_tes.Crypto.Result.{VerificationResult, Envelope}
use egreen_quanta_tes.Detection.Number.{Numbers, null}
use egreen_quanta_tes.Detection.Catalog.{RuleSpec, rule_catalog, catalog_by_code, severity_weight}
use egreen_quanta_tes.Detection.Score.{risk_score, alert_severity, same_severity}
use egreen_quanta_tes.Detection.Models.{
  EventSource, EnvelopeType, AlertStatus, Finding, RuleConfig, VerificationEvent, Alert, Incident,
  DetectionRule,
}
use egreen_quanta_tes.Detection.History.{HistoryContext, evaluate_history_rules}
use egreen_quanta_tes.Detection.Correlate.{correlate}

pub record Db (n : Numbers) : Type 0 where
  pub rules : List (DetectionRule n)
  pub events : List (VerificationEvent n)
  pub findings : List Finding
  pub alerts : List (Alert n)
  pub incidents : List (Incident n)

-- The arguments of `run_detection`, the ids that are drawn, and the time.
pub record Call (n : Numbers) : Type 0 where
  pub result : VerificationResult
  pub source : EventSource
  pub source_ref : Option String
  pub submitter_id : Option String
  pub ip_hash : Option String
  pub signature_sha256 : Option String
  pub event_id : String
  pub alert_id : String
  pub incident_id : String
  pub now : ℕ
  -- The score and the finding of the anomaly model, none where it is switched off.
  pub anomaly : Option n.Float
  pub ml_finding : Option CryptoFinding
  pub anomaly_weight : n.Float

-- `DetectionOutcome`; the alert is also what is sent to the subscribers.
pub record DetectionOutcome (n : Numbers) : Type 0 where
  pub event : VerificationEvent n
  pub rows : List Finding
  pub alert : Option (Alert n)
  pub incident : Option String

abbrev or_config : Option ℕ → Option ℕ → Option ℕ
or_config none b = b
or_config (some a) b = some a

abbrev no_config : RuleConfig
no_config = record { window_minutes = none; threshold = none }

-- `EnvelopeType(result.envelope)`, RAW for another text.
abbrev envelope_type : Envelope → EnvelopeType
envelope_type Envelope.raw = EnvelopeType.raw
envelope_type Envelope.pdf = EnvelopeType.pdf
envelope_type Envelope.cms = EnvelopeType.cms
envelope_type Envelope.jws = EnvelopeType.jws
envelope_type Envelope.image = EnvelopeType.raw

abbrev opt {ℓ κ} : {A : Type ℓ} {B : Type κ} → Option A → (A → Option B) → Option B
opt none f = none
opt (some a) f = f a

-- `_code_priority`
abbrev priority_of : Option RuleSpec → ℕ
priority_of none = 0
priority_of (some r) = severity_weight r.default_severity * r.default_weight / 10000

-- The distinct codes by falling priority; of one priority, in the order of the findings.
abbrev insert_code : String → List String → List String
insert_code c [] = c ∷ []
insert_code c (d ∷ codes) =
    let rest = insert_code c codes in
    if str_eq c d
    then d ∷ codes
    else if leb (priority_of (catalog_by_code c)) (priority_of (catalog_by_code d))
    then d ∷ rest
    else c ∷ d ∷ codes

abbrev add_code : String → List String → List String
add_code c codes = if is_in c codes then codes else insert_code c codes

abbrev codes_onto : List CryptoFinding → List String → List String
codes_onto [] codes = codes
codes_onto (f ∷ fs) codes = codes_onto fs (add_code f.code codes)

unfoldable pub codes_of : List CryptoFinding → List String
codes_of findings = codes_onto findings []

-- `_alert_title`
abbrev lead_of : Option RuleSpec → String
lead_of none = "Detection"
lead_of (some r) = r.name

abbrev lead : List String → String
lead [] = "Detection"
lead (c ∷ codes) = lead_of (catalog_by_code c)

abbrev who : Option CertInfo → String
who none = ""
who (some s) = if is_set s.subject then append_str " · " (take_str 50 s.subject) else ""

-- `DEFAULT_ALERT_THRESHOLD`
abbrev alert_threshold : ℕ
alert_threshold = 4000

abbrev pub is_critical : CryptoFinding → Bool
is_critical f = same_severity f.severity critical

abbrev is_empty {ℓ} : {A : Type ℓ} → List A → Bool
is_empty [] = true
is_empty (x ∷ xs) = false

abbrev ml_onto : Option CryptoFinding → List CryptoFinding
ml_onto none = []
ml_onto (some f) = f ∷ []

abbrev finding_row : String → CryptoFinding → Finding
finding_row event f = record {
  event_id = event;
  rule_code = f.code;
  title = f.title;
  severity = f.severity;
  category = f.category;
  detail = f.detail;
}

module _ (n : Numbers) (date decimal : ℕ → String) where
  -- `_rule_config`
  abbrev pub weights : List (DetectionRule n) → List (String × n.Float)
  weights [] = []
  weights (r ∷ rules) = (r.code, r.weight) ∷ weights rules

  abbrev pub disabled : List (DetectionRule n) → List String
  disabled [] = []
  disabled (r ∷ rules) = let rest = disabled rules in if r.enabled then rest else r.code ∷ rest

  abbrev config_of : String → List (DetectionRule n) → RuleConfig
  config_of code [] = no_config
  config_of code (r ∷ rules) =
      let rest = config_of code rules in if str_eq r.code code then r.config else rest

  -- `{**configs.get("T15", {}), **configs.get("T14", {})}`
  abbrev merged : List (DetectionRule n) → RuleConfig
  merged rules =
      let a = config_of "T14" rules in
      let b = config_of "T15" rules in
      record {
        window_minutes = or_config a.window_minutes b.window_minutes;
        threshold = or_config a.threshold b.threshold;
      }

  abbrev context : Call n → HistoryContext
  context c = record {
    verdict = c.result.verdict;
    payload_sha256 = c.result.payload_sha256;
    signature_sha256 = c.signature_sha256;
    submitter_ip_hash = c.ip_hash;
    now = c.now;
  }

  -- `history_findings`, with that of the anomaly model, and `all_findings`.
  abbrev pub further_findings : Call n → Db n → List CryptoFinding
  further_findings c db =
      evaluate_history_rules n date decimal db.events (context c) (merged db.rules)
      ++ ml_onto c.ml_finding

  unfoldable pub all_findings : Call n → Db n → List CryptoFinding
  all_findings c db =
      keep (λ f. not (is_in f.code (disabled db.rules)))
        (c.result.findings ++ further_findings c db)

  abbrev weight_if : Option n.Float → n.Float → n.Float
  weight_if none weight = null n
  weight_if (some a) weight = weight

  unfoldable pub score_of : Call n → Db n → n.Float
  score_of c db =
      risk_score n (all_findings c db) (weights db.rules) (disabled db.rules) c.anomaly
        (weight_if c.anomaly c.anomaly_weight)

  abbrev pub new_event : Call n → n.Float → VerificationEvent n
  new_event c score = record {
    id = c.event_id;
    created_at = c.now;
    source = c.source;
    source_ref = c.source_ref;
    envelope_type = envelope_type c.result.envelope;
    verdict = c.result.verdict;
    algo = opt c.result.signature (λ s. some s.algorithm);
    hash_alg = opt c.result.signature (λ s. s.hash_alg);
    key_type = opt c.result.signature (λ s. opt s.key (λ k. some k.key_type));
    key_bits = opt c.result.signature (λ s. opt s.key (λ k. k.key_bits));
    curve = opt c.result.signature (λ s. opt s.key (λ k. k.curve));
    signer_subject = opt c.result.signer (λ s. some s.subject);
    signer_spki_sha256 = opt c.result.signer (λ s. some s.spki_sha256);
    signing_time = c.result.signing_time;
    tsa_present = c.result.tsa_present;
    chain_status = opt c.result.chain (λ r. some r.status);
    revocation_status = opt c.result.revocation (λ r. some r.status);
    risk_score = score;
    anomaly_score = c.anomaly;
    submitter_id = c.submitter_id;
    submitter_ip_hash = c.ip_hash;
    payload_sha256 = c.result.payload_sha256;
    signature_sha256 = c.signature_sha256;
    summary = c.result.summary;
    result_json = c.result;
  }

  abbrev pub new_alert : Call n → List CryptoFinding → n.Float → Option String → Alert n
  new_alert c findings score incident = record {
    id = c.alert_id;
    created_at = c.now;
    event_id = c.event_id;
    incident_id = incident;
    title = append_str (lead (codes_of findings)) (who c.result.signer);
    severity = alert_severity findings;
    status = AlertStatus.opened;
    risk_score = score;
    rule_codes = codes_of findings;
    assigned_to = none;
    triaged_by = none;
    triaged_at = none;
    notes = "";
  }

  unfoldable pub opens_alert : List CryptoFinding → n.Float → Bool
  opens_alert findings score =
      not (is_empty findings) && (n.le (n.lit alert_threshold) score || any is_critical findings)

  -- The first commit: the event with its findings.
  abbrev pub recorded : Call n → Db n → Db n
  recorded c db = record {
    rules = db.rules;
    events = db.events ++ new_event c (score_of c db) ∷ [];
    findings = db.findings ++ map (finding_row c.event_id) (all_findings c db);
    alerts = db.alerts;
    incidents = db.incidents;
  }

  -- The alert, linked to the incident that `correlate` returns.
  abbrev pub alerted :
      Bool → Call n → List CryptoFinding → n.Float → Db n → DetectionOutcome n × Db n
  alerted false c findings score db = (
    record {
      event = new_event c score;
      rows = map (finding_row c.event_id) findings;
      alert = none;
      incident = none;
    },
    db,
  )
  alerted true c findings score db =
      let placed =
        correlate n c.incident_id c.now (new_alert c findings score none) (new_event c score)
          db.events db.alerts db.incidents in
      let alert = new_alert c findings score (some placed.0) in
      (
        record {
          event = new_event c score;
          rows = map (finding_row c.event_id) findings;
          alert = some alert;
          incident = some placed.0;
        },
        record {
          rules = db.rules;
          events = db.events;
          findings = db.findings;
          alerts = db.alerts ++ alert ∷ [];
          incidents = placed.1;
        },
      )

  -- `run_detection`
  unfoldable pub run_detection : Call n → Db n → DetectionOutcome n × Db n
  run_detection c db =
      let findings = all_findings c db in
      let score = score_of c db in
      alerted (opens_alert findings score) c findings score (recorded c db)
