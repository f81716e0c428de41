-- ===== src/Detection/Models.antt =====
-- The tables of the detection: backend/app/models/verification_event.py, alert.py and
-- detection_rule.py. Times are in seconds; a floating-point column is a number of the record `Numbers`.
use egreen_quanta_tes.Base.{ℕ, String, Bool, Option, List}
use egreen_quanta_tes.Crypto.Types.{
  Verdict, Severity, FindingCategory, ChainStatus, RevocationStatus,
}
use egreen_quanta_tes.Crypto.Result.{VerificationResult}
use egreen_quanta_tes.Detection.Number.{Numbers}

pub data EventSource : Type 0 where
  api upload ingest connector : EventSource

pub data EnvelopeType : Type 0 where
  raw pdf cms jws certificate : EnvelopeType

pub data AlertStatus : Type 0 where
  opened triaged closed : AlertStatus

pub data IncidentStatus : Type 0 where
  opened investigating contained closed : IncidentStatus

pub record Finding : Type 0 where
  pub event_id : String
  pub rule_code : String
  pub title : String
  pub severity : Severity
  pub category : FindingCategory
  pub detail : String

-- The keys of a rule's configuration that the code reads.
pub record RuleConfig : Type 0 where
  pub window_minutes : Option ℕ
  pub threshold : Option ℕ

-- What an incident records of the event that opened it.
pub record Signals : Type 0 where
  pub signer_spki : Option String
  pub ip_hash : Option String
  pub rule_codes : List String

pub record VerificationEvent (n : Numbers) : Type 0 where
  pub id : String
  pub created_at : ℕ
  pub source : EventSource
  pub source_ref : Option String
  pub envelope_type : EnvelopeType
  pub verdict : Verdict
  pub algo : Option String
  pub hash_alg : Option String
  pub key_type : Option String
  pub key_bits : Option ℕ
  pub curve : Option String
  pub signer_subject : Option String
  pub signer_spki_sha256 : Option String
  pub signing_time : Option ℕ
  pub tsa_present : Bool
  pub chain_status : Option ChainStatus
  pub revocation_status : Option RevocationStatus
  pub risk_score : n.Float
  pub anomaly_score : Option n.Float
  pub submitter_id : Option String
  pub submitter_ip_hash : Option String
  pub payload_sha256 : Option String
  pub signature_sha256 : Option String
  pub summary : String
  pub result_json : VerificationResult

pub record Alert (n : Numbers) : Type 0 where
  pub id : String
  pub created_at : ℕ
  pub event_id : String
  pub incident_id : Option String
  pub title : String
  pub severity : Severity
  pub status : AlertStatus
  pub risk_score : n.Float
  pub rule_codes : List String
  pub assigned_to : Option String
  pub triaged_by : Option String
  pub triaged_at : Option ℕ
  pub notes : String

pub record Incident (n : Numbers) : Type 0 where
  pub id : String
  pub title : String
  pub status : IncidentStatus
  pub severity : Severity
  pub cohesion_score : n.Float
  pub method : String
  pub alert_count : ℕ
  pub first_seen_at : ℕ
  pub last_seen_at : ℕ
  pub signals : Signals

pub record DetectionRule (n : Numbers) : Type 0 where
  pub code : String
  pub name : String
  pub description : String
  pub category : String
  pub default_severity : Severity
  pub enabled : Bool
  pub weight : n.Float
  pub config : RuleConfig
