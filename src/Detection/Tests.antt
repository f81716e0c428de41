-- ===== src/Detection/Tests.antt =====
-- Numbers in hundredths, and the theorems about the detection at them.
use egreen_quanta_tes.Base.{
  ℕ, ◌+◌, ◌-◌, ◌*◌, ◌/◌, ◌≤◌, String, ◌≡◌, ◌≢◌, refl, ◌↔◌, true, false, none, some, [], ◌∷◌, ◌++◌,
  any, leb, arith, le→leb, leb→le,
}
use native.Mathlib.Nat.{mul-le-mul_left, mul-le-mul_right, div-le_of_le-mul}
use egreen_quanta_tes.Crypto.Types.{CryptoFinding, critical, high, forgery, invalid}
use egreen_quanta_tes.Crypto.Result.{VerificationResult, Envelope}
use egreen_quanta_tes.Detection.Number.{Numbers, Laws}
use egreen_quanta_tes.Detection.Models.{EventSource, VerificationEvent, Alert, RuleConfig}
use egreen_quanta_tes.Detection.History.{HistoryContext, has_signature, replay}
use egreen_quanta_tes.Detection.History.Laws.{replay_iff}
use egreen_quanta_tes.Detection.Correlate.Counts.{AreCounted}
use egreen_quanta_tes.Detection.Engine.{Db, Call, new_event, run_detection}
use egreen_quanta_tes.Detection.Engine.Alerts.{run_detection-critical}
use egreen_quanta_tes.Detection.Triage.Steps.{empty, step, detected, Reach-AreCounted}
use egreen_quanta_tes.Detection.Score.{risk_score}
use egreen_quanta_tes.Detection.Score.Bounds.{risk_score-bounds}

-- A product never above its first factor, as the laws ask of it on numbers up to one.
abbrev scaled : ℕ → ℕ → ℕ
scaled a b = a * b / 100

abbrev hundredths : Numbers
hundredths = record {
  Float = ℕ;
  lit = λ k. k;
  add = λ a b. a + b;
  sub = λ a b. a - b;
  mul = scaled;
  div = λ a b. a / 100;
  round = λ a k. a;
  le = leb;
}

div_mono : (x y : ℕ) → x ≤ y → x / 100 ≤ y / 100
div_mono x y h = omega arith

at_most : (a b : ℕ) → b ≤ 100 → a * b ≤ 100 * a
at_most a b h = let k : a * b ≤ a * 100 = mul-le-mul_left a h in omega (arith, k)

hundredths-Laws : Laws hundredths
hundredths-Laws = record {
  le_refl = λ a. le→leb a a (omega arith);
  le_trans = λ a b c h k. ground arith;
  le_total = λ a b h. ground arith;
  le_lit = λ j k h. le→leb j k h;
  add_nonneg = λ a b h k. le→leb 0 _ (omega arith);
  mul_nonneg = λ a b h k. le→leb 0 _ (omega arith);
  mul_mono = λ a b c h k. le→leb _ _ (div_mono _ _ (mul-le-mul_right c (leb→le a b k)));
  mul_le = λ a b h k. le→leb _ _ (div-le_of_le-mul 100 (at_most a b (leb→le b 100 k)));
  percent_le = λ a h. le→leb _ _ (omega (arith, leb→le a 100 h));
  sub_nonneg = λ a h. le→leb 0 _ (omega arith);
  sub_le = λ a h. le→leb _ _ (omega arith);
  sub_anti = λ a b h. le→leb _ _ (omega (arith, leb→le a b h));
  div_nonneg = λ a h. le→leb 0 _ (omega arith);
  round_mono = λ a b h. h;
  round_null = refl;
  round_hundred = refl;
}

abbrev forged : CryptoFinding
forged = record {
  code = "T01";
  title = "Signature does not verify";
  severity = critical;
  category = forgery;
  detail = "";
}

abbrev replayed : CryptoFinding
replayed = record {
  code = "T14";
  title = "Signature replay";
  severity = high;
  category = forgery;
  detail = "";
}

abbrev none_given : (a : ℕ) → none ≡ some a → leb 0 a ≡ true
none_given a e = le→leb 0 a (omega arith)

risk_score-bounds_example :
    (leb 0 (risk_score hundredths (forged ∷ []) (("T01", 150) ∷ []) [] none 0) ≡ true)
    × (leb (risk_score hundredths (forged ∷ []) (("T01", 150) ∷ []) [] none 0) 10000 ≡ true)
risk_score-bounds_example =
    risk_score-bounds hundredths hundredths-Laws (("T01", 150) ∷ []) (refl, tt) [] (forged ∷ [])
      none 0 none_given refl

abbrev text_of : ℕ → String
text_of k = "n"

abbrev forged_result : VerificationResult
forged_result = record {
  verdict = invalid;
  envelope = Envelope.raw;
  signature = none;
  signer = none;
  chain = none;
  revocation = none;
  signing_time = none;
  tsa_present = false;
  tsa_trusted = false;
  findings = forged ∷ [];
  payload_sha256 = some "p";
  summary = "";
  trusted_record_status = "NOT_CHECKED";
  cryptographic_verification = "NOT_AVAILABLE";
  overall_result = "INDETERMINATE";
}

abbrev call : Call hundredths
call = record {
  result = forged_result;
  source = EventSource.api;
  source_ref = none;
  submitter_id = none;
  ip_hash = some "ip";
  signature_sha256 = some "s";
  event_id = "e1";
  alert_id = "a1";
  incident_id = "i1";
  now = 1000;
  anomaly = none;
  ml_finding = none;
  anomaly_weight = 0;
}

abbrev blank : Db hundredths
blank = record { rules = []; events = []; findings = []; alerts = []; incidents = [] }

run_detection-critical_example :
    let (outcome, db') = run_detection hundredths text_of text_of call blank in
    (alert : Alert hundredths) × (db'.alerts ≡ [] ++ alert ∷ [])
    × (outcome.alert ≡ some alert)
    × (alert.severity ≡ critical)
    × (alert.event_id ≡ outcome.event.id)
    × (alert.incident_id ≡ outcome.incident)
    × (outcome.incident ≢ none)
run_detection-critical_example = run_detection-critical hundredths text_of text_of call blank refl

Reach-AreCounted_example :
    AreCounted hundredths
      (run_detection hundredths text_of text_of call blank).1.incidents
      (run_detection hundredths text_of text_of call blank).1.alerts
Reach-AreCounted_example =
    Reach-AreCounted hundredths text_of text_of
      (run_detection hundredths text_of text_of call blank).1.incidents
      (run_detection hundredths text_of text_of call blank).1.alerts
      (step [] (run_detection hundredths text_of text_of call blank).1.incidents []
        (run_detection hundredths text_of text_of call blank).1.alerts empty
        (detected call blank refl))

abbrev event : VerificationEvent hundredths
event = new_event hundredths text_of text_of call 0

abbrev context : HistoryContext
context = record {
  verdict = invalid;
  payload_sha256 = some "p";
  signature_sha256 = some "s";
  submitter_ip_hash = some "ip";
  now = 1010;
}

abbrev two : RuleConfig
two = record { window_minutes = none; threshold = some 2 }

replay_iff_example : (any (has_signature hundredths text_of text_of "s") (event ∷ []) ≡ true) ↔ (
    (f : CryptoFinding) × (replay hundredths text_of text_of (event ∷ []) context ≡ f ∷ [])
    × (f.code ≡ "T14"))
replay_iff_example = replay_iff hundredths text_of text_of (event ∷ []) context "s" refl refl
