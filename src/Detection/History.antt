-- ===== src/Detection/History.antt =====
-- backend/app/services/detection/history_rules.py. `date` and `decimal` write a time and a number.
pub mod Laws
use egreen_quanta_tes.Base.{
  ℕ, suc, ◌+◌, ◌*◌, String, Bool, true, false, not, ◌&&◌, Option, none, some, List, [], ◌∷◌, ◌++◌,
  keep, length, leb, ltb, str_eq, if◌then◌else◌,
}
use egreen_quanta_tes.Base.Text.{is_set, is_given}
use egreen_quanta_tes.Crypto.Types.{
  CryptoFinding, Verdict, valid, invalid, indeterminate, critical, high, medium, forgery, text,
}
use egreen_quanta_tes.Detection.Number.{Numbers}
use egreen_quanta_tes.Detection.Models.{VerificationEvent, RuleConfig}

-- `HistoryContext`
pub record HistoryContext : Type 0 where
  pub verdict : Verdict
  pub payload_sha256 : Option String
  pub signature_sha256 : Option String
  pub submitter_ip_hash : Option String
  pub now : ℕ

-- A column that may be NULL against a value, and two values that may be None.
abbrev pub is_text : Option String → String → Bool
is_text none s = false
is_text (some t) s = str_eq t s

abbrev pub same_text : Option String → Option String → Bool
same_text none none = true
same_text none (some t) = false
same_text (some s) none = false
same_text (some s) (some t) = str_eq s t

abbrev pub is_invalid : Verdict → Bool
is_invalid valid = false
is_invalid invalid = true
is_invalid indeterminate = false

abbrev or_default : Option ℕ → ℕ → ℕ
or_default none d = d
or_default (some v) d = v

module _ (n : Numbers) (date decimal : ℕ → String) where
  -- `order_by(created_at.desc()).limit(1)`: the latest, the first inserted of those at one time.
  abbrev later : VerificationEvent n → Option (VerificationEvent n) → VerificationEvent n
  later e none = e
  later e (some f) = if ltb e.created_at f.created_at then f else e

  abbrev pub latest : List (VerificationEvent n) → Option (VerificationEvent n)
  latest [] = none
  latest (e ∷ events) = some (later e (latest events))

  -- `_replay`
  abbrev pub replay_finding : VerificationEvent n → Option String → CryptoFinding
  replay_finding prior payload =
      if same_text prior.payload_sha256 payload
      then record {
        code = "T14";
        title = "Signature replay";
        severity = high;
        category = forgery;
        detail = text (
            "Identical payload + signature already verified at "
            ∷ date prior.created_at
            ∷ " (event "
            ∷ prior.id
            ∷ ")."
            ∷ []);
      }
      else record {
        code = "T14";
        title = "Signature reused on a different payload";
        severity = critical;
        category = forgery;
        detail = text (
            "The same signature was previously bound to a different payload (event " ∷ prior.id
            ∷ ")." ∷ []);
      }

  abbrev pub replay_of : Option (VerificationEvent n) → Option String → List CryptoFinding
  replay_of none payload = []
  replay_of (some prior) payload = replay_finding prior payload ∷ []

  abbrev pub has_signature : String → VerificationEvent n → Bool
  has_signature s e = is_text e.signature_sha256 s

  abbrev pub replay_with :
      List (VerificationEvent n) → Option String → Option String → List CryptoFinding
  replay_with events none payload = []
  replay_with events (some s) payload =
      if is_set s then replay_of (latest (keep (has_signature s) events)) payload else []

  unfoldable pub replay : List (VerificationEvent n) → HistoryContext → List CryptoFinding
  replay events ctx = replay_with events ctx.signature_sha256 ctx.payload_sha256

  -- `_failure_burst`
  abbrev pub is_failure : String → ℕ → ℕ → VerificationEvent n → Bool
  is_failure ip now window e =
      is_text e.submitter_ip_hash ip && is_invalid e.verdict && leb now (e.created_at + window * 60)

  abbrev pub burst_finding : ℕ → ℕ → ℕ → CryptoFinding
  burst_finding count window threshold = record {
    code = "T15";
    title = "Verification-failure burst";
    severity = medium;
    category = forgery;
    detail = text (
        decimal count
        ∷ " invalid verifications from this source in the last "
        ∷ decimal window
        ∷ " minutes (threshold "
        ∷ decimal threshold
        ∷ ")."
        ∷ []);
  }

  abbrev pub window_of : RuleConfig → ℕ
  window_of config = or_default config.window_minutes 10

  abbrev pub threshold_of : RuleConfig → ℕ
  threshold_of config = or_default config.threshold 5

  abbrev pub count_failures : List (VerificationEvent n) → String → ℕ → ℕ → ℕ
  count_failures events ip now window = suc (length (keep (is_failure ip now window) events))

  abbrev pub burst_with :
      List (VerificationEvent n) → Option String → Verdict → ℕ → RuleConfig → List CryptoFinding
  burst_with events none verdict now config = []
  burst_with events (some ip) verdict now config =
      let count = count_failures events ip now (window_of config) in
      if is_invalid verdict && is_set ip && leb (threshold_of config) count
      then burst_finding count (window_of config) (threshold_of config) ∷ []
      else []

  unfoldable pub failure_burst :
      List (VerificationEvent n) → HistoryContext → RuleConfig → List CryptoFinding
  failure_burst events ctx config =
      burst_with events ctx.submitter_ip_hash ctx.verdict ctx.now config

  unfoldable pub evaluate_history_rules :
      List (VerificationEvent n) → HistoryContext → RuleConfig → List CryptoFinding
  evaluate_history_rules events ctx config = replay events ctx ++ failure_burst events ctx config
