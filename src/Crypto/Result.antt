-- ===== src/Crypto/Result.antt =====
-- `VerificationResult` of backend/app/services/crypto/types.py, and `_summarize` of
-- backend/app/services/crypto/engine.py.
use egreen_quanta_tes.Base.{
  ℕ, ◌==◌, String, Bool, true, false, ◌&&◌, Option, none, some, List, [], ◌∷◌, ◌++◌, keep, length,
  if◌then◌else◌,
}
use egreen_quanta_tes.Crypto.Types.{
  Verdict, valid, invalid, indeterminate, CertInfo, ChainResult, ChainStatus, trusted, untrusted,
  incomplete, error, RevocationResult, RevocationStatus, good, revoked, unknown, not_checked,
  failed, CryptoFinding, Severity, critical, high, medium, low, info, text,
}
use egreen_quanta_tes.Crypto.WeakAlgo.{SignatureParams}

pub data Envelope : Type 0 where
  raw pdf cms jws image : Envelope

pub record VerificationResult : Type 0 where
  pub verdict : Verdict
  pub envelope : Envelope
  pub signature : Option SignatureParams
  pub signer : Option CertInfo
  pub chain : Option ChainResult
  pub revocation : Option RevocationResult
  pub signing_time : Option ℕ
  pub tsa_present : Bool
  pub tsa_trusted : Bool
  pub findings : List CryptoFinding
  pub payload_sha256 : Option String
  pub summary : String
  pub trusted_record_status : String
  pub cryptographic_verification : String
  pub overall_result : String

abbrev verdict_value : Verdict → String
verdict_value valid = "valid"
verdict_value invalid = "invalid"
verdict_value indeterminate = "indeterminate"

abbrev chain_value : ChainStatus → String
chain_value trusted = "trusted"
chain_value untrusted = "untrusted"
chain_value incomplete = "incomplete"
chain_value error = "error"

abbrev revocation_value : RevocationStatus → String
revocation_value good = "good"
revocation_value revoked = "revoked"
revocation_value unknown = "unknown"
revocation_value not_checked = "not_checked"
revocation_value failed = "error"

abbrev is_critical : Severity → Bool
is_critical critical = true
is_critical high = false
is_critical medium = false
is_critical low = false
is_critical info = false

abbrev is_high : Severity → Bool
is_high critical = false
is_high high = true
is_high medium = false
is_high low = false
is_high info = false

-- `", ".join(bits)`
abbrev pub join : String → List String → List String
join by [] = []
join by (s ∷ []) = s ∷ []
join by (s ∷ t ∷ rest) = s ∷ by ∷ join by (t ∷ rest)

abbrev signature_bit : Option SignatureParams → List String
signature_bit none = []
signature_bit (some p) = p.algorithm ∷ []

abbrev chain_bit : Option ChainResult → List String
chain_bit none = []
chain_bit (some c) = text ("chain=" ∷ chain_value c.status ∷ []) ∷ []

abbrev revocation_bit : Option RevocationResult → List String
revocation_bit none = []
revocation_bit (some r) = text ("revocation=" ∷ revocation_value r.status ∷ []) ∷ []

abbrev count_bit : (ℕ → String) → ℕ → ℕ → List String
count_bit decimal criticals highs =
    if criticals == 0 && highs == 0
    then []
    else text (decimal criticals ∷ " critical / " ∷ decimal highs ∷ " high findings" ∷ []) ∷ []

-- `_summarize`
unfoldable pub summarize :
    (ℕ → String)
    → Verdict
    → Option SignatureParams
    → Option ChainResult
    → Option RevocationResult
    → List CryptoFinding
    → String
summarize decimal verdict signature chain revocation findings = text (
    join ", " (
      (text ("verdict=" ∷ verdict_value verdict ∷ []) ∷ signature_bit signature)
      ++ chain_bit chain
      ++ revocation_bit revocation
      ++ count_bit decimal (length (keep (λ f. is_critical f.severity) findings))
          (length (keep (λ f. is_high f.severity) findings))))

-- The defaults of the last three fields.
abbrev pub result_of :
    Verdict
    → Envelope
    → Option SignatureParams
    → Option CertInfo
    → Option ChainResult
    → Option RevocationResult
    → Option ℕ
    → Bool
    → List CryptoFinding
    → Option String
    → String
    → VerificationResult
result_of verdict envelope signature signer chain revocation time tsa findings digest summary =
    record {
      verdict = verdict;
      envelope = envelope;
      signature = signature;
      signer = signer;
      chain = chain;
      revocation = revocation;
      signing_time = time;
      tsa_present = tsa;
      tsa_trusted = false;
      findings = findings;
      payload_sha256 = digest;
      summary = summary;
      trusted_record_status = "NOT_CHECKED";
      cryptographic_verification = "NOT_AVAILABLE";
      overall_result = "INDETERMINATE";
    }
