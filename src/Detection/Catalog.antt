-- ===== src/Detection/Catalog.antt =====
-- backend/app/services/detection/catalog.py, and the weights of the severities in
-- backend/app/models/enums.py. A weight is given in hundredths.
use egreen_quanta_tes.Base.{ℕ, String, Option, none, some, List, [], ◌∷◌, find, str_eq}
use egreen_quanta_tes.Crypto.Types.{Severity, critical, high, medium, low, info}

pub record RuleSpec : Type 0 where
  pub code : String
  pub name : String
  pub description : String
  pub category : String
  pub default_severity : Severity
  pub default_weight : ℕ

abbrev rule : String → String → String → String → Severity → ℕ → RuleSpec
rule code name description category severity weight = record {
  code = code;
  name = name;
  description = description;
  category = category;
  default_severity = severity;
  default_weight = weight;
}

-- `_SEVERITY_WEIGHT`
abbrev pub severity_weight : Severity → ℕ
severity_weight info = 200
severity_weight low = 800
severity_weight medium = 2000
severity_weight high = 4500
severity_weight critical = 9000

-- `RULE_CATALOG`
abbrev pub rule_catalog : List RuleSpec
rule_catalog =
    rule "T01" "Invalid / forged signature" "Cryptographic verification failed." "forgery" critical
      150
    ∷ rule "T02" "Weak digest algorithm" "MD5 / SHA-1 in a signature or certificate." "weak_crypto"
        high 100
    ∷ rule "T03" "Weak key or parameters"
        "RSA < 2048, DSA, small ECC curve, or dangerous RSA exponent." "weak_crypto" high 100
    ∷ rule "T04" "RSA padding downgrade" "PKCS#1 v1.5 where policy requires RSA-PSS." "policy"
        medium 100
    ∷ rule "T05" "ECDSA malleability" "Signature not in canonical low-S / DER form." "forgery" low
        50
    ∷ rule "T06" "Broken certificate chain"
        "Missing issuer, non-CA issuer, or path-length exceeded." "chain" high 100
    ∷ rule "T07" "Untrusted trust anchor" "Chain terminates outside the configured trust store."
        "chain" high 100
    ∷ rule "T08" "Certificate outside validity window"
        "Signing time is before notBefore or after notAfter." "validity" high 100
    ∷ rule "T09" "Revoked certificate" "CRL or OCSP reports the certificate as revoked."
        "revocation" critical 150
    ∷ rule "T10" "Self-signed in production context" "Leaf equals issuer where policy forbids it."
        "policy" medium 100
    ∷ rule "T11" "Public key reused across identities"
        "One SPKI observed under multiple distinct subjects." "policy" high 100
    ∷ rule "T12" "Unexpected issuing CA" "Issuer not on the allow-list for that subject." "policy"
        high 100
    ∷ rule "T13" "Missing trusted timestamp" "No RFC 3161 timestamp token / untrusted TSA."
        "timestamp" low 50
    ∷ rule "T14" "Signature replay"
        "Payload digest + signature seen before, or signature reused on a new payload." "forgery"
        high 120
    ∷ rule "T15" "Verification-failure burst"
        "Many invalid signatures from one source in a short window." "forgery" medium 100
    ∷ rule "T16" "Key-usage / EKU mismatch" "Certificate used for a purpose its extensions forbid."
        "policy" high 100
    ∷ rule "T17" "Trust-store tampering" "A trust anchor was added, disabled, or removed." "policy"
        medium 100
    ∷ rule "T18" "Quantum exposure" "Shor-breakable algorithm protecting long-lived data." "quantum"
        medium 80
    ∷ rule "T19" "Anomalous event (ML)"
        "The active anomaly model scored this event above threshold." "forgery" medium 60
    ∷ []

-- `CATALOG_BY_CODE.get(code)`
unfoldable pub catalog_by_code : String → Option RuleSpec
catalog_by_code code = find (λ r. str_eq r.code code) rule_catalog

abbrev weight_or_one : Option RuleSpec → ℕ
weight_or_one none = 100
weight_or_one (some r) = r.default_weight

-- The weight of a code that no row of the table configures.
unfoldable pub default_weight : String → ℕ
default_weight code = weight_or_one (catalog_by_code code)
