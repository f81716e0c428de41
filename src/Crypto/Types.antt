-- ===== src/Crypto/Types.antt =====
-- The value objects of backend/app/services/crypto/types.py, and what the code reads from a
-- certificate through the `cryptography` package. Dates are numbers, counted in any unit.
use Prim.Native.String.{◌++◌ as append_str}
use egreen_quanta_tes.Base.{ℕ, String, Bool, Option, List, [], ◌∷◌, if◌then◌else◌}

pub data Verdict : Type 0 where
  valid invalid indeterminate : Verdict

pub data Severity : Type 0 where
  critical high medium low info : Severity

pub data FindingCategory : Type 0 where
  forgery weak_crypto chain revocation validity policy timestamp quantum : FindingCategory

-- `CryptoFinding`
pub record CryptoFinding : Type 0 where
  pub code : String
  pub title : String
  pub severity : Severity
  pub category : FindingCategory
  pub detail : String

-- `KeyParams`
pub record KeyParams : Type 0 where
  pub key_type : String
  pub key_bits : Option ℕ
  pub curve : Option String
  pub rsa_exponent : Option ℕ

-- `CertInfo`
pub record CertInfo : Type 0 where
  pub subject : String
  pub issuer : String
  pub serial_hex : String
  pub not_before : ℕ
  pub not_after : ℕ
  pub spki_sha256 : String
  pub sig_algo : String
  pub key : KeyParams
  pub is_ca : Bool
  pub self_signed : Bool
  pub key_usage : List String
  pub ext_key_usage : List String
  pub san : List String
  pub pem : String

-- The status of a `ChainResult`.
pub data ChainStatus : Type 0 where
  trusted untrusted incomplete error : ChainStatus

pub record ChainResult : Type 0 where
  pub status : ChainStatus
  pub certs : List CertInfo
  pub trust_anchor_spki : Option String
  pub failure : Option String

-- The status of a `RevocationResult`.
pub data RevocationStatus : Type 0 where
  good revoked unknown not_checked failed : RevocationStatus

pub record RevocationResult : Type 0 where
  pub status : RevocationStatus
  pub method : Option String
  pub detail : String
  pub revoked_at : Option ℕ

-- A certificate is opaque; these are the readings of the `cryptography` package that the code uses.
pub record X509 : Type 1 where
  pub Cert : Type 0
  pub Name : Type 0
  pub same_name : Name → Name → Bool
  pub rfc4514_string : Name → String
  pub subject : Cert → Name
  pub issuer : Cert → Name
  pub public_bytes : Cert → String
  pub der_bytes : Cert → String
  pub sha256_hex : String → String
  -- `verify_directly_issued_by` returns.
  pub is_directly_issued_by : Cert → Cert → Bool
  -- BasicConstraints, with `ca` and `path_length`.
  pub basic_constraints : Cert → Option (Bool × Option ℕ)
  -- KeyUsage's `key_cert_sign`.
  pub key_cert_sign : Cert → Option Bool
  pub not_valid_before : Cert → ℕ
  pub not_valid_after : Cert → ℕ
  pub date : ℕ → String
  pub decimal : ℕ → String
  pub serial_hex : Cert → String
  pub sig_algo : Cert → String
  pub key_params : Cert → KeyParams
  pub key_usage : Cert → List String
  pub ext_key_usage : Cert → List String
  pub san : Cert → List String
  pub pem : Cert → String

-- An f-string.
abbrev pub text : List String → String
text [] = ""
text (s ∷ ss) = append_str s (text ss)

-- A finding under a condition.
abbrev pub when : Bool → CryptoFinding → List CryptoFinding
when b f = if b then f ∷ [] else []
