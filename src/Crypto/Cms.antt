-- ===== src/Crypto/Cms.antt =====
-- backend/app/services/crypto/cms_pkcs7.py: the check of a CMS SignedData. What asn1crypto reads from
-- the bytes is the record `SignedData`; the digests and the checks under a certificate's key are the
-- record `CmsTools`.
pub mod Verified
pub mod Tests
use Prim.Native.String.{◌++◌ as append_str}
use egreen_quanta_tes.Base.{
  ℕ, ◌==◌, String, Bool, true, false, not, ◌&&◌, ◌||◌, Option, none, some, List, [], ◌∷◌, ◌++◌, ◌⊎◌,
  inl, inr, any, keep, find, map, str_eq, if◌then◌else◌,
}
use egreen_quanta_tes.Base.Text.{is_in}
use egreen_quanta_tes.Base.Bytes.{Bytes, same_bytes}
use egreen_quanta_tes.Crypto.Types.{X509, text}
use egreen_quanta_tes.Crypto.Errors.{CryptoError, material_parse_error, and_then}
use egreen_quanta_tes.Crypto.WeakAlgo.{occurs, replace}
use egreen_quanta_tes.Crypto.Raw.{
  KeyKind, rsa, ecdsa, ed25519, ed448, other_key, Padding, pss, pkcs1v15, cryptography_hash,
}

pub data SignerId : Type 0 where
  issuer_and_serial_number : ℕ → SignerId
  subject_key_identifier : Bytes → SignerId

pub data SignedAttr : Type 0 where
  message_digest : Bytes → SignedAttr
  signing_time : ℕ → SignedAttr
  other_attr : SignedAttr

-- The first SignerInfo: the dump of the signed attributes is what their signature is over, and the
-- unsigned ones are given by their object identifiers.
pub record SignerInfo : Type 0 where
  pub sid : SignerId
  pub digest_algorithm : String
  pub signature_algorithm : String
  pub signed_attrs : List SignedAttr
  pub signed_attrs_dump : Bytes
  pub unsigned_attrs : List String
  pub signature : Bytes

pub record SignedData (x : X509) : Type 0 where
  pub certificates : List x.Cert
  pub encap_content : Option Bytes
  pub signer_infos : List SignerInfo

-- `same` is Python's `is`. `load` gives the content type and the SignedData of a ContentInfo, or the
-- text of the ValueError.
pub record CmsTools (x : X509) : Type 0 where
  pub same : x.Cert → x.Cert → Bool
  pub serial_number : x.Cert → ℕ
  pub key_identifier : x.Cert → Option Bytes
  pub key_kind : x.Cert → KeyKind
  pub verify_ed : x.Cert → Bytes → Bytes → Bool
  pub verify_rsa : x.Cert → Bytes → Bytes → Padding → String → Bool
  pub verify_ec : x.Cert → Bytes → Bytes → String → Bool
  pub digest : Bytes → String → Bytes
  pub load : Bytes → String ⊎ (String × SignedData x)

-- `CmsResult`
pub record CmsResult : Type 0 where
  pub verified : Bool
  pub detached : Bool
  pub digest_alg : String
  pub signature_alg : String
  pub signer_cert_pem : Option String
  pub time_of_signing : Option ℕ
  pub tsa_present : Bool
  pub content : Option Bytes
  pub errors : List String
  pub extra_certs_pem : List String

-- `_TSTOKEN_OID`
abbrev tstoken_oid : String
tstoken_oid = "1.2.840.113549.1.9.16.2.14"

-- `_smime_canonical`: every line ending becomes CR LF. The flag says that the byte before was a CR,
-- whose line ending is already written.
abbrev canonical_from : Bool → Bytes → Bytes
canonical_from after_cr [] = []
canonical_from after_cr (c ∷ cs) =
    let plain = canonical_from false cs in
    let after = canonical_from true cs in
    if c == 13
    then 13 ∷ 10 ∷ after
    else if c == 10
    then (if after_cr then plain else 13 ∷ 10 ∷ plain)
    else c ∷ plain

unfoldable pub smime_canonical : Bytes → Bytes
smime_canonical envelope = canonical_from false envelope

-- `_HASH_BY_OID_NAME`, whose values are the keys with a dash after sha3, and `_hash_name`.
abbrev oid_names : List String
oid_names =
    "md5" ∷ "sha1" ∷ "sha224" ∷ "sha256" ∷ "sha384" ∷ "sha512" ∷ "sha3_256" ∷ "sha3_384"
    ∷ "sha3_512" ∷ []

unfoldable pub hash_name : String → String
hash_name oid =
    let name = replace "-" "_" oid in
    if is_in name oid_names then replace "_" "-" name else "sha256"

-- `cryptography_hash(hash_name)`, SHA-256 where it raises.
abbrev or_sha256 : CryptoError ⊎ String → String
or_sha256 (inl e) = "sha256"
or_sha256 (inr n) = n

unfoldable pub primitive_hash : String → String
primitive_hash name =
    if str_eq name "md5" || str_eq name "md2" then "md5" else or_sha256 (cryptography_hash name)

-- The last of the attributes counts.
abbrev last_digest : List SignedAttr → Option Bytes → Option Bytes
last_digest [] found = found
last_digest (message_digest d ∷ rest) found = last_digest rest (some d)
last_digest (signing_time t ∷ rest) found = last_digest rest found
last_digest (other_attr ∷ rest) found = last_digest rest found

abbrev last_time : List SignedAttr → Option ℕ → Option ℕ
last_time [] found = found
last_time (message_digest d ∷ rest) found = last_time rest found
last_time (signing_time t ∷ rest) found = last_time rest (some t)
last_time (other_attr ∷ rest) found = last_time rest found

abbrev pub message_digest_of : List SignedAttr → Option Bytes
message_digest_of attrs = last_digest attrs none

-- `embedded if embedded is not None else external_content`
abbrev pub content_or : Option Bytes → Option Bytes → Option Bytes
content_or none external = external
content_or (some c) external = some c

abbrev is_none {ℓ} : {A : Type ℓ} → Option A → Bool
is_none none = true
is_none (some a) = false

module _ (x : X509) (tools : CmsTools x) where
  -- `_digest_matches`
  unfoldable pub digest_matches : Bytes → Bytes → String → Bool
  digest_matches attr content hash =
      let canon = smime_canonical content in
      same_bytes attr (tools.digest content hash)
      || (not (same_bytes canon content) && same_bytes attr (tools.digest canon hash))

  -- `_match_signer`
  abbrev has_identifier : Bytes → x.Cert → Bool
  has_identifier want c = elim (tools.key_identifier c) [
    | none ↦ false
    | some got ↦ same_bytes got want
  ]

  abbrev matches : SignerId → x.Cert → Bool
  matches (issuer_and_serial_number serial) c = tools.serial_number c == serial
  matches (subject_key_identifier want) c = has_identifier want c

  abbrev or_first : Option x.Cert → List x.Cert → Option x.Cert
  or_first (some c) certs = some c
  or_first none [] = none
  or_first none (c ∷ certs) = some c

  unfoldable pub match_signer : SignerId → List x.Cert → Option x.Cert
  match_signer sid certs = or_first (find (matches sid) certs) certs

  -- `_verify_primitive`
  abbrev padding_for : String → Padding
  padding_for sig_alg = if occurs "pss" sig_alg then pss else pkcs1v15

  abbrev by_key : KeyKind → x.Cert → Bytes → Bytes → String → String → Bool
  by_key rsa cert signed signature hash sig_alg =
      tools.verify_rsa cert signature signed (padding_for sig_alg) hash
  by_key ecdsa cert signed signature hash sig_alg = tools.verify_ec cert signature signed hash
  by_key ed25519 cert signed signature hash sig_alg = tools.verify_ed cert signature signed
  by_key ed448 cert signed signature hash sig_alg = tools.verify_ed cert signature signed
  by_key other_key cert signed signature hash sig_alg = false

  unfoldable pub verify_primitive : x.Cert → Bytes → Bytes → String → String → Bool
  verify_primitive cert signed signature hash sig_alg =
      by_key (tools.key_kind cert) cert signed signature (primitive_hash hash) sig_alg

  abbrev pub digest_errors : Option Bytes → Bytes → String → List String
  digest_errors none content hash = []
  digest_errors (some d) content hash =
      if digest_matches d content hash
      then []
      else "messageDigest attribute does not match the content" ∷ []

  -- The errors and the candidates from the attributes and the content.
  abbrev pub attr_errors : List SignedAttr → Option Bytes → String → List String
  attr_errors [] none hash = "no signed attributes and no content to verify against" ∷ []
  attr_errors [] (some content) hash = []
  attr_errors (a ∷ attrs) none hash =
      "detached CMS but no content supplied to check the message digest" ∷ []
  attr_errors (a ∷ attrs) (some content) hash =
      digest_errors (message_digest_of (a ∷ attrs)) content hash

  abbrev with_canonical : Bytes → List Bytes
  with_canonical content =
      let canon = smime_canonical content in
      if same_bytes canon content then content ∷ [] else content ∷ canon ∷ []

  abbrev pub candidates : List SignedAttr → Bytes → Option Bytes → List Bytes
  candidates [] dump none = [] ∷ []
  candidates [] dump (some content) = with_canonical content
  candidates (a ∷ attrs) dump content = dump ∷ []

  abbrev pub signer_errors : Option x.Cert → List String
  signer_errors none = "signer certificate not found in the CMS" ∷ []
  signer_errors (some c) = []

  abbrev pub check_candidates : Option x.Cert → List String → List Bytes → SignerInfo → Bool
  check_candidates none errors signed si = false
  check_candidates (some cert) (e ∷ errors) signed si = false
  check_candidates (some cert) [] signed si =
      any
        (λ c.
          verify_primitive cert c si.signature (hash_name si.digest_algorithm)
            si.signature_algorithm)
        signed

  abbrev final_errors : Option x.Cert → List String → Bool → List String
  final_errors none errors verified = errors
  final_errors (some cert) (e ∷ errors) verified = e ∷ errors
  final_errors (some cert) [] verified =
      if verified then [] else "signer signature does not verify" ∷ []

  abbrev other_certs : Option x.Cert → List x.Cert → List x.Cert
  other_certs none certs = certs
  other_certs (some s) certs = keep (λ c. not (tools.same c s)) certs

  abbrev pub pem_of : Option x.Cert → Option String
  pem_of none = none
  pem_of (some c) = some (x.pem c)

  unfoldable pub check_signer : SignedData x → SignerInfo → Option x.Cert → Option Bytes → CmsResult
  check_signer envelope si signer content =
      let hash = hash_name si.digest_algorithm in
      let errors = signer_errors signer ++ attr_errors si.signed_attrs content hash in
      let verified =
        check_candidates signer errors (candidates si.signed_attrs si.signed_attrs_dump content)
          si in
      record {
        verified = verified;
        detached = is_none envelope.encap_content;
        digest_alg = hash;
        signature_alg = si.signature_algorithm;
        signer_cert_pem = pem_of signer;
        time_of_signing = last_time si.signed_attrs none;
        tsa_present = any (λ oid. str_eq oid tstoken_oid) si.unsigned_attrs;
        content = content;
        errors = final_errors signer errors verified;
        extra_certs_pem = map x.pem (other_certs signer envelope.certificates);
      }

  abbrev no_signer : SignedData x → Option Bytes → CmsResult
  no_signer envelope content = record {
    verified = false;
    detached = is_none envelope.encap_content;
    digest_alg = "";
    signature_alg = "";
    signer_cert_pem = none;
    time_of_signing = none;
    tsa_present = false;
    content = content;
    errors = "no SignerInfo present" ∷ [];
    extra_certs_pem = [];
  }

  abbrev pub check_infos : SignedData x → List SignerInfo → Option Bytes → CmsResult
  check_infos envelope [] content = no_signer envelope content
  check_infos envelope (si ∷ rest) content =
      check_signer envelope si (match_signer si.sid envelope.certificates) content

  -- `_load_signed_data`
  abbrev signed_data_of : String ⊎ (String × SignedData x) → CryptoError ⊎ SignedData x
  signed_data_of (inl why) =
      inl (material_parse_error (append_str "Not valid CMS/PKCS#7 DER: " why))
  signed_data_of (inr (content_type, envelope)) =
      if str_eq content_type "signed_data"
      then inr envelope
      else inl (
          material_parse_error
            (text ("CMS content type is '" ∷ content_type ∷ "', expected signed_data" ∷ [])))

  unfoldable pub load_signed_data : Bytes → CryptoError ⊎ SignedData x
  load_signed_data blob = signed_data_of (tools.load blob)

  -- `verify_cms`
  unfoldable pub verify_cms : Bytes → Option Bytes → CryptoError ⊎ CmsResult
  verify_cms blob external = and_then (load_signed_data blob) (λ envelope.
      inr (check_infos envelope envelope.signer_infos (content_or envelope.encap_content external)))
