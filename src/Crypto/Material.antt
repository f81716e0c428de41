-- ===== src/Crypto/Material.antt =====
-- load_certificates and load_public_key of backend/app/services/crypto/x509_utils.py. What the
-- `cryptography` package makes of bytes, the regular expression and `bytes.strip` are the record
-- `Loader`.
use Prim.Native.String.{◌++◌ as append_str}
use egreen_quanta_tes.Base.{String, Bool, List, [], ◌∷◌, ◌||◌, ◌⊎◌, inl, inr, if◌then◌else◌}
use egreen_quanta_tes.Base.Bytes.{Bytes, ascii, has_infix}
use egreen_quanta_tes.Crypto.Types.{X509}
use egreen_quanta_tes.Crypto.Errors.{CryptoError, material_parse_error, unhandled, and_then}
use egreen_quanta_tes.Crypto.Raw.{Keys}

-- What a loader does: it returns, raises ValueError with a text, or raises something else.
pub data Loaded (A : Type 0) : Type 0 where
  loaded : A → Loaded A
  value_error : String → Loaded A
  other_exception : Loaded A

pub record Loader (x : X509) (keys : Keys) : Type 0 where
  pub strip_bytes : Bytes → Bytes
  -- `_PEM_CERT_RE.findall`
  pub pem_blocks : Bytes → List Bytes
  pub load_pem_x509_certificate : Bytes → Loaded x.Cert
  pub load_der_x509_certificate : Bytes → Loaded x.Cert
  pub load_pem_public_key : Bytes → Loaded keys.PublicKey
  pub load_der_public_key : Bytes → Loaded keys.PublicKey
  pub public_key : x.Cert → keys.PublicKey

-- `except ValueError as exc: raise MaterialParseError(f"{why}{exc}")`
abbrev pub or_parse_error : {A : Type 0} → String → Loaded A → CryptoError ⊎ A
or_parse_error why (loaded a) = inr a
or_parse_error why (value_error text) = inl (material_parse_error (append_str why text))
or_parse_error why other_exception = inl unhandled

abbrev begins_certificate : Bytes → Bool
begins_certificate material = has_infix (ascii "-----BEGIN CERTIFICATE-----") material

abbrev begins_key : Bytes → Bool
begins_key material =
    has_infix (ascii "-----BEGIN PUBLIC KEY-----") material
    || has_infix (ascii "-----BEGIN RSA PUBLIC KEY-----") material

module _ (x : X509) (keys : Keys) (l : Loader x keys) where
  unfoldable pub load_blocks : List Bytes → CryptoError ⊎ List x.Cert
  load_blocks [] = inr []
  load_blocks (block ∷ blocks) =
      and_then (or_parse_error "Invalid PEM certificate: " (l.load_pem_x509_certificate block))
        (λ c. and_then (load_blocks blocks) (λ cs. inr (c ∷ cs)))

  -- `if not certs`; the list that is returned has a first certificate and others.
  abbrev filled : List x.Cert → CryptoError ⊎ (x.Cert × List x.Cert)
  filled [] = inl (material_parse_error "No certificate found in supplied material")
  filled (c ∷ cs) = inr (c, cs)

  unfoldable pub load_certificates : Bytes → CryptoError ⊎ (x.Cert × List x.Cert)
  load_certificates material =
      let stripped = l.strip_bytes material in
      and_then
        (if begins_certificate stripped
          then load_blocks (l.pem_blocks stripped)
          else and_then
              (or_parse_error "Invalid DER certificate: " (l.load_der_x509_certificate stripped))
              (λ c. inr (c ∷ [])))
        filled

  abbrev key_of_certificate : CryptoError ⊎ x.Cert → CryptoError ⊎ keys.PublicKey
  key_of_certificate r = and_then r (λ c. inr (l.public_key c))

  -- DER: a SubjectPublicKeyInfo, then a certificate.
  abbrev or_der_certificate : Loaded keys.PublicKey → Bytes → CryptoError ⊎ keys.PublicKey
  or_der_certificate (loaded key) material = inr key
  or_der_certificate (value_error text) material =
      key_of_certificate
        (or_parse_error "Could not load public key: " (l.load_der_x509_certificate material))
  or_der_certificate other_exception material = inl unhandled

  unfoldable pub load_public_key : Bytes → CryptoError ⊎ keys.PublicKey
  load_public_key material =
      let stripped = l.strip_bytes material in
      if begins_certificate stripped
      then and_then (load_certificates stripped) (λ certs. inr (l.public_key certs.0))
      else if begins_key stripped
      then or_parse_error "Could not load public key: " (l.load_pem_public_key stripped)
      else or_der_certificate (l.load_der_public_key stripped) stripped
