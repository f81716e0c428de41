-- ===== src/Crypto/RawSignature.antt =====
-- `_b64` and `verify_raw_signature` of backend/app/services/crypto/engine.py, from the texts of the
-- request to the result. `b64decode` is the decoder of the standard library, with the text of its error.
pub mod Valid
mod Tests
use Prim.Native.String.{◌++◌ as append_str}
use egreen_quanta_tes.Base.{ℕ, String, Bool, Option, none, some, List, ◌⊎◌, inl, inr, if◌then◌else◌}
use egreen_quanta_tes.Base.Text.{is_set}
use egreen_quanta_tes.Base.Bytes.{Bytes}
use egreen_quanta_tes.Crypto.Types.{X509}
use egreen_quanta_tes.Crypto.Errors.{CryptoError, material_parse_error, and_then}
use egreen_quanta_tes.Crypto.Observed.{Certificate}
use egreen_quanta_tes.Crypto.Revocation.{Network}
use egreen_quanta_tes.Crypto.Result.{VerificationResult}
use egreen_quanta_tes.Crypto.Raw.{Keys, Signed, message, prehashed_digest, verify_raw}
use egreen_quanta_tes.Crypto.Material.{Loader, load_certificates, load_public_key}
use egreen_quanta_tes.Crypto.Engine.{raw_result}

-- The arguments of `verify_raw_signature`.
pub record RawRequest : Type 0 where
  pub data_b64 : String
  pub signature_b64 : String
  pub hash_alg : Option String
  pub padding : Option String
  pub certificate_pem : Option String
  pub public_key_pem : Option String
  pub is_prehashed : Bool

-- What the engine takes from outside: the readings of certificates, the network, the URLs of a
-- certificate, the writing of a list, the keys, the loaders, `str.encode` and the digest.
pub record Outside : Type 1 where
  pub x : X509
  pub net : Network
  pub ocsp_urls : x.Cert → List String
  pub crl_urls : x.Cert → List String
  pub repr : List String → String
  pub keys : Keys
  pub loader : Loader x keys
  pub b64decode : String → String ⊎ Bytes
  pub encode : String → Bytes
  pub sha256_hex : Bytes → String

abbrev or_invalid : String ⊎ Bytes → CryptoError ⊎ Bytes
or_invalid (inl why) = inl (material_parse_error (append_str "Invalid base64 input: " why))
or_invalid (inr bytes) = inr bytes

-- A text counts as given when it is not empty.
abbrev pub if_given : Option String → Option String
if_given none = none
if_given (some s) = if is_set s then some s else none

-- `message` or `prehashed_digest` of the call of `verify_raw`.
abbrev pub signed_of : Bool → Bytes → Signed
signed_of is_prehashed bytes = if is_prehashed then prehashed_digest bytes else message bytes

module _ (o : Outside) where
  -- `_b64`
  unfoldable pub b64 : String → CryptoError ⊎ Bytes
  b64 value = or_invalid (o.b64decode value)

  -- The key, and the certificate that it is of, with the others that came along.
  abbrev pub Signer : Type 0
  Signer = o.keys.PublicKey × Option (o.x.Cert × List o.x.Cert)

  abbrev pub signer_of : Option String → Option String → CryptoError ⊎ Signer
  signer_of (some pem) key_pem =
      and_then (load_certificates o.x o.keys o.loader (o.encode pem))
        (λ certs. inr (o.loader.public_key certs.0, some certs))
  signer_of none (some pem) =
      and_then (load_public_key o.x o.keys o.loader (o.encode pem)) (λ key. inr (key, none))
  signer_of none none =
      inl (material_parse_error "Provide either certificate_pem or public_key_pem")

  -- `verify_raw_signature`, at the time `at_time` of the check.
  unfoldable pub verify_raw_signature :
      RawRequest
      → List o.x.Cert
      → ℕ
      → ℕ
      → List Certificate
      → CryptoError ⊎ (VerificationResult × List Certificate)
  verify_raw_signature request anchors at_time now rows = and_then (b64 request.data_b64) (λ bytes.
      and_then (b64 request.signature_b64) (λ signature.
        and_then (signer_of (if_given request.certificate_pem) (if_given request.public_key_pem))
          (λ (key, cert).
            and_then
              (verify_raw o.keys key (signed_of request.is_prehashed bytes) request.hash_alg
                signature request.padding)
              (λ outcome. inr (
                raw_result o.x o.net o.ocsp_urls o.crl_urls o.repr outcome cert anchors
                  (o.sha256_hex bytes) at_time now rows)))))
