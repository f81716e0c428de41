-- ===== src/Crypto/RawSignature/Tests.antt =====
-- A request with a certificate that an anchor knows: the check of the signature and its verdict.
use egreen_quanta_tes.Base.{◌≡◌, refl, some, none, false, List, [], ◌∷◌, inr}
use egreen_quanta_tes.Crypto.Types.{valid}
use egreen_quanta_tes.Crypto.Path.{spki_sha256, build_and_validate, walk, conclude}
use egreen_quanta_tes.Crypto.Verdict.{decide}
use egreen_quanta_tes.Crypto.Revocation.{check_revocation}
use egreen_quanta_tes.Crypto.Observed.{Certificate}
use egreen_quanta_tes.Crypto.Result.{VerificationResult}
use egreen_quanta_tes.Crypto.Raw.{RawVerifyOutcome, message, verify_eddsa, verify_raw}
use egreen_quanta_tes.Crypto.Raw.Tests.{toy}
use egreen_quanta_tes.Crypto.Material.{loaded, value_error, load_certificates}
use egreen_quanta_tes.Crypto.Engine.{raw_result, chain_and_revocation}
use egreen_quanta_tes.Crypto.Engine.Tests.{plain, offline, no_urls, repr}
use egreen_quanta_tes.Crypto.RawSignature.{RawRequest, Outside, b64, verify_raw_signature}
use egreen_quanta_tes.Crypto.RawSignature.Valid.{IsAuthentic, verify_raw_signature-IsAuthentic}

abbrev outside : Outside
outside = record {
  x = plain;
  net = offline;
  ocsp_urls = no_urls;
  crl_urls = no_urls;
  repr = repr;
  keys = toy;
  loader = record {
    strip_bytes = λ b. b;
    pem_blocks = λ b. [];
    load_pem_x509_certificate = λ b. value_error "no PEM";
    load_der_x509_certificate = λ b. loaded 7;
    load_pem_public_key = λ b. value_error "no PEM";
    load_der_public_key = λ b. loaded 7;
    public_key = λ c. c;
  };
  b64decode = λ s. inr (5 ∷ 6 ∷ []);
  encode = λ s. [];
  sha256_hex = λ b. "digest";
}

abbrev request : RawRequest
request = record {
  data_b64 = "BQY=";
  signature_b64 = "BQY=";
  hash_alg = none;
  padding = none;
  certificate_pem = some "cert";
  public_key_pem = none;
  is_prehashed = false;
}

abbrev outcome : RawVerifyOutcome
outcome = verify_eddsa toy 7 "ed25519" (message (5 ∷ 6 ∷ [])) (5 ∷ 6 ∷ [])

abbrev answer : VerificationResult × List Certificate
answer =
    raw_result plain offline no_urls no_urls repr outcome (some (7, [])) (7 ∷ []) "digest" 5 9 []

is_answered : verify_raw_signature outside request (7 ∷ []) 5 9 [] ≡ inr answer
unfolding verify_raw_signature b64 load_certificates verify_raw
is_answered = refl

is_valid : answer.0.verdict ≡ valid
unfolding raw_result chain_and_revocation build_and_validate walk conclude decide check_revocation
    spki_sha256
is_valid = refl

verify_raw_signature-IsAuthentic_example : IsAuthentic outside request (7 ∷ []) answer.0
verify_raw_signature-IsAuthentic_example =
    verify_raw_signature-IsAuthentic outside request (7 ∷ []) 5 9 [] answer.1 answer.0 is_answered
      is_valid
