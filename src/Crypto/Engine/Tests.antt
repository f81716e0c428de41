-- ===== src/Crypto/Engine/Tests.antt =====
-- A signature by the key of an anchor: the theorem about certificates at it.
use egreen_quanta_tes.Base.{ℕ, String, ◌≡◌, refl, false, some, none, List, [], ◌∷◌, map, ◌==◌}
use egreen_quanta_tes.Crypto.Types.{X509, valid}
use egreen_quanta_tes.Crypto.Path.{
  spki_sha256, cert_info, build_and_validate, walk, conclude, window_findings,
}
use egreen_quanta_tes.Crypto.Path.Linked.{IsPath}
use egreen_quanta_tes.Crypto.Path.Sound.{AllInWindow}
use egreen_quanta_tes.Crypto.Verdict.{says_revoked, certificate_verdict}
use egreen_quanta_tes.Crypto.WeakAlgo.{certificate_findings, is_weak_hash, hash_from_sig_algo}
use egreen_quanta_tes.Crypto.Revocation.{Network, check_revocation}
use egreen_quanta_tes.Crypto.Observed.{persist_certificate, fingerprint}
use egreen_quanta_tes.Crypto.Engine.{validate_certificate, chain_and_revocation, allowlist_findings}
use egreen_quanta_tes.Crypto.Engine.Valid.{validate_certificate-AllInWindow}

abbrev pub plain : X509
plain = record {
  Cert = ℕ;
  Name = ℕ;
  same_name = ◌==◌;
  rfc4514_string = λ n. "name";
  subject = λ n. n;
  issuer = λ n. n;
  public_bytes = λ n. "key";
  der_bytes = λ n. "der";
  sha256_hex = λ s. s;
  is_directly_issued_by = λ c i. false;
  basic_constraints = λ n. none;
  key_cert_sign = λ n. none;
  not_valid_before = λ n. 0;
  not_valid_after = λ n. 100;
  date = λ t. "d";
  decimal = λ n. "n";
  serial_hex = λ n. "1";
  sig_algo = λ n. "md5";
  key_params = λ n. record {
    key_type = "ec";
    key_bits = some 256;
    curve = some "secp256r1";
    rsa_exponent = none;
  };
  key_usage = λ n. [];
  ext_key_usage = λ n. [];
  san = λ n. [];
  pem = λ n. "pem";
}

abbrev pub offline : Network
offline = record {
  outbound_revocation = false;
  revocation_max_response_kb = 64;
  urlparse = λ url. ("http", none);
  getaddrinfo = λ host. none;
  post = λ url. none;
  get = λ url. none;
  load_ocsp = λ body. none;
  load_der_crl = λ body. none;
  load_pem_crl = λ body. none;
  decimal = λ n. "n";
}

abbrev pub no_urls : ℕ → List String
no_urls c = []

abbrev pub repr : List String → String
repr s = "[]"

certificate_is_valid :
    (validate_certificate plain offline no_urls no_urls repr 7 [] none (7 ∷ []) [] 5 9 []).0.verdict
    ≡ valid
unfolding validate_certificate chain_and_revocation build_and_validate walk conclude
    check_revocation certificate_verdict certificate_findings persist_certificate window_findings
    allowlist_findings is_weak_hash hash_from_sig_algo cert_info spki_sha256 fingerprint
certificate_is_valid = refl

validate_certificate-AllInWindow_example :
    (says_revoked
        (validate_certificate plain offline no_urls no_urls repr 7 [] none
          (7 ∷ [])
          []
          5
          9
          []).0.revocation
      ≡ false)
    × (rest : List ℕ) × IsPath plain (map (spki_sha256 plain) (7 ∷ [])) (7 ∷ []) 7 rest
    × AllInWindow plain 5 (7 ∷ rest)
validate_certificate-AllInWindow_example =
    validate_certificate-AllInWindow plain offline no_urls no_urls repr 7 [] none (7 ∷ []) [] 5 9 []
      certificate_is_valid
