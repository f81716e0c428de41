-- ===== src/Crypto/Observed/Tests.antt =====
-- A certificate that is seen twice: the theorem about sightings at the second time.
use egreen_quanta_tes.Base.{ℕ, ◌+◌, ◌≡◌, false, not, ◌&&◌, some, none, List, [], any, ◌==◌, str_eq}
use egreen_quanta_tes.Crypto.Types.{X509}
use egreen_quanta_tes.Crypto.Path.{spki_sha256, cert_info}
use egreen_quanta_tes.Crypto.WeakAlgo.Policy.{is_empty}
use egreen_quanta_tes.Crypto.Observed.{
  Certificate, by_fingerprint, is_other_identity, fingerprint, persist_certificate,
}
use egreen_quanta_tes.Crypto.Observed.Sightings.{
  sightings, is_absent, persist_certificate-sightings,
}

abbrev plain : X509
plain = record {
  Cert = ℕ;
  Name = ℕ;
  same_name = ◌==◌;
  rfc4514_string = λ n. "name";
  subject = λ n. n;
  issuer = λ n. n;
  public_bytes = λ n. "key";
  der_bytes = λ n. "der";
  sha256_hex = λ s. s;
  is_directly_issued_by = λ c i. false;
  basic_constraints = λ n. none;
  key_cert_sign = λ n. none;
  not_valid_before = λ n. 0;
  not_valid_after = λ n. 100;
  date = λ t. "d";
  decimal = λ n. "n";
  serial_hex = λ n. "1";
  sig_algo = λ n. "ecdsa-with-SHA256";
  key_params = λ n. record {
    key_type = "ec";
    key_bits = some 256;
    curve = some "secp256r1";
    rsa_exponent = none;
  };
  key_usage = λ n. [];
  ext_key_usage = λ n. [];
  san = λ n. [];
  pem = λ n. "pem";
}

abbrev seen_once : List Certificate
seen_once = (persist_certificate plain 5 7 []).1

seen_twice :
    let (findings, rows') = persist_certificate plain 9 7 seen_once in
    let fp = fingerprint plain 9 7 in
    (sightings fp rows' ≡ sightings fp seen_once + 1)
    × (str_eq fp "other" ≡ false → sightings "other" rows' ≡ sightings "other" seen_once)
    × (not (is_empty findings) ≡ (
        is_absent (by_fingerprint fp seen_once)
        && any (is_other_identity (spki_sha256 plain 7) (cert_info plain 7).subject) seen_once))
seen_twice = persist_certificate-sightings plain 9 7 seen_once "other"
