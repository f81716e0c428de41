-- ===== src/Crypto/Verdict/Tests.antt =====
-- A run of the verdict at a certificate that is an anchor itself.
use egreen_quanta_tes.Base.{ℕ, suc, ◌≡◌, refl, true, some, none, [], ◌∷◌, ◌++◌, ◌==◌}
use egreen_quanta_tes.Crypto.Types.{X509, valid, RevocationResult, good}
use egreen_quanta_tes.Crypto.Path.{spki_sha256, build_and_validate, walk, conclude, window_findings}
use egreen_quanta_tes.Crypto.Verdict.{certificate_verdict}

-- Certificates that are told apart by a number, each issued by the next one.
abbrev ladder : X509
ladder = record {
  Cert = ℕ;
  Name = ℕ;
  same_name = ◌==◌;
  rfc4514_string = λ n. "name";
  subject = λ n. n;
  issuer = λ n. suc n;
  public_bytes = λ n. "key";
  der_bytes = λ n. "der";
  sha256_hex = λ s. s;
  is_directly_issued_by = λ c i. suc c == i;
  basic_constraints = λ n. some (true, none);
  key_cert_sign = λ n. none;
  not_valid_before = λ n. 0;
  not_valid_after = λ n. 100;
  date = λ t. "d";
  decimal = λ n. "n";
  serial_hex = λ n. "1";
  sig_algo = λ n. "ecdsa-with-SHA256";
  key_params = λ n. record {
    key_type = "ec";
    key_bits = some 256;
    curve = some "secp256r1";
    rsa_exponent = none;
  };
  key_usage = λ n. [];
  ext_key_usage = λ n. [];
  san = λ n. [];
  pem = λ n. "pem";
}

abbrev not_revoked : RevocationResult
not_revoked = record { status = good; method = some "ocsp"; detail = ""; revoked_at = none }

leaf_is_valid :
    certificate_verdict
      (build_and_validate ladder 7 [] (7 ∷ []) 5).0
      (some not_revoked)
      ([] ++ (build_and_validate ladder 7 [] (7 ∷ []) 5).1 ++ [])
    ≡ valid
unfolding build_and_validate walk conclude spki_sha256 window_findings certificate_verdict
leaf_is_valid = refl
