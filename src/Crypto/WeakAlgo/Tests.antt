-- ===== src/Crypto/WeakAlgo/Tests.antt =====
-- The theorem about signature findings at an RSA signature over SHA-1.
use egreen_quanta_tes.Base.{◌≡◌, some, none}
use egreen_quanta_tes.Crypto.WeakAlgo.{SignatureParams, signature_findings}
use egreen_quanta_tes.Crypto.WeakAlgo.Policy.{
  is_empty, meets_policy, signature_findings-meets_policy,
}

abbrev old_rsa : SignatureParams
old_rsa = record {
  algorithm = "sha1-rsa-pkcs1v15";
  hash_alg = some "sha1";
  padding = some "pkcs1v15";
  key =
      some (record {
        key_type = "rsa";
        key_bits = some 1024;
        curve = none;
        rsa_exponent = some 65537;
      });
  low_s = none;
  der_canonical = none;
}

signature_findings-meets_policy_example :
    is_empty (signature_findings (λ n. "n") old_rsa (some "pss"))
    ≡ meets_policy old_rsa (some "pss")
signature_findings-meets_policy_example =
    signature_findings-meets_policy (λ n. "n") old_rsa (some "pss")
