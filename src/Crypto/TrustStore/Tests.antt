-- ===== src/Crypto/TrustStore/Tests.antt =====
-- One anchor is added and switched off: the theorems about the trust store at it.
use egreen_quanta_tes.Base.{String, ◌≡◌, refl, true, false, none, some, [], ◌∷◌, inr, ◌⊎◌}
use egreen_quanta_tes.Crypto.Types.{X509}
use egreen_quanta_tes.Crypto.Errors.{CryptoError}
use egreen_quanta_tes.Crypto.Path.{spki_sha256}
use egreen_quanta_tes.Crypto.TrustStore.{
  TrustAnchor, with_enabled, set_anchor_enabled, new_anchor, add_anchor, Reach, empty, step, added,
}
use egreen_quanta_tes.Crypto.TrustStore.Keys.{IsSound, Reach-IsSound}

abbrev unit_certs : X509
unit_certs = record {
  Cert = Unit;
  Name = Unit;
  same_name = λ a b. true;
  rfc4514_string = λ n. "CN=root";
  subject = λ c. c;
  issuer = λ c. c;
  public_bytes = λ c. "key";
  der_bytes = λ c. "der";
  sha256_hex = λ s. s;
  is_directly_issued_by = λ c i. true;
  basic_constraints = λ c. none;
  key_cert_sign = λ c. none;
  not_valid_before = λ c. 0;
  not_valid_after = λ c. 100;
  date = λ t. "d";
  decimal = λ n. "n";
  serial_hex = λ c. "1";
  sig_algo = λ c. "sha256";
  key_params = λ c. record {
    key_type = "ec";
    key_bits = some 256;
    curve = some "secp256r1";
    rsa_exponent = none;
  };
  key_usage = λ c. [];
  ext_key_usage = λ c. [];
  san = λ c. [];
  pem = λ c. "pem";
}

abbrev load : String → CryptoError ⊎ Unit {0}
load pem = inr tt

abbrev root : TrustAnchor
root = new_anchor unit_certs load "id-1" "root" tt "admin"

is_added : add_anchor unit_certs load "id-1" "root" "pem" "admin" [] ≡ inr (root, root ∷ [])
unfolding add_anchor spki_sha256
is_added = refl

reached : Reach unit_certs load (root ∷ [])
reached = step [] (root ∷ []) empty (added "id-1" "root" "pem" "admin" [] root (root ∷ []) is_added)

Reach-IsSound_example : IsSound unit_certs load (root ∷ [])
Reach-IsSound_example = Reach-IsSound unit_certs load (λ c. refl) (root ∷ []) reached

is_off :
    set_anchor_enabled "id-1" false (root ∷ [])
    ≡ inr (with_enabled false root, with_enabled false root ∷ [])
unfolding set_anchor_enabled
is_off = refl
