-- ===== src/Crypto/Raw/Tests.antt =====
-- Keys of every kind that accept exactly the message itself as its signature, and the theorems about
-- raw signatures at them.
use egreen_quanta_tes.Base.{
  ℕ, zero, suc, ◌^◌, Option, arith, ◌≡◌, refl, true, none, some, [], ◌∷◌, inr,
}
use egreen_quanta_tes.Base.Bytes.{Bytes, same_bytes}
use egreen_quanta_tes.Crypto.WeakAlgo.{normalize_hash_name}
use egreen_quanta_tes.Base.Text.{lower, strip}
use egreen_quanta_tes.Crypto.Raw.{
  Keys, KeyKind, rsa, ecdsa, ed25519, RawVerifyOutcome, message, verify_raw, verify_keyed,
  verify_hashed, normal_hash, cryptography_hash, check_ecdsa_malleability, curve_order, is_low,
}
use egreen_quanta_tes.Crypto.Raw.LowS.{check_ecdsa_malleability-secp384r1}
use egreen_quanta_tes.Crypto.Raw.Verified.{IsChecked, verify_raw-IsChecked}

abbrev kind_of : ℕ → KeyKind
kind_of zero = rsa
kind_of (suc zero) = ecdsa
kind_of (suc (suc n)) = ed25519

abbrev pair_of : Bytes → Option (ℕ × ℕ)
pair_of (r ∷ s ∷ []) = some (r, s)
pair_of _ = none

abbrev pub toy : Keys
toy = record {
  PublicKey = ℕ;
  kind = kind_of;
  key_params = λ k. record {
    key_type = "ec";
    key_bits = some 256;
    curve = some "secp256r1";
    rsa_exponent = none;
  };
  verify_ed = λ k s m. same_bytes s m;
  verify_rsa = λ k s m pad hash d. same_bytes s m;
  verify_ec = λ k s m hash d. same_bytes s m;
  decode_dss_signature = pair_of;
  encode_dss_signature = λ r s. r ∷ s ∷ [];
}

abbrev accepted : RawVerifyOutcome
accepted = record {
  verified = true;
  params = record {
    algorithm = "sha256-ecdsa";
    hash_alg = some "sha256";
    padding = none;
    key = some (toy.key_params 1);
    low_s = some true;
    der_canonical = some true;
  };
  failure = none;
}

is_accepted :
    verify_raw toy 1 (message (5 ∷ 6 ∷ [])) (some "SHA-256") (5 ∷ 6 ∷ []) none ≡ inr accepted
unfolding verify_raw verify_hashed verify_keyed normal_hash cryptography_hash normalize_hash_name
    lower strip check_ecdsa_malleability curve_order is_low
is_accepted = refl

verify_raw-IsChecked_example : IsChecked toy 1 (message (5 ∷ 6 ∷ [])) (5 ∷ 6 ∷ []) (some "SHA-256")
verify_raw-IsChecked_example =
    verify_raw-IsChecked toy 1 (message (5 ∷ 6 ∷ [])) (5 ∷ 6 ∷ []) none accepted (some "SHA-256")
      is_accepted refl

abbrev order : ℕ
order = 115792089210356248762697446949407573529996955224135760342422259061068512044369

order-secp256r1 : curve_order "secp256r1" ≡ some order
unfolding curve_order
order-secp256r1 = refl

check_ecdsa_malleability-secp384r1_example :
    (check_ecdsa_malleability toy (3 ∷ (2 ^ 383) ∷ []) "secp384r1").0 ≡ some true
check_ecdsa_malleability-secp384r1_example =
    check_ecdsa_malleability-secp384r1 toy 3 (2 ^ 383) (3 ∷ (2 ^ 383) ∷ []) refl (omega arith)
