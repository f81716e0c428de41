-- ===== src/Crypto/Cms/Tests.antt =====
-- One certificate whose key accepts exactly the message itself as its signature, and the theorems about
-- CMS at two envelopes of it.
use egreen_quanta_tes.Base.{◌≡◌, refl, true, false, none, some, List, [], ◌∷◌, inr}
use egreen_quanta_tes.Base.Bytes.{same_bytes}
use egreen_quanta_tes.Crypto.Raw.{ecdsa}
use egreen_quanta_tes.Crypto.Cms.{
  SignedData, SignerInfo, SignedAttr, message_digest, other_attr, issuer_and_serial_number,
  CmsTools, CmsResult, verify_cms, load_signed_data, check_signer, match_signer, hash_name,
  verify_primitive, digest_matches, smime_canonical, primitive_hash,
}
use egreen_quanta_tes.Crypto.Cms.Verified.{
  IsSigned, is_verified, verify_cms-IsSigned, verify_cms-any_content,
}
use egreen_quanta_tes.Crypto.Engine.Tests.{plain}

abbrev info : List SignedAttr → SignerInfo
info attrs = record {
  sid = issuer_and_serial_number 7;
  digest_algorithm = "md5";
  signature_algorithm = "ecdsa";
  signed_attrs = attrs;
  signed_attrs_dump = 1 ∷ 2 ∷ [];
  unsigned_attrs = [];
  signature = 1 ∷ 2 ∷ [];
}

abbrev envelope : List SignedAttr → SignedData plain
envelope attrs = record {
  certificates = 7 ∷ [];
  encap_content = none;
  signer_infos = info attrs ∷ [];
}

abbrev pub toy : List SignedAttr → CmsTools plain
toy attrs = record {
  same = λ a b. true;
  serial_number = λ c. c;
  key_identifier = λ c. none;
  key_kind = λ c. ecdsa;
  verify_ed = λ c s m. same_bytes s m;
  verify_rsa = λ c s m p h. same_bytes s m;
  verify_ec = λ c s m h. same_bytes s m;
  digest = λ m h. m;
  load = λ b. inr ("signed_data", envelope attrs);
}

abbrev with_digest : List SignedAttr
with_digest = other_attr ∷ message_digest (9 ∷ []) ∷ []

abbrev verified_result : CmsResult
verified_result = record {
  verified = true;
  detached = true;
  digest_alg = "md5";
  signature_alg = "ecdsa";
  signer_cert_pem = some "pem";
  time_of_signing = none;
  tsa_present = false;
  content = some (9 ∷ []);
  errors = [];
  extra_certs_pem = [];
}

is_verified_result : verify_cms plain (toy with_digest) [] (some (9 ∷ [])) ≡ inr verified_result
unfolding verify_cms load_signed_data check_signer match_signer hash_name verify_primitive
    digest_matches smime_canonical primitive_hash
is_verified_result = refl

verify_cms-IsSigned_example : IsSigned plain (toy with_digest) [] (some (9 ∷ [])) verified_result
verify_cms-IsSigned_example =
    verify_cms-IsSigned plain (toy with_digest) [] (some (9 ∷ [])) verified_result
      is_verified_result refl

loaded : load_signed_data plain (toy (other_attr ∷ [])) [] ≡ inr (envelope (other_attr ∷ []))
unfolding load_signed_data
loaded = refl

verify_cms-any_content_example :
    is_verified plain
      (toy (other_attr ∷ []))
      (verify_cms plain (toy (other_attr ∷ [])) [] (some (9 ∷ [])))
    ≡ is_verified plain
        (toy (other_attr ∷ []))
        (verify_cms plain (toy (other_attr ∷ [])) [] (some (4 ∷ 5 ∷ [])))
verify_cms-any_content_example =
    verify_cms-any_content plain (toy (other_attr ∷ [])) [] (envelope (other_attr ∷ []))
      (info (other_attr ∷ [])) [] other_attr [] (9 ∷ []) (4 ∷ 5 ∷ []) loaded refl refl refl refl
