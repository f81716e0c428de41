-- ===== src/Crypto/RawSignature/Valid.antt =====
-- What the verdict "valid" of `verify_raw_signature` stands on.
use egreen_quanta_tes.Base.{
  ℕ, String, ◌≡◌, refl, sym, ap, subst, ◌∙◌, false, Option, none, some, List, ◌++◌, inr, map, arith,
}
use egreen_quanta_tes.Base.Bytes.{Bytes}
use egreen_quanta_tes.Crypto.Types.{valid}
use egreen_quanta_tes.Crypto.Errors.{and_then-ok, ok-value}
use egreen_quanta_tes.Crypto.Path.{spki_sha256}
use egreen_quanta_tes.Crypto.Path.Linked.{IsPath}
use egreen_quanta_tes.Crypto.Verdict.{says_revoked}
use egreen_quanta_tes.Crypto.Observed.{Certificate}
use egreen_quanta_tes.Crypto.Result.{VerificationResult}
use egreen_quanta_tes.Crypto.Raw.{RawVerifyOutcome, verify_raw}
use egreen_quanta_tes.Crypto.Raw.Verified.{IsChecked, verify_raw-IsChecked}
use egreen_quanta_tes.Crypto.Material.{load_certificates, load_public_key}
use egreen_quanta_tes.Crypto.Engine.{raw_result}
use egreen_quanta_tes.Crypto.Engine.Valid.{raw_result-IsPath, raw_result-verified}
use egreen_quanta_tes.Crypto.RawSignature.{
  RawRequest, Outside, b64, if_given, signed_of, Signer, signer_of, verify_raw_signature,
}

module _ (o : Outside) where
  -- Whose the key is: that of the first certificate that was given, for which no revocation was found
  -- and from which there is a path to an anchor; or, where no certificate was given, a bare key.
  pub data Belongs (request : RawRequest) (anchors : List o.x.Cert) (result : VerificationResult)
      : o.keys.PublicKey → Type 0 where
    to_certificate :
        (pem : String) (leaf : o.x.Cert) (extra rest : List o.x.Cert)
        → if_given request.certificate_pem ≡ some pem
        → load_certificates o.x o.keys o.loader (o.encode pem) ≡ inr (leaf, extra)
        → says_revoked result.revocation ≡ false
        → IsPath o.x (map (spki_sha256 o.x) anchors) (extra ++ anchors) leaf rest
        → Belongs request anchors result (o.loader.public_key leaf)
    to_nobody :
        (pem : String) (key : o.keys.PublicKey)
        → if_given request.certificate_pem ≡ none
        → if_given request.public_key_pem ≡ some pem
        → load_public_key o.x o.keys o.loader (o.encode pem) ≡ inr key
        → Belongs request anchors result key

  -- The decoded signature of the decoded data passed the check of the key.
  pub record IsAuthentic (request : RawRequest) (anchors : List o.x.Cert)
      (result : VerificationResult) : Type 0 where
    pub bytes : Bytes
    pub is_bytes : b64 o request.data_b64 ≡ inr bytes
    pub signature : Bytes
    pub is_signature : b64 o request.signature_b64 ≡ inr signature
    pub key : o.keys.PublicKey
    pub is_checked :
        IsChecked o.keys key (signed_of request.is_prehashed bytes) signature request.hash_alg
    pub belongs : Belongs request anchors result key

  module _ (request : RawRequest) (anchors : List o.x.Cert) (at_time now : ℕ)
      (rows rows' : List Certificate) (result : VerificationResult) where
    -- When `verify_raw_signature` calls a signature valid, the decoded signature passed the check of
    -- the key on the decoded data (or on the digest that they are), under the named hash; and that key
    -- is the one of the first certificate given, for which no revocation was found and from which
    -- there is a path to an anchor, or, with no certificate given, the public key given.
    pub verify_raw_signature-IsAuthentic :
        verify_raw_signature o request anchors at_time now rows ≡ inr (result, rows')
        → result.verdict ≡ valid
        → IsAuthentic request anchors result
    unfolding verify_raw_signature
    verify_raw_signature-IsAuthentic h v =
        let (bytes, is_bytes, h1) = and_then-ok (b64 o request.data_b64) _ (result, rows') h in
        let (signature, is_signature, h2) =
          and_then-ok (b64 o request.signature_b64) _ (result, rows') h1 in
        let (signer, is_signer, h3) =
          and_then-ok
            (signer_of o (if_given request.certificate_pem) (if_given request.public_key_pem)) _
            (result, rows') h2 in
        let (outcome, ran, h4) =
          and_then-ok
            (verify_raw o.keys signer.0 (signed_of request.is_prehashed bytes) request.hash_alg
              signature request.padding)
            _ (result, rows') h3 in
        let same = ok-value _ _ h4 in
        let verified =
          raw_result-verified o.x o.net o.ocsp_urls o.crl_urls o.repr outcome signer.1 anchors
            (o.sha256_hex bytes) at_time now rows (ap (λ r. r.0.verdict) same ∙ v) in
        record {
          bytes = bytes;
          is_bytes = is_bytes;
          signature = signature;
          is_signature = is_signature;
          key = signer.0;
          is_checked =
              verify_raw-IsChecked o.keys signer.0 (signed_of request.is_prehashed bytes) signature
                request.padding outcome request.hash_alg ran verified;
          belongs =
              by_signer (if_given request.certificate_pem) (if_given request.public_key_pem) signer
                refl refl is_signer outcome (o.sha256_hex bytes) same;
        }
      where
        by_signer :
            (cert_pem key_pem : Option String) (signer : Signer o)
            → if_given request.certificate_pem ≡ cert_pem
            → if_given request.public_key_pem ≡ key_pem
            → signer_of o cert_pem key_pem ≡ inr signer
            → (outcome : RawVerifyOutcome) (digest : String)
            → raw_result o.x o.net o.ocsp_urls o.crl_urls o.repr outcome signer.1 anchors digest
                at_time now rows
              ≡ (result, rows')
            → Belongs request anchors result signer.0
        by_signer (some pem) key_pem signer e k h outcome digest same =
            let (certs, found, h1) =
              and_then-ok (load_certificates o.x o.keys o.loader (o.encode pem)) _ signer h in
            let is_signer = ok-value _ _ h1 in
            let ran =
              ap
                (λ s.
                  raw_result o.x o.net o.ocsp_urls o.crl_urls o.repr outcome s.1 anchors digest
                    at_time now rows)
                is_signer
              ∙ same in
            let (verified, fresh, rest, path) =
              raw_result-IsPath o.x o.net o.ocsp_urls o.crl_urls o.repr outcome certs.0 certs.1
                anchors digest at_time now rows (ap (λ r. r.0.verdict) ran ∙ v) in
            subst (Belongs request anchors result) (ap (λ s. s.0) is_signer) (
              to_certificate pem certs.0 certs.1 rest e found
                (sym (ap (λ r. says_revoked r.0.revocation) ran) ∙ fresh) path)
        by_signer none (some pem) signer e k h outcome digest same =
            let (key, found, h1) =
              and_then-ok (load_public_key o.x o.keys o.loader (o.encode pem)) _ signer h in
            subst (Belongs request anchors result) (ap (λ s. s.0) (ok-value _ _ h1))
              (to_nobody pem key e k found)
        by_signer none none signer e k h outcome digest same = ground arith
