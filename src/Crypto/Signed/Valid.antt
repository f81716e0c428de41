-- ===== src/Crypto/Signed/Valid.antt =====
-- What the verdict "valid" means for each envelope.
use egreen_quanta_tes.Base.{
  ℕ, zero, suc, String, ◌≡◌, ◌≢◌, refl, sym, ap, ◌∙◌, true, false, Option, none, some, List, [],
  ◌∷◌, ◌++◌, ◌⊎◌, inl, inr, map, All, length, arith,
}
use egreen_quanta_tes.Base.Text.{strip}
use egreen_quanta_tes.Base.Bytes.{Bytes}
use egreen_quanta_tes.Crypto.Types.{valid, invalid, indeterminate}
use egreen_quanta_tes.Crypto.Errors.{and_then, and_then-ok, ok-value}
use egreen_quanta_tes.Crypto.Path.{spki_sha256}
use egreen_quanta_tes.Crypto.Path.Linked.{IsPath, build_and_validate-IsTrusted}
use egreen_quanta_tes.Crypto.Verdict.{says_revoked}
use egreen_quanta_tes.Crypto.Verdict.Laws.{decide-valid_iff, is_trusted-trusted}
use egreen_quanta_tes.Crypto.Observed.{Certificate}
use egreen_quanta_tes.Crypto.Cms.{CmsResult, verify_cms}
use egreen_quanta_tes.Crypto.Cms.Verified.{IsSigned, verify_cms-IsSigned}
use egreen_quanta_tes.Crypto.Raw.{Keys}
use egreen_quanta_tes.Crypto.Jws.{JwsTools, JwsHeader, JwsResult, parse_header, verify_compact}
use egreen_quanta_tes.Crypto.Jws.Verified.{
  IsSigned as IsSignedToken, verify_compact-IsSigned, IsSigned-verify_compact,
}
use egreen_quanta_tes.Crypto.Pdf.{
  PdfSignatureReport, PdfReport, PdfTools, validate_pdf, report_all, report_sig, roots_of,
}
use egreen_quanta_tes.Crypto.Result.{VerificationResult}
use egreen_quanta_tes.Crypto.Engine.{chain_and_revocation}
use egreen_quanta_tes.Crypto.Signed.{
  Toolkit, any_broken, any_untrusted, pdf_verdict, pdf_result, pems, verify_pdf, by_header,
  with_x5c, jws_result, verify_jws, by_signer, cms_result, verify_cms_document, load_all, time_or,
}

abbrev pub IsGood : PdfSignatureReport → Type 0
IsGood sig = (sig.intact ≡ true) × (sig.valid ≡ true) × (sig.trusted ≡ true)

none_bad :
    (sigs : List PdfSignatureReport)
    → any_broken sigs ≡ false
    → any_untrusted sigs ≡ false
    → All IsGood sigs
none_bad [] b u = tt
none_bad (sig ∷ sigs) b u =
    ((ground arith, ground arith, ground arith), none_bad sigs (ground arith) (ground arith))

pdf_verdict-IsGood : (sigs : List PdfSignatureReport) → pdf_verdict sigs ≡ valid → All IsGood sigs
unfolding pdf_verdict
pdf_verdict-IsGood sigs h = none_bad sigs (ground arith) (ground arith)

not_empty : (n : ℕ) (sigs : List PdfSignatureReport) → suc n ≡ length sigs → sigs ≢ []
not_empty n [] e h = ground arith
not_empty n (sig ∷ sigs) e h = cc

pub not_valid : indeterminate ≡ valid → ⊥
not_valid e = ground arith

not_invalid : invalid ≡ valid → ⊥
not_invalid e = ground arith

some-value : (s t : String) → some s ≡ some t → s ≡ t
some-value s t e = cc

some-none : (s : String) → some s ≡ none → ⊥
some-none s e = ground arith

length-map {ℓ κ} :
    {A : Type ℓ} {B : Type κ} → (f : A → B) (xs : List A) → length xs ≡ length (map f xs)
length-map f [] = refl
length-map f (a ∷ xs) = omega (arith, length-map f xs)

report_all-count :
    (tools : PdfTools) (roots : List tools.Root) (found : String ⊎ List tools.PdfSig)
    (report : PdfReport)
    → report_all tools roots found ≡ inr report
    → report.signature_count ≡ length report.signatures
report_all-count tools roots (inl why) report h = ground arith
report_all-count tools roots (inr sigs) report h =
    let e = ok-value _ _ h in
    sym (ap (λ r. r.signature_count) e)
    ∙ length-map (report_sig tools roots) sigs
    ∙ ap (λ r. length r.signatures) e

-- The token verifies under the key of the first certificate that it carries itself. What is said of
-- that certificate is that it loads: there are no trust anchors here, no dates and no network.
pub record IsOwnToken (Cert : Type 0) (keys : Keys) (tools : JwsTools keys)
    (load_x5c : String → Option Cert) (public_key : Cert → keys.PublicKey) (token : String)
    : Type 0 where
  pub header : JwsHeader
  pub parsed : parse_header keys tools token ≡ inr header
  pub first : String
  pub rest : List String
  pub carried : header.x5c ≡ some (first ∷ rest)
  pub cert : Cert
  pub loaded : load_x5c first ≡ some cert
  pub outcome : JwsResult
  pub signed : IsSignedToken keys tools token (public_key cert) outcome

module _ (k : Toolkit) where
  -- There is a signature in the PDF, and every one is intact, valid and trusted under the anchors.
  pub record IsSignedPdf (content : Bytes) (anchors : List k.x.Cert) : Type 0 where
    pub report : PdfReport
    pub validated : validate_pdf k.pdf_tools content (pems k anchors) ≡ inr report
    pub has_signature : report.signatures ≢ []
    pub all_good : All IsGood report.signatures

  abbrev pub IsSignedJws : Bytes → Type 0
  IsSignedJws content =
      IsOwnToken k.x.Cert k.keys k.jws_tools k.load_x5c k.public_key
        (strip (k.decode_ascii content))

  -- The first signer's signature verifies, no revocation was found for the signer's certificate, and
  -- there is a path from it to an anchor.
  pub record IsSignedCms (content : Bytes) (external : Option Bytes) (anchors : List k.x.Cert)
      (result : VerificationResult) : Type 0 where
    pub checked : CmsResult
    pub signed : IsSigned k.x k.cms_tools content external checked
    pub signer : k.x.Cert
    pub extra : List k.x.Cert
    pub loaded : k.load_pem (k.x.pem (signed.signer)) ≡ inr signer
    pub fresh : says_revoked result.revocation ≡ false
    pub rest : List k.x.Cert
    pub path : IsPath k.x (map (spki_sha256 k.x) anchors) (extra ++ anchors) signer rest

  pub verify_pdf-IsSignedPdf :
      (content : Bytes) (anchors : List k.x.Cert) (result : VerificationResult)
      → verify_pdf k content anchors ≡ inr result
      → result.verdict ≡ valid
      → IsSignedPdf content anchors
  unfolding verify_pdf validate_pdf
  verify_pdf-IsSignedPdf content anchors result h v =
      let (report, validated, h1) =
        and_then-ok (validate_pdf k.pdf_tools content (pems k anchors)) _ result h in
      let (has_signature, good) =
        counted report.signature_count report.signatures (validate_pdf-count report validated)
          (ap (λ r. r.verdict) (ok-value _ _ h1) ∙ v) in
      record {
        report = report;
        validated = validated;
        has_signature = has_signature;
        all_good = good;
      }
    where
      counted :
          (n : ℕ) (sigs : List PdfSignatureReport)
          → n ≡ length sigs
          → (pdf_result k content n sigs).verdict ≡ valid
          → (sigs ≢ []) × All IsGood sigs
      counted zero sigs e w = ground arith
      counted (suc n) sigs e w = (not_empty n sigs e, pdf_verdict-IsGood sigs w)

      validate_pdf-count :
          (report : PdfReport)
          → validate_pdf k.pdf_tools content (pems k anchors) ≡ inr report
          → report.signature_count ≡ length report.signatures
      validate_pdf-count report h =
          report_all-count k.pdf_tools (roots_of k.pdf_tools (pems k anchors))
            (k.pdf_tools.embedded_signatures content) report h

  pub verify_jws-IsSignedJws :
      (content : Bytes) (result : VerificationResult)
      → verify_jws k content ≡ inr result
      → result.verdict ≡ valid
      → IsSignedJws content
  unfolding verify_jws
  verify_jws-IsSignedJws content result h v =
      let token = strip (k.decode_ascii content) in
      let (header, parsed, h1) = and_then-ok (parse_header k.keys k.jws_tools token) _ result h in
      let (first, rest, cert, carried, loaded, outcome, checked, verified) =
        carried_in header header.x5c h1 in
      record {
        header = header;
        parsed = parsed;
        first = first;
        rest = rest;
        carried = carried;
        cert = cert;
        loaded = loaded;
        outcome = outcome;
        signed =
            verify_compact-IsSigned k.keys k.jws_tools token (k.public_key cert) outcome checked
              verified;
      }
    where
      is_verified :
          (cert : k.x.Cert) (outcome : JwsResult)
          → (jws_result k cert outcome).verdict ≡ valid
          → outcome.verified ≡ true
      is_verified cert outcome w = ground arith

      with_cert :
          (c : Option k.x.Cert)
          → with_x5c k c (strip (k.decode_ascii content)) ≡ inr result
          → (cert : k.x.Cert) × (c ≡ some cert)
            × (outcome : JwsResult) × (verify_compact k.keys k.jws_tools
                  (strip (k.decode_ascii content))
                  (k.public_key cert)
                ≡ inr outcome)
            × (outcome.verified ≡ true)
      with_cert none e = ground arith
      with_cert (some cert) e =
          let (outcome, checked, e1) =
            and_then-ok
              (verify_compact k.keys k.jws_tools (strip (k.decode_ascii content))
                (k.public_key cert))
              _ result e in
          (
            cert,
            refl,
            outcome,
            checked,
            is_verified cert outcome (ap (λ r. r.verdict) (ok-value _ _ e1) ∙ v),
          )

      carried_in :
          (header : JwsHeader) (x5c : Option (List String))
          → by_header k header x5c (strip (k.decode_ascii content)) ≡ inr result
          → (first : String) × (rest : List String) × (cert : k.x.Cert) × (x5c
              ≡ some (first ∷ rest))
            × (k.load_x5c first ≡ some cert)
            × (outcome : JwsResult) × (verify_compact k.keys k.jws_tools
                  (strip (k.decode_ascii content))
                  (k.public_key cert)
                ≡ inr outcome)
            × (outcome.verified ≡ true)
      carried_in header none e = elim (not_valid (ap (λ r. r.verdict) (ok-value _ _ e) ∙ v)) [ ]
      carried_in header (some []) e =
          elim (not_valid (ap (λ r. r.verdict) (ok-value _ _ e) ∙ v)) [ ]
      carried_in header (some (first ∷ rest)) e =
          let (cert, loaded, outcome, checked, verified) = with_cert (k.load_x5c first) e in
          (first, rest, cert, refl, loaded, outcome, checked, verified)

  verify_jws-own_certificate :
      (content : Bytes) (header : JwsHeader) (first : String) (rest : List String) (cert : k.x.Cert)
      (outcome : JwsResult)
      → parse_header k.keys k.jws_tools (strip (k.decode_ascii content)) ≡ inr header
      → header.x5c ≡ some (first ∷ rest)
      → k.load_x5c first ≡ some cert
      → verify_compact k.keys k.jws_tools (strip (k.decode_ascii content)) (k.public_key cert)
        ≡ inr outcome
      → outcome.verified ≡ true
      → (result : VerificationResult) × (verify_jws k content ≡ inr result)
        × (result.verdict ≡ valid)
  unfolding verify_jws
  verify_jws-own_certificate content header first rest cert outcome parsed carried loaded ran v =
      let token = strip (k.decode_ascii content) in
      (
        jws_result k cert outcome,
        ap (λ h. and_then h (λ header. by_header k header header.x5c token)) parsed
            ∙ ap (λ x5c. by_header k header x5c token) carried
            ∙ ap (λ c. with_x5c k c token) loaded
            ∙ ap (λ r. and_then r (λ o. inr (jws_result k cert o))) ran,
        rw v refl,
      )

  pub IsSignedJws-verify_jws :
      (content : Bytes)
      → IsSignedJws content
      → (result : VerificationResult) × (verify_jws k content ≡ inr result)
        × (result.verdict ≡ valid)
  IsSignedJws-verify_jws content own =
      let (outcome, ran, verified) =
        IsSigned-verify_compact k.keys k.jws_tools (strip (k.decode_ascii content))
          (k.public_key own.cert) own.outcome own.signed in
      verify_jws-own_certificate content own.header own.first own.rest own.cert outcome own.parsed
        own.carried own.loaded ran verified

  chained :
      (checked : CmsResult) (signer : k.x.Cert) (extra anchors : List k.x.Cert) (at_time now : ℕ)
      (rows : List Certificate)
      → let result = (cms_result k checked signer extra anchors at_time now rows).0 in
        result.verdict ≡ valid
        → (checked.verified ≡ true)
          × (says_revoked result.revocation ≡ false)
          × (rest : List k.x.Cert) × IsPath k.x
              (map (spki_sha256 k.x) anchors)
              (extra ++ anchors)
              signer
              rest
  unfolding chain_and_revocation
  chained checked signer extra anchors at_time now rows h =
      let (chain, revocation, path) =
        chain_and_revocation k.x k.net k.ocsp_urls k.crl_urls k.repr signer extra anchors
          (time_or checked.time_of_signing at_time) in
      let (verified, fresh, status) =
        (decide-valid_iff checked.verified (some chain) (some revocation)).0.0 h in
      let t =
        build_and_validate-IsTrusted k.x signer extra anchors
          (time_or checked.time_of_signing at_time)
          (is_trusted-trusted chain.status (ground arith)) in
      (verified, fresh, t.rest, t.path)

  pub verify_cms_document-IsSignedCms :
      (content : Bytes) (external : Option Bytes) (anchors : List k.x.Cert) (at_time now : ℕ)
      (rows rows' : List Certificate) (result : VerificationResult)
      → verify_cms_document k content external anchors at_time now rows ≡ inr (result, rows')
      → result.verdict ≡ valid
      → IsSignedCms content external anchors result
  unfolding verify_cms_document
  verify_cms_document-IsSignedCms content external anchors at_time now rows rows' result h v =
      let (checked, ran, h1) =
        and_then-ok (verify_cms k.x k.cms_tools content external) _ (result, rows') h in
      with_pem checked ran checked.signer_cert_pem refl h1
    where
      with_signer :
          (checked : CmsResult) (signer : k.x.Cert) (pem : String)
          → verify_cms k.x k.cms_tools content external ≡ inr checked
          → checked.signer_cert_pem ≡ some pem
          → k.load_pem pem ≡ inr signer
          → (extra : List k.x.Cert)
          → cms_result k checked signer extra anchors at_time now rows ≡ (result, rows')
          → IsSignedCms content external anchors result
      with_signer checked signer pem ran has_pem loaded extra e =
          let (verified, fresh, rest, path) =
            chained checked signer extra anchors at_time now rows (ap (λ r. r.0.verdict) e ∙ v) in
          let signed = verify_cms-IsSigned k.x k.cms_tools content external checked ran verified in
          record {
            checked = checked;
            signed = signed;
            signer = signer;
            extra = extra;
            loaded = ap k.load_pem (some-value _ _ (sym signed.pem ∙ has_pem)) ∙ loaded;
            fresh = sym (ap (λ r. says_revoked r.0.revocation) e) ∙ fresh;
            rest = rest;
            path = path;
          }

      with_pem :
          (checked : CmsResult)
          → verify_cms k.x k.cms_tools content external ≡ inr checked
          → (pem : Option String) → checked.signer_cert_pem ≡ pem
          → by_signer k checked pem anchors at_time now rows ≡ inr (result, rows')
          → IsSignedCms content external anchors result
      with_pem checked ran none no_pem e =
          let verified =
            (decide-valid_iff checked.verified none none).0.0
              (ap (λ r. r.0.verdict) (ok-value _ _ e) ∙ v) in
          let signed =
            verify_cms-IsSigned k.x k.cms_tools content external checked ran verified.0 in
          elim (some-none _ (sym signed.pem ∙ no_pem)) [ ]
      with_pem checked ran (some pem) has_pem e =
          let (signer, loaded, e1) = and_then-ok (k.load_pem pem) _ (result, rows') e in
          let (extra, more, e2) =
            and_then-ok (load_all k checked.extra_certs_pem) _ (result, rows') e1 in
          with_signer checked signer pem ran has_pem loaded extra (ok-value _ _ e2)
