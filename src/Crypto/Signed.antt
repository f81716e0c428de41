-- ===== src/Crypto/Signed.antt =====
-- `_verify_jws`, `_verify_cms` and `_verify_pdf` of backend/app/services/crypto/engine.py: what the
-- engine makes of an envelope. All that the libraries give is the record `Toolkit`.
pub mod Valid
use Prim.Native.String.{◌++◌ as append_str}
use egreen_quanta_tes.Base.{
  ℕ, zero, suc, String, Bool, true, false, not, ◌&&◌, ◌||◌, Option, none, some, List, [], ◌∷◌, ◌++◌,
  ◌⊎◌, inl, inr, any, if◌then◌else◌,
}
use egreen_quanta_tes.Base.Text.{is_in, is_set, lower, strip}
use egreen_quanta_tes.Base.Bytes.{Bytes, is_filled}
use egreen_quanta_tes.Crypto.Types.{
  X509, CryptoFinding, Verdict, valid, invalid, indeterminate, low, medium, high, critical, policy,
  forgery, timestamp, FindingCategory, text, when,
}
use egreen_quanta_tes.Crypto.Errors.{CryptoError, unhandled, and_then}
use egreen_quanta_tes.Crypto.Path.{cert_info}
use egreen_quanta_tes.Crypto.Verdict.{decide}
use egreen_quanta_tes.Crypto.WeakAlgo.{SignatureParams, signature_findings, certificate_findings}
use egreen_quanta_tes.Crypto.Revocation.{Network}
use egreen_quanta_tes.Crypto.Observed.{Certificate, persist_certificate}
use egreen_quanta_tes.Crypto.Raw.{Keys}
use egreen_quanta_tes.Crypto.Cms.{CmsTools, CmsResult, verify_cms}
use egreen_quanta_tes.Crypto.Jws.{
  JwsTools, JwsHeader, JwsResult, alg_or, parse_header, verify_compact,
}
use egreen_quanta_tes.Crypto.Pdf.{PdfTools, PdfSignatureReport, PdfReport, validate_pdf}
use egreen_quanta_tes.Crypto.Result.{VerificationResult, pdf, cms, jws, result_of, summarize, join}
use egreen_quanta_tes.Crypto.Engine.{chain_and_revocation}

-- `load_pem` is the first certificate of `load_certificates`; `load_x5c` decodes and loads a DER
-- certificate, nothing where that raises; `decode_ascii` drops what is not ASCII.
pub record Toolkit : Type 1 where
  pub x : X509
  pub net : Network
  pub ocsp_urls : x.Cert → List String
  pub crl_urls : x.Cert → List String
  pub repr : List String → String
  pub keys : Keys
  pub public_key : x.Cert → keys.PublicKey
  pub cms_tools : CmsTools x
  pub jws_tools : JwsTools keys
  pub pdf_tools : PdfTools
  pub sha256_hex : Bytes → String
  pub load_pem : String → CryptoError ⊎ x.Cert
  pub load_x5c : String → Option x.Cert
  pub decode_ascii : Bytes → String
  pub fromisoformat : String → Option ℕ

-- `text or default`
abbrev or_else : String → String → String
or_else s default = if is_set s then s else default

abbrev failure_text : Option String → String
failure_text none = "verification failed"
failure_text (some s) = or_else s "verification failed"

abbrev forged : String → String → CryptoFinding
forged title detail = record {
  code = "T01";
  title = title;
  severity = critical;
  category = forgery;
  detail = detail;
}

abbrev hash_of : Option Bytes → (Bytes → String) → Option String
hash_of none hash = none
hash_of (some b) hash = if is_filled b then some (hash b) else none

abbrev plain_params : String → Option String → SignatureParams
plain_params name hash = record {
  algorithm = name;
  hash_alg = hash;
  padding = none;
  key = none;
  low_s = none;
  der_canonical = none;
}

abbrev pub time_or : Option ℕ → ℕ → ℕ
time_or none at_time = at_time
time_or (some t) at_time = t

-- The reports on the signatures of a PDF: whether one is broken, whether one that is not is
-- untrusted, and the findings.
abbrev pub is_broken : PdfSignatureReport → Bool
is_broken sig = not sig.intact || not sig.valid

abbrev pub any_broken : List PdfSignatureReport → Bool
any_broken sigs = any is_broken sigs

abbrev pub any_untrusted : List PdfSignatureReport → Bool
any_untrusted sigs = any (λ s. not (is_broken s) && not s.trusted) sigs

abbrev weak_digest : Option String → List CryptoFinding
weak_digest none = []
weak_digest (some d) = when (is_set d && is_in (lower d) ("md5" ∷ "sha1" ∷ [])) (record {
  code = "T02";
  title = "PDF signature uses a weak digest";
  severity = high;
  category = FindingCategory.weak_crypto;
  detail = append_str "digest = " d;
})

abbrev pdf_sig_findings : PdfSignatureReport → List CryptoFinding
pdf_sig_findings sig =
    (if is_broken sig
      then forged (text ("PDF signature '" ∷ sig.field_name ∷ "' is not valid" ∷ []))
          (or_else (text (join "; " sig.errors)) "signature not intact / invalid")
        ∷ []
      else when (not sig.trusted) (record {
        code = "T07";
        title = text ("PDF signature '" ∷ sig.field_name ∷ "' chains to an untrusted anchor" ∷ []);
        severity = high;
        category = FindingCategory.chain;
        detail = "Signer chain does not terminate in the configured trust store.";
      }))
    ++ weak_digest sig.digest_algorithm

unfoldable pub pdf_findings : List PdfSignatureReport → List CryptoFinding
unfolding lower
pdf_findings [] = []
pdf_findings (sig ∷ sigs) = pdf_sig_findings sig ++ pdf_findings sigs

unfoldable pub pdf_verdict : List PdfSignatureReport → Verdict
pdf_verdict sigs =
    if any_broken sigs then invalid else if any_untrusted sigs then indeterminate else valid

-- The first signing time that parses.
abbrev pdf_time : (String → Option ℕ) → List PdfSignatureReport → Option ℕ
pdf_time parse [] = none
pdf_time parse (sig ∷ sigs) = first_time (time_of parse sig.signing_time) (pdf_time parse sigs)
  where
    time_of : (String → Option ℕ) → Option String → Option ℕ
    time_of parse none = none
    time_of parse (some t) = if is_set t then parse t else none

    first_time : Option ℕ → Option ℕ → Option ℕ
    first_time none later = later
    first_time (some t) later = some t

module _ (k : Toolkit) where
  abbrev x : X509
  x = k.x

  -- `_verify_jws`
  abbrev no_certificate : String → VerificationResult
  no_certificate alg =
      result_of indeterminate jws (some (plain_params (text ("jws-" ∷ lower alg ∷ [])) none)) none
        none none none false
        (record {
          code = "T13";
          title = "JWS carries no embedded certificate";
          severity = low;
          category = policy;
          detail = "No x5c header; supply the signer key via the raw endpoint to verify.";
        }
          ∷ [])
        none "JWS parsed; no key material to verify against."

  abbrev pub jws_result : x.Cert → JwsResult → VerificationResult
  jws_result cert outcome =
      let verdict = if outcome.verified then valid else invalid in
      let findings =
        when (not outcome.verified)
          (forged "JWS signature does not verify" (failure_text outcome.failure))
        ++ signature_findings k.net.decimal outcome.params none in
      result_of verdict jws (some outcome.params) (some (cert_info x cert)) none none none false
        findings (hash_of outcome.content k.sha256_hex)
        (summarize k.net.decimal verdict (some outcome.params) none none findings)

  abbrev pub with_x5c : Option x.Cert → String → CryptoError ⊎ VerificationResult
  with_x5c none token = inl unhandled
  with_x5c (some cert) token =
      and_then (verify_compact k.keys k.jws_tools token (k.public_key cert))
        (λ outcome. inr (jws_result cert outcome))

  abbrev pub by_header :
      JwsHeader → Option (List String) → String → CryptoError ⊎ VerificationResult
  by_header header none token = inr (no_certificate (alg_or header.alg "?"))
  by_header header (some []) token = inr (no_certificate (alg_or header.alg "?"))
  by_header header (some (first ∷ rest)) token = with_x5c (k.load_x5c first) token

  unfoldable pub verify_jws : Bytes → CryptoError ⊎ VerificationResult
  verify_jws content =
      let token = strip (k.decode_ascii content) in
      and_then (parse_header k.keys k.jws_tools token) (λ header. by_header header header.x5c token)

  -- `_verify_cms`
  abbrev cms_params : CmsResult → SignatureParams
  cms_params r =
      plain_params (append_str "cms-" r.signature_alg)
        (if is_set r.digest_alg then some r.digest_alg else none)

  abbrev cms_start : CmsResult → List CryptoFinding
  cms_start r =
      when (not r.verified) (
        forged "CMS signature does not verify"
          (or_else (text (join "; " r.errors)) "verification failed"))
      ++ when (not r.tsa_present) (record {
        code = "T13";
        title = "No trusted timestamp token";
        severity = low;
        category = timestamp;
        detail = "CMS SignerInfo has no RFC 3161 signature-timestamp attribute.";
      })

  abbrev pub load_all : List String → CryptoError ⊎ List x.Cert
  load_all [] = inr []
  load_all (pem ∷ rest) =
      and_then (k.load_pem pem) (λ c. and_then (load_all rest) (λ cs. inr (c ∷ cs)))

  abbrev pub cms_result :
      CmsResult
      → x.Cert
      → List x.Cert
      → List x.Cert
      → ℕ
      → ℕ
      → List Certificate
      → VerificationResult × List Certificate
  cms_result r signer extra anchors at_time now rows =
      let info = cert_info x signer in
      let params : SignatureParams = record {
        algorithm = (cms_params r).algorithm;
        hash_alg = (cms_params r).hash_alg;
        padding = none;
        key = some info.key;
        low_s = none;
        der_canonical = none;
      } in
      let (reused, rows') = persist_certificate x now signer rows in
      let (chain, revocation, path) =
        chain_and_revocation x k.net k.ocsp_urls k.crl_urls k.repr signer extra anchors
          (time_or r.time_of_signing at_time) in
      let verdict = decide r.verified (some chain) (some revocation) in
      let findings =
        cms_start r
        ++ signature_findings k.net.decimal params none
        ++ certificate_findings k.net.decimal k.repr info none
        ++ reused
        ++ path in
      (
        result_of verdict cms (some params) (some info) (some chain) (some revocation)
            r.time_of_signing r.tsa_present findings (hash_of r.content k.sha256_hex)
            (summarize k.net.decimal verdict (some params) (some chain) (some revocation) findings),
        rows',
      )

  abbrev pub cms_unsigned : CmsResult → List Certificate → VerificationResult × List Certificate
  cms_unsigned r rows =
      let verdict = decide r.verified none none in
      (
        result_of verdict cms (some (cms_params r)) none none none r.time_of_signing r.tsa_present
            (cms_start r) (hash_of r.content k.sha256_hex)
            (summarize k.net.decimal verdict (some (cms_params r)) none none (cms_start r)),
        rows,
      )

  abbrev pub by_signer :
      CmsResult
      → Option String
      → List x.Cert
      → ℕ
      → ℕ
      → List Certificate
      → CryptoError ⊎ (VerificationResult × List Certificate)
  by_signer r none anchors at_time now rows = inr (cms_unsigned r rows)
  by_signer r (some pem) anchors at_time now rows = and_then (k.load_pem pem) (λ signer.
      and_then (load_all r.extra_certs_pem)
        (λ extra. inr (cms_result r signer extra anchors at_time now rows)))

  unfoldable pub verify_cms_document :
      Bytes
      → Option Bytes
      → List x.Cert
      → ℕ
      → ℕ
      → List Certificate
      → CryptoError ⊎ (VerificationResult × List Certificate)
  verify_cms_document content external anchors at_time now rows =
      and_then (verify_cms x k.cms_tools content external)
        (λ r. by_signer r r.signer_cert_pem anchors at_time now rows)

  -- `_verify_pdf`
  abbrev pub pdf_result : Bytes → ℕ → List PdfSignatureReport → VerificationResult
  pdf_result content zero sigs =
      result_of indeterminate pdf (some (plain_params "pdf-pkcs7" none)) none none none none false
        (record {
          code = "T13";
          title = "PDF has no digital signature";
          severity = medium;
          category = policy;
          detail = "No embedded signature fields found.";
        }
          ∷ [])
        (some (k.sha256_hex content)) "Unsigned PDF."
  pdf_result content (suc n) sigs =
      let verdict = pdf_verdict sigs in
      let findings = pdf_findings sigs in
      result_of verdict pdf (some (plain_params "pdf-pkcs7" none)) none none none
        (pdf_time k.fromisoformat sigs) false findings (some (k.sha256_hex content))
        (summarize k.net.decimal verdict (some (plain_params "pdf-pkcs7" none)) none none findings)

  abbrev pub pems : List x.Cert → List String
  pems [] = []
  pems (c ∷ cs) = x.pem c ∷ pems cs

  unfoldable pub verify_pdf : Bytes → List x.Cert → CryptoError ⊎ VerificationResult
  verify_pdf content anchors =
      and_then (validate_pdf k.pdf_tools content (pems anchors))
        (λ report. inr (pdf_result content report.signature_count report.signatures))
