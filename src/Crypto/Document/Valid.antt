-- ===== src/Crypto/Document/Valid.antt =====
-- What the verdict "valid" of `verify_document` means.
use egreen_quanta_tes.Base.{ℕ, String, ◌≡◌, ap, ◌∙◌, Option, List, inr, arith}
use egreen_quanta_tes.Base.Text.{lower}
use egreen_quanta_tes.Base.Bytes.{Bytes}
use egreen_quanta_tes.Crypto.Types.{valid}
use egreen_quanta_tes.Crypto.Errors.{and_then-ok, ok-value}
use egreen_quanta_tes.Crypto.Observed.{Certificate}
use egreen_quanta_tes.Crypto.Result.{VerificationResult}
use egreen_quanta_tes.Crypto.Signed.{Toolkit, verify_pdf, verify_jws}
use egreen_quanta_tes.Crypto.Signed.Valid.{
  IsSignedPdf, IsSignedJws, IsSignedCms, verify_pdf-IsSignedPdf, verify_jws-IsSignedJws,
  verify_cms_document-IsSignedCms, not_valid,
}
use egreen_quanta_tes.Crypto.Document.{
  Kind, as_pdf, as_jws, as_image, as_cms, as_nothing, kind_of, verify_as, verify_document,
  verify_image, with_rows,
}

module _ (k : Toolkit) (content : Bytes) (external : Option Bytes) (anchors : List k.x.Cert) where
  -- What is shown of an upload by the path that it takes.
  pub data IsSigned (result : VerificationResult) : Kind → Type 0 where
    pdf_signed : IsSignedPdf k content anchors → IsSigned result as_pdf
    jws_signed : IsSignedJws k content → IsSigned result as_jws
    cms_signed : IsSignedCms k content external anchors result → IsSigned result as_cms

  by_kind :
      (kind : Kind) (at_time now : ℕ) (rows rows' : List Certificate) (result : VerificationResult)
      → verify_as k kind content external anchors at_time now rows ≡ inr (result, rows')
      → result.verdict ≡ valid
      → IsSigned result kind
  unfolding verify_as verify_image
  by_kind as_pdf at_time now rows rows' result h v =
      let (r, ran, e) =
        and_then-ok (verify_pdf k content anchors) (with_rows k rows) (result, rows') h in
      pdf_signed (
        verify_pdf-IsSignedPdf k content anchors r ran (ap (λ p. p.0.verdict) (ok-value _ _ e) ∙ v))
  by_kind as_jws at_time now rows rows' result h v =
      let (r, ran, e) = and_then-ok (verify_jws k content) (with_rows k rows) (result, rows') h in
      jws_signed
        (verify_jws-IsSignedJws k content r ran (ap (λ p. p.0.verdict) (ok-value _ _ e) ∙ v))
  by_kind as_image at_time now rows rows' result h v =
      elim (not_valid (ap (λ p. p.0.verdict) (ok-value _ _ h) ∙ v)) [ ]
  by_kind as_cms at_time now rows rows' result h v =
      cms_signed (
        verify_cms_document-IsSignedCms k content external anchors at_time now rows rows' result h
          v)
  by_kind as_nothing at_time now rows rows' result h v = ground arith

  -- When `verify_document` calls an upload valid, it took one of the three paths for signed envelopes,
  -- and there: a PDF has a signature and every one is intact, valid and trusted; the first signer of a
  -- CMS has signed and has a path to an anchor, with no revocation found; a JWS verifies under the key
  -- of the certificate that it carries.
  pub verify_document-IsSigned :
      (filename : String) (at_time now : ℕ) (rows rows' : List Certificate)
      (result : VerificationResult)
      → verify_document k filename content external anchors at_time now rows ≡ inr (result, rows')
      → result.verdict ≡ valid
      → IsSigned result (kind_of content (lower filename))
  unfolding verify_document
  verify_document-IsSigned filename at_time now rows rows' result h v =
      by_kind (kind_of content (lower filename)) at_time now rows rows' result h v
