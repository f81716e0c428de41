-- ===== src/Crypto/Document/OwnKey.antt =====
-- The JWS path of `verify_document`: on what its verdict rests.
use egreen_quanta_tes.Base.{ℕ, String, ◌≡◌, refl, sym, ap, ◌∙◌, ◌↔◌, Option, List, inr}
use egreen_quanta_tes.Base.Text.{lower}
use egreen_quanta_tes.Base.Bytes.{Bytes}
use egreen_quanta_tes.Crypto.Types.{valid}
use egreen_quanta_tes.Crypto.Errors.{and_then, and_then-ok, ok-value}
use egreen_quanta_tes.Crypto.Observed.{Certificate}
use egreen_quanta_tes.Crypto.Result.{VerificationResult}
use egreen_quanta_tes.Crypto.Signed.{Toolkit, verify_jws}
use egreen_quanta_tes.Crypto.Signed.Valid.{
  IsSignedJws, verify_jws-IsSignedJws, IsSignedJws-verify_jws,
}
use egreen_quanta_tes.Crypto.Document.{as_jws, kind_of, verify_as, verify_document, with_rows}

module _ (k : Toolkit) (filename : String) (content : Bytes) (external : Option Bytes)
    (anchors : List k.x.Cert) (at_time now : ℕ) (rows : List Certificate) where
  -- The call returns a result, and its verdict is valid.
  abbrev pub IsCalledValid : Type 0
  IsCalledValid =
      (result : VerificationResult) × (rows' : List Certificate) × (verify_document k filename
          content external anchors at_time now rows
        ≡ inr (result, rows'))
      × (result.verdict ≡ valid)

  as_token :
      kind_of content (lower filename) ≡ as_jws
      → verify_document k filename content external anchors at_time now rows
        ≡ and_then (verify_jws k content) (with_rows k rows)
  unfolding verify_document verify_as
  as_token kind = rw kind refl

  -- Whatever the trust anchors, the time of the check and the table of certificates are, a file that
  -- takes the JWS path is called valid exactly when its token has three segments, carries a first
  -- certificate that loads, and is decoded under the key of that certificate by an algorithm of the
  -- table that its header names. On the right there is no trust anchor, no date, no issuer of the
  -- certificate and no revocation of it.
  pub verify_document-IsSignedJws_iff :
      kind_of content (lower filename) ≡ as_jws → IsCalledValid ↔ IsSignedJws k content
  verify_document-IsSignedJws_iff kind = (forward, backward)
    where
      forward : IsCalledValid → IsSignedJws k content
      forward (result, rows', h, v) =
          let (r, ran, e) =
            and_then-ok (verify_jws k content) (with_rows k rows) (result, rows')
              (sym (as_token kind) ∙ h) in
          verify_jws-IsSignedJws k content r ran (ap (λ p. p.0.verdict) (ok-value _ _ e) ∙ v)

      backward : IsSignedJws k content → IsCalledValid
      backward own =
          let (result, ran, v) = IsSignedJws-verify_jws k content own in
          (result, rows, as_token kind ∙ ap (λ r. and_then r (with_rows k rows)) ran, v)
