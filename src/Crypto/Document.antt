-- ===== src/Crypto/Document.antt =====
-- `verify_document`, `_looks_like_image` and `_verify_image` of
-- backend/app/services/crypto/engine.py: which envelope an upload is, by its name and its first bytes.
pub mod Valid
mod OwnKey
mod Tests
use egreen_quanta_tes.Base.{
  ℕ, ◌==◌, String, Bool, true, false, not, ◌&&◌, ◌||◌, Option, none, some, List, [], ◌∷◌, ◌++◌, ◌⊎◌,
  inl, inr, any, take, str_eq, if◌then◌else◌,
}
use egreen_quanta_tes.Base.Text.{lower}
use egreen_quanta_tes.Base.Bytes.{
  Bytes, ascii, same_bytes, has_prefix, has_infix, count_byte, drop_bytes, is_filled,
}
use egreen_quanta_tes.Crypto.Types.{Verdict, indeterminate}
use egreen_quanta_tes.Crypto.Errors.{CryptoError, material_parse_error, and_then}
use egreen_quanta_tes.Crypto.Observed.{Certificate}
use egreen_quanta_tes.Crypto.Result.{VerificationResult, image}
use egreen_quanta_tes.Crypto.Signed.{Toolkit, verify_jws, verify_cms_document, verify_pdf}

-- `s.endswith(p)` for one of the texts p.
abbrev ends_with : String → String → Bool
ends_with p String.[] = str_eq p ""
ends_with p (String.◌∷◌ c s) = str_eq p (String.◌∷◌ c s) || ends_with p s

unfoldable pub ends_with_any : List String → String → Bool
ends_with_any ps s = any (λ p. ends_with p s) ps

-- `_looks_like_image`
unfoldable pub looks_like_image : Bytes → String → Bool
looks_like_image content filename =
    has_prefix (255 ∷ 216 ∷ 255 ∷ []) content
    || has_prefix (137 ∷ ascii "PNG" ++ 13 ∷ 10 ∷ 26 ∷ 10 ∷ []) content
    || (has_prefix (ascii "GIF87a") content || has_prefix (ascii "GIF89a") content)
    || has_prefix (ascii "BM") content
    || (has_prefix (ascii "RIFF") content
        && same_bytes (take 4 (drop_bytes 8 content)) (ascii "WEBP"))
    || (has_prefix (ascii "II*" ++ 0 ∷ []) content
        || has_prefix (ascii "MM" ++ 0 ∷ 42 ∷ []) content)
    || (ends_with_any
          (".jpg" ∷ ".jpeg" ∷ ".png" ∷ ".gif" ∷ ".bmp" ∷ ".webp" ∷ ".tif" ∷ ".tiff" ∷ []) filename
        && is_filled content)

unfoldable pub is_pdf : Bytes → String → Bool
is_pdf content name =
    ends_with_any (".pdf" ∷ []) name || same_bytes (take 5 content) (ascii "%PDF-")

unfoldable pub is_jws : Bytes → String → Bool
is_jws content name =
    ends_with_any (".jws" ∷ ".jwt" ∷ []) name
    || (same_bytes (take 2 content) (ascii "ey") && count_byte b'.' content == 2)

unfoldable pub is_cms : Bytes → String → Bool
is_cms content name =
    ends_with_any (".p7s" ∷ ".p7m" ∷ ".p7b" ∷ ".p7c" ∷ ".cms" ∷ ".der" ∷ ".pkcs7" ∷ []) name
    || same_bytes (take 1 content) (48 ∷ [])
    || (has_infix (ascii "-----BEGIN") (take 256 content)
        && (has_infix (ascii "PKCS7") (take 256 content)
            || has_infix (ascii "CMS") (take 256 content)))

-- `_verify_image`
unfoldable pub verify_image : String → VerificationResult
verify_image digest = record {
  verdict = indeterminate;
  envelope = image;
  signature = none;
  signer = none;
  chain = none;
  revocation = none;
  signing_time = none;
  tsa_present = false;
  tsa_trusted = false;
  findings = [];
  payload_sha256 = some digest;
  summary =
      "Image/scan received. Cryptographic verification is INSUFFICIENT / NOT AVAILABLE. Extracted certificate fields may be compared with an Admin trusted record, but that correspondence is not cryptographic proof.";
  trusted_record_status = "NOT_CHECKED";
  cryptographic_verification = "INSUFFICIENT / NOT AVAILABLE";
  overall_result = "INDETERMINATE";
}

abbrev pub unrecognised : CryptoError
unrecognised =
    material_parse_error
      "Unrecognised file. Upload a signed PDF (starts with %PDF-), a CMS/PKCS#7 signature (.p7s / .p7m, DER or PEM), or a compact JWS token. This file matches none of those."

-- Which of the engine's paths an upload takes.
pub data Kind : Type 0 where
  as_pdf as_jws as_image as_cms as_nothing : Kind

unfoldable pub kind_of : Bytes → String → Kind
kind_of content name =
    if is_pdf content name
    then as_pdf
    else if is_jws content name
    then as_jws
    else if looks_like_image content name
    then as_image
    else if is_cms content name
    then as_cms
    else as_nothing

module _ (k : Toolkit) where
  abbrev pub with_rows :
      List Certificate → VerificationResult → CryptoError ⊎ (VerificationResult × List Certificate)
  with_rows rows result = inr (result, rows)

  unfoldable pub verify_as :
      Kind
      → Bytes
      → Option Bytes
      → List k.x.Cert
      → ℕ
      → ℕ
      → List Certificate
      → CryptoError ⊎ (VerificationResult × List Certificate)
  verify_as as_pdf content external anchors at_time now rows =
      and_then (verify_pdf k content anchors) (with_rows rows)
  verify_as as_jws content external anchors at_time now rows =
      and_then (verify_jws k content) (with_rows rows)
  verify_as as_image content external anchors at_time now rows =
      with_rows rows (verify_image (k.sha256_hex content))
  verify_as as_cms content external anchors at_time now rows =
      verify_cms_document k content external anchors at_time now rows
  verify_as as_nothing content external anchors at_time now rows = inl unrecognised

  -- `verify_document`
  unfoldable pub verify_document :
      String
      → Bytes
      → Option Bytes
      → List k.x.Cert
      → ℕ
      → ℕ
      → List Certificate
      → CryptoError ⊎ (VerificationResult × List Certificate)
  verify_document filename content external anchors at_time now rows =
      verify_as (kind_of content (lower filename)) content external anchors at_time now rows
