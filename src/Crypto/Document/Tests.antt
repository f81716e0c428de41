-- ===== src/Crypto/Document/Tests.antt =====
-- A toolkit for which every signature is good, and the theorems about documents at it.
use egreen_quanta_tes.Base.{ℕ, ◌≡◌, ◌↔◌, refl, true, none, some, List, [], ◌∷◌, inr}
use egreen_quanta_tes.Base.Text.{lower, strip}
use egreen_quanta_tes.Base.Bytes.{Bytes, ascii}
use egreen_quanta_tes.Crypto.Types.{valid}
use egreen_quanta_tes.Crypto.Jws.{JwsHeader, payload, parse_header, check_header, params_of_alg}
use egreen_quanta_tes.Crypto.Pdf.{PdfSignatureReport, report_sig, validate_pdf}
use egreen_quanta_tes.Crypto.Signed.{Toolkit, pdf_result, verify_pdf, pdf_verdict}
use egreen_quanta_tes.Crypto.Signed.Valid.{IsSignedJws}
use egreen_quanta_tes.Crypto.Document.{
  as_jws, is_jws, kind_of, is_pdf, ends_with_any, verify_as, verify_document,
}
use egreen_quanta_tes.Crypto.Document.OwnKey.{IsCalledValid, verify_document-IsSignedJws_iff}
use egreen_quanta_tes.Crypto.Document.Valid.{IsSigned, verify_document-IsSigned}
use egreen_quanta_tes.Crypto.Engine.Tests.{plain, offline, no_urls, repr}
use egreen_quanta_tes.Crypto.Raw.Tests.{toy}
use egreen_quanta_tes.Crypto.Cms.Tests.{toy as toy_cms}

abbrev header : JwsHeader
header = record { alg = some "ES256"; x5c = some ("cert" ∷ []) }

abbrev kit : Toolkit
kit = record {
  x = plain;
  net = offline;
  ocsp_urls = no_urls;
  crl_urls = no_urls;
  repr = repr;
  keys = toy;
  public_key = λ c. c;
  cms_tools = toy_cms [];
  jws_tools = record {
    get_unverified_header = λ token. inr header;
    decode = λ token key alg. payload (5 ∷ []);
  };
  pdf_tools = record {
    Root = ℕ;
    PdfSig = ℕ;
    load_root = λ pem. some 0;
    embedded_signatures = λ content. inr (1 ∷ 2 ∷ []);
    field_name = λ sig. "Signature";
    validate_signature = λ roots sig. inr (record {
      intact = true;
      valid = true;
      trusted = true;
      coverage = "";
      subject = none;
      reported_time = none;
      md_algorithm = some "sha256";
    });
  };
  sha256_hex = λ b. "digest";
  load_pem = λ pem. inr 7;
  load_x5c = λ text. some 7;
  decode_ascii = λ b. "a.b.c";
  fromisoformat = λ t. none;
}

abbrev pdf_bytes : Bytes
pdf_bytes = ascii "%PDF-1.7"

abbrev two_reports : List PdfSignatureReport
two_reports = report_sig kit.pdf_tools [] 1 ∷ report_sig kit.pdf_tools [] 2 ∷ []

is_signed :
    verify_document kit "report" pdf_bytes none (7 ∷ []) 5 9 []
    ≡ inr (pdf_result kit pdf_bytes 2 two_reports, [])
unfolding verify_document verify_as kind_of is_pdf ends_with_any verify_pdf validate_pdf lower
is_signed = refl

is_valid : (pdf_result kit pdf_bytes 2 two_reports).verdict ≡ valid
unfolding pdf_verdict
is_valid = refl

verify_document-IsSigned_example :
    IsSigned kit pdf_bytes none
      (7 ∷ [])
      (pdf_result kit pdf_bytes 2 two_reports)
      (kind_of pdf_bytes (lower "report"))
verify_document-IsSigned_example =
    verify_document-IsSigned kit pdf_bytes none (7 ∷ []) "report" 5 9 [] []
      (pdf_result kit pdf_bytes 2 two_reports) is_signed is_valid

-- The same kit on a token, with no anchor at all.
abbrev token_bytes : Bytes
token_bytes = ascii "ey.b.c"

is_token : kind_of token_bytes (lower "token.jws") ≡ as_jws
unfolding kind_of is_pdf is_jws ends_with_any lower
is_token = refl

verify_document-IsSignedJws_iff_example :
    IsCalledValid kit "token.jws" token_bytes none [] 5 9 [] ↔ IsSignedJws kit token_bytes
verify_document-IsSignedJws_iff_example =
    verify_document-IsSignedJws_iff kit "token.jws" token_bytes none [] 5 9 [] is_token

-- The token is signed under its own certificate, so it is valid.
own_token : IsSignedJws kit token_bytes
unfolding parse_header strip params_of_alg check_header
own_token = record {
  header = header;
  parsed = refl;
  first = "cert";
  rest = [];
  cert = 7;
  carried = refl;
  loaded = refl;
  outcome = check_header toy kit.jws_tools "ES256" "a.b.c" header 7;
  signed = record {
    is_compact = refl;
    header = header;
    parsed = refl;
    alg = "ES256";
    named = refl;
    is_some_alg = refl;
    params = (some "sha256", none);
    is_known = refl;
    content = 5 ∷ [];
    is_decoded = refl;
    is_content = refl;
  };
}

no_anchors_asked : IsCalledValid kit "token.jws" token_bytes none [] 5 9 []
no_anchors_asked =
    (verify_document-IsSignedJws_iff kit "token.jws" token_bytes none [] 5 9 [] is_token).1
      own_token
