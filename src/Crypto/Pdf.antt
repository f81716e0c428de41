-- ===== src/Crypto/Pdf.antt =====
-- backend/app/services/crypto/pdf_pades.py: the report on the signatures of a PDF. What pyHanko says
-- of each signature is the record `PdfTools`; the text of an exception is given with it.
use Prim.Native.String.{◌++◌ as append_str}
use egreen_quanta_tes.Base.{
  ℕ, String, Bool, false, Option, none, some, List, [], ◌∷◌, ◌⊎◌, inl, inr, length, map,
}
use egreen_quanta_tes.Base.Bytes.{Bytes}
use egreen_quanta_tes.Crypto.Errors.{CryptoError, material_parse_error}

-- A validation status, with False, "" or None for an attribute that it lacks.
pub record PdfStatus : Type 0 where
  pub intact : Bool
  pub valid : Bool
  pub trusted : Bool
  pub coverage : String
  pub subject : Option String
  pub reported_time : Option String
  pub md_algorithm : Option String

pub record PdfTools : Type 1 where
  pub Root : Type 0
  pub PdfSig : Type 0
  -- `asn1_x509.Certificate.load` of the unarmored text, nothing where it raises ValueError.
  pub load_root : String → Option Root
  pub embedded_signatures : Bytes → String ⊎ List PdfSig
  pub field_name : PdfSig → String
  pub validate_signature : List Root → PdfSig → String ⊎ PdfStatus

pub record PdfSignatureReport : Type 0 where
  pub field_name : String
  pub intact : Bool
  pub valid : Bool
  pub trusted : Bool
  pub coverage : String
  pub signer_subject : Option String
  pub signing_time : Option String
  pub digest_algorithm : Option String
  pub errors : List String

pub record PdfReport : Type 0 where
  pub signature_count : ℕ
  pub signatures : List PdfSignatureReport

module _ (tools : PdfTools) where
  abbrev pub roots_of : List String → List tools.Root
  roots_of [] = []
  roots_of (blob ∷ rest) =
      let roots = roots_of rest in elim (tools.load_root blob) [ none ↦ roots | some r ↦ r ∷ roots ]

  abbrev report_status : String → String ⊎ PdfStatus → PdfSignatureReport
  report_status name (inl why) = record {
    field_name = name;
    intact = false;
    valid = false;
    trusted = false;
    coverage = "";
    signer_subject = none;
    signing_time = none;
    digest_algorithm = none;
    errors = append_str "validation error: " why ∷ [];
  }
  report_status name (inr status) = record {
    field_name = name;
    intact = status.intact;
    valid = status.valid;
    trusted = status.trusted;
    coverage = status.coverage;
    signer_subject = status.subject;
    signing_time = status.reported_time;
    digest_algorithm = status.md_algorithm;
    errors = [];
  }

  abbrev pub report_sig : List tools.Root → tools.PdfSig → PdfSignatureReport
  report_sig roots sig = report_status (tools.field_name sig) (tools.validate_signature roots sig)

  -- `validate_pdf`
  abbrev pub report_all : List tools.Root → String ⊎ List tools.PdfSig → CryptoError ⊎ PdfReport
  report_all roots (inl why) = inl (material_parse_error (append_str "Unreadable PDF: " why))
  report_all roots (inr sigs) =
      inr (record { signature_count = length sigs; signatures = map (report_sig roots) sigs })

  unfoldable pub validate_pdf : Bytes → List String → CryptoError ⊎ PdfReport
  validate_pdf content roots_pem =
      report_all (roots_of roots_pem) (tools.embedded_signatures content)
