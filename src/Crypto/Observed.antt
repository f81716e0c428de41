-- ===== src/Crypto/Observed.antt =====
-- `_persist_certificate` of backend/app/services/crypto/engine.py, over the table of
-- backend/app/models/certificate.py.
pub mod Sightings
mod Tests
use Prim.Native.String.{compare}
use package.text.Mathlib.Text.{is_lt}
use egreen_quanta_tes.Base.{
  ℕ, ◌+◌, String, Bool, true, false, not, ◌&&◌, Option, none, some, List, [], ◌∷◌, ◌++◌, map,
  str_eq, keep, take, find, if◌then◌else◌,
}
use egreen_quanta_tes.Crypto.Types.{X509, CryptoFinding, high, policy, text, when}
use egreen_quanta_tes.Crypto.Path.{spki_sha256, cert_info}

-- `Certificate`
pub record Certificate : Type 0 where
  pub spki_sha256 : String
  pub fingerprint_sha256 : String
  pub subject : String
  pub issuer : String
  pub serial_hex : String
  pub not_before : ℕ
  pub not_after : ℕ
  pub sig_algo : String
  pub key_type : String
  pub key_bits : Option ℕ
  pub curve : Option String
  pub is_ca : Bool
  pub self_signed : Bool
  pub pem : String
  pub times_seen : ℕ
  pub first_seen_at : ℕ
  pub last_seen_at : ℕ

-- `sorted(set(xs))`
abbrev insert_new : String → List String → List String
insert_new s [] = s ∷ []
insert_new s (x ∷ xs) =
    let later = insert_new s xs in
    if str_eq s x then x ∷ xs else if is_lt (compare s x) then s ∷ x ∷ xs else x ∷ later

abbrev sorted_set : List String → List String
sorted_set [] = []
sorted_set (x ∷ xs) = insert_new x (sorted_set xs)

-- `", ".join(xs)`
abbrev join : List String → String
join [] = ""
join (x ∷ []) = x
join (x ∷ y ∷ ys) = text (x ∷ ", " ∷ join (y ∷ ys) ∷ [])

-- `select(Certificate).where(Certificate.fingerprint_sha256 == fp)`
abbrev pub by_fingerprint : String → List Certificate → Option Certificate
by_fingerprint fp rows = find (λ r. str_eq r.fingerprint_sha256 fp) rows

-- The row that was found is counted once more.
unfoldable pub touch : ℕ → String → List Certificate → List Certificate
touch now fp [] = []
touch now fp (r ∷ rs) =
    let rest = touch now fp rs in
    if str_eq r.fingerprint_sha256 fp
    then record r { times_seen = r.times_seen + 1; last_seen_at = now } ∷ rs
    else r ∷ rest

-- The rows with the key under another subject.
abbrev pub is_other_identity : String → String → Certificate → Bool
is_other_identity spki subject r = str_eq r.spki_sha256 spki && not (str_eq r.subject subject)

abbrev pub reuse_findings : List Certificate → List CryptoFinding
reuse_findings [] = []
reuse_findings (r ∷ rs) =
    record {
      code = "T11";
      title = "Public key reused across identities";
      severity = high;
      category = policy;
      detail = text (
          "SPKI also seen under: "
          ∷ join (take 3 (sorted_set (map (λ r. r.subject) (r ∷ rs))))
          ∷ []);
    }
    ∷ []

module _ (x : X509) (now : ℕ) where
  unfoldable pub fingerprint : x.Cert → String
  fingerprint c = x.sha256_hex (x.der_bytes c)

  unfoldable pub new_row : x.Cert → Certificate
  unfolding fingerprint
  new_row c =
      let info = cert_info x c in
      record {
        spki_sha256 = spki_sha256 x c;
        fingerprint_sha256 = fingerprint c;
        subject = info.subject;
        issuer = info.issuer;
        serial_hex = info.serial_hex;
        not_before = info.not_before;
        not_after = info.not_after;
        sig_algo = info.sig_algo;
        key_type = info.key.key_type;
        key_bits = info.key.key_bits;
        curve = info.key.curve;
        is_ca = info.is_ca;
        self_signed = info.self_signed;
        pem = info.pem;
        times_seen = 1;
        first_seen_at = now;
        last_seen_at = now;
      }

  unfoldable pub persist_certificate :
      x.Cert → List Certificate → List CryptoFinding × List Certificate
  persist_certificate c rows = elim (by_fingerprint (fingerprint c) rows) [
    | some row ↦ ([], touch now (fingerprint c) rows)
    | none ↦ (
      reuse_findings (keep (is_other_identity (spki_sha256 x c) (cert_info x c).subject) rows),
      rows ++ new_row c ∷ [],
    )
  ]
