-- ===== src/Crypto/Path.antt =====
-- backend/app/services/crypto/x509_chain.py: path building and validation, and `cert_info` of
-- backend/app/services/crypto/x509_utils.py.
pub mod Linked
pub mod Sound
mod Tests
use egreen_quanta_tes.Base.{
  ℕ, zero, suc, ◌+◌, String, Bool, true, false, not, ◌&&◌, ◌||◌, Option, none, some, List, [], ◌∷◌,
  ◌++◌, map, str_eq, ltb, find, if◌then◌else◌,
}
use egreen_quanta_tes.Base.Text.{is_in}
use egreen_quanta_tes.Crypto.Types.{
  X509, CertInfo, CryptoFinding, ChainResult, trusted, untrusted, incomplete, error, critical, high,
  chain, validity, text, when,
}

-- What the loop of `build_and_validate` ends in: an anchor, a dead end, or twelve rounds without
-- either.
pub data Walk (C : Type 0) : Type 0 where
  anchored : String → List C → List CryptoFinding → Walk C
  untrusted_root no_issuer : String → List C → List CryptoFinding → Walk C
  too_long : List C → List CryptoFinding → Walk C

-- `_MAX_DEPTH`
abbrev pub max_depth : ℕ
max_depth = 12

module _ (x : X509) where
  -- `spki_sha256`
  unfoldable pub spki_sha256 : x.Cert → String
  spki_sha256 c = x.sha256_hex (x.public_bytes c)

  -- `_is_ca`
  unfoldable pub is_ca : x.Cert → Bool
  is_ca c = elim (x.basic_constraints c) [ none ↦ false | some (ca, n) ↦ ca ]

  -- `_path_length`
  unfoldable pub path_length : x.Cert → Option ℕ
  path_length c = elim (x.basic_constraints c) [ none ↦ none | some (ca, n) ↦ n ]

  -- `_can_sign_certs`
  unfoldable pub can_sign_certs : x.Cert → Bool
  can_sign_certs c = elim (x.key_cert_sign c) [ none ↦ true | some b ↦ b ]

  -- `cert_info`
  unfoldable pub cert_info : x.Cert → CertInfo
  unfolding spki_sha256 is_ca
  cert_info c = record {
    subject = x.rfc4514_string (x.subject c);
    issuer = x.rfc4514_string (x.issuer c);
    serial_hex = x.serial_hex c;
    not_before = x.not_valid_before c;
    not_after = x.not_valid_after c;
    spki_sha256 = spki_sha256 c;
    sig_algo = x.sig_algo c;
    key = x.key_params c;
    is_ca = is_ca c;
    self_signed = str_eq (x.rfc4514_string (x.subject c)) (x.rfc4514_string (x.issuer c));
    key_usage = x.key_usage c;
    ext_key_usage = x.ext_key_usage c;
    san = x.san c;
    pem = x.pem c;
  }

  abbrev quoted : x.Cert → String
  quoted c = text ("'" ∷ x.rfc4514_string (x.subject c) ∷ "'" ∷ [])

  -- `current.subject == current.issuer`
  abbrev pub self_signed : x.Cert → Bool
  self_signed c = x.same_name (x.subject c) (x.issuer c)

  -- What makes a candidate the issuer of the current certificate.
  unfoldable pub issues : x.Cert → x.Cert → Bool
  issues current cand =
      x.same_name (x.subject cand) (x.issuer current)
      && not (str_eq (spki_sha256 cand) (spki_sha256 current))
      && x.is_directly_issued_by current cand

  unfoldable pub next_issuer : List x.Cert → x.Cert → Option x.Cert
  next_issuer pool current =
      if self_signed current then none else find (λ cand. issues current cand) pool

  abbrev pub exceeds : Option ℕ → ℕ → Bool
  exceeds none depth = false
  exceeds (some n) depth = ltb n depth

  abbrev limit_text : Option ℕ → String
  limit_text none = "None"
  limit_text (some n) = x.decimal n

  abbrev chain_finding : String → String → String → CryptoFinding
  chain_finding code title detail = record {
    code = code;
    title = title;
    severity = high;
    category = chain;
    detail = detail;
  }

  -- The three checks on an issuer, at the given depth.
  pub issuer_findings : ℕ → x.Cert → List CryptoFinding
  issuer_findings depth i =
      when (not (is_ca i)) (record {
        code = "T06";
        title = "Issuer is not a CA";
        severity = critical;
        category = chain;
        detail = text (quoted i ∷ " lacks basicConstraints CA:TRUE." ∷ []);
      })
      ++ when (not (can_sign_certs i)) (
          chain_finding "T16" "Issuer lacks keyCertSign"
            (text (quoted i ∷ " KeyUsage omits keyCertSign." ∷ [])))
      ++ when (exceeds (path_length i) depth) (
          chain_finding "T06" "Path length constraint exceeded" (
            text (
              "pathLenConstraint="
              ∷ limit_text (path_length i)
              ∷ " exceeded at depth "
              ∷ x.decimal depth
              ∷ "."
              ∷ [])))

  -- No issuer was found.
  abbrev pub dead_end : x.Cert → List x.Cert → List CryptoFinding → Walk x.Cert
  dead_end current certs findings =
      if self_signed current
      then (let detail =
            text ("Self-signed root " ∷ quoted current ∷ " is not in the trust store." ∷ []) in
          untrusted_root detail certs
            (findings ++ chain_finding "T07" "Chain terminates at an untrusted root" detail ∷ []))
      else (let detail = text ("No issuer found for " ∷ quoted current ∷ "." ∷ []) in
          no_issuer detail certs
            (findings ++ chain_finding "T06" "Incomplete certificate chain" detail ∷ []))

  -- The loop, with the rounds that are left and the depth reached.
  unfoldable pub walk :
      List String → List x.Cert → ℕ → ℕ → List x.Cert → x.Cert → List CryptoFinding → Walk x.Cert
  unfolding next_issuer issuer_findings
  walk anchors pool zero depth certs current findings = too_long certs findings
  walk anchors pool (suc n) depth certs current findings =
      elim (is_in (spki_sha256 current) anchors) [
        | true ↦ anchored (spki_sha256 current) certs findings
        | false ↦ elim (next_issuer pool current) [
          | none ↦ dead_end current certs findings
          | some i ↦
              walk anchors pool n (suc depth) (certs ++ i ∷ []) i
                (findings ++ issuer_findings depth i)
        ]
      ]

  abbrev pub outside : ℕ → x.Cert → Bool
  outside at_time c = ltb at_time (x.not_valid_before c) || ltb (x.not_valid_after c) at_time

  -- The validity window of each certificate of the chain.
  unfoldable pub window_findings : ℕ → List x.Cert → List CryptoFinding
  window_findings at_time [] = []
  window_findings at_time (c ∷ cs) =
      when (outside at_time c) (record {
        code = "T08";
        title = "Certificate outside its validity window";
        severity = high;
        category = validity;
        detail = text (
            quoted c
            ∷ " valid "
            ∷ x.date (x.not_valid_before c)
            ∷ " to "
            ∷ x.date (x.not_valid_after c)
            ∷ ", checked at "
            ∷ x.date at_time
            ∷ "."
            ∷ []);
      })
      ++ window_findings at_time cs

  unfoldable pub conclude : ℕ → Walk x.Cert → ChainResult × List CryptoFinding
  unfolding window_findings
  conclude at_time (anchored spki certs findings) = (
    record {
      status = trusted;
      certs = map cert_info certs;
      trust_anchor_spki = some spki;
      failure = none;
    },
    findings ++ window_findings at_time certs,
  )
  conclude at_time (untrusted_root detail certs findings) = (
    record {
      status = untrusted;
      certs = map cert_info certs;
      trust_anchor_spki = none;
      failure = some detail;
    },
    findings,
  )
  conclude at_time (no_issuer detail certs findings) = (
    record {
      status = incomplete;
      certs = map cert_info certs;
      trust_anchor_spki = none;
      failure = some detail;
    },
    findings,
  )
  conclude at_time (too_long certs findings) = (
    record {
      status = error;
      certs = map cert_info certs;
      trust_anchor_spki = none;
      failure = some "chain too long";
    },
    findings,
  )

  unfoldable pub build_and_validate :
      x.Cert → List x.Cert → List x.Cert → ℕ → ChainResult × List CryptoFinding
  build_and_validate leaf extra_certs trust_anchors at_time = conclude at_time (
      walk (map spki_sha256 trust_anchors) (extra_certs ++ trust_anchors) max_depth 0 (leaf ∷ [])
        leaf [])
