-- ===== src/Crypto/Engine.antt =====
-- `_chain_and_revocation`, `verify_raw_signature` from the outcome of the check on, `validate_certificate` and the CA allow-list of
-- backend/app/services/crypto/engine.py, once the material is loaded. The URLs of a certificate are
-- read by the arguments `ocsp_urls` and `crl_urls`; `repr` writes a list into a text.
pub mod Valid
pub mod Tests
use egreen_quanta_tes.Base.{
  ℕ, String, Bool, true, false, not, ◌&&◌, ◌||◌, Option, none, some, List, [], ◌∷◌, ◌++◌, str_eq,
  find, if◌then◌else◌,
}
use egreen_quanta_tes.Base.Text.{lower, take_str}
use egreen_quanta_tes.Crypto.Types.{
  X509, Verdict, CertInfo, CryptoFinding, ChainResult, RevocationResult, critical, high, forgery,
  policy, text, when,
}
use egreen_quanta_tes.Crypto.Path.{cert_info, build_and_validate}
use egreen_quanta_tes.Crypto.Verdict.{decide, certificate_verdict}
use egreen_quanta_tes.Crypto.WeakAlgo.{
  SignatureParams, signature_findings, certificate_findings, occurs,
}
use egreen_quanta_tes.Crypto.Revocation.{Network, Checked, check_revocation}
use egreen_quanta_tes.Crypto.TrustStore.{CaAllowlistEntry}
use egreen_quanta_tes.Crypto.Raw.{RawVerifyOutcome}
use egreen_quanta_tes.Crypto.Result.{VerificationResult, raw, result_of, summarize}
use egreen_quanta_tes.Crypto.Observed.{Certificate, persist_certificate}

-- `chain.chain[1]`
abbrev second : List CertInfo → Option CertInfo
second [] = none
second (a ∷ []) = none
second (a ∷ b ∷ rest) = some b

-- `outcome.error or "cryptographic verification failed"`
abbrev error_text : Option String → String
error_text none = "cryptographic verification failed"
error_text (some s) = if str_eq s "" then "cryptographic verification failed" else s

abbrev not_verified : Option String → CryptoFinding
not_verified failure = record {
  code = "T01";
  title = "Signature does not verify";
  severity = critical;
  category = forgery;
  detail = error_text failure;
}

-- `_issuer_allowlist_findings`
abbrev same_key : Option String → String → Bool
same_key none key = false
same_key (some k) key = str_eq k key

abbrev key_of : Option CertInfo → Option String
key_of none = none
key_of (some i) = some i.spki_sha256

-- `(actual_issuer_spki or "unknown")[:16]`
abbrev short_key : Option String → String
short_key none = "unknown"
short_key (some s) = if str_eq s "" then "unknown" else take_str 16 s

unfoldable pub allowlist_findings :
    List CaAllowlistEntry → CertInfo → Option String → List CryptoFinding
unfolding lower
allowlist_findings [] info actual = []
allowlist_findings (e ∷ es) info actual =
    when
      (occurs (lower e.subject_pattern) (lower info.subject)
        && not (same_key actual e.issuer_spki_sha256))
      (record {
        code = "T12";
        title = "Unexpected issuing CA";
        severity = high;
        category = policy;
        detail = text (
            "'"
            ∷ info.subject
            ∷ "' should be issued by "
            ∷ take_str 16 e.issuer_spki_sha256
            ∷ "… but was issued by "
            ∷ short_key actual
            ∷ "…"
            ∷ []);
      })
    ++ allowlist_findings es info actual

module _ (x : X509) (net : Network) (ocsp_urls crl_urls : x.Cert → List String)
    (repr : List String → String) where
  -- The issuer that `check_revocation` is given: found by the text of its subject.
  abbrev knows_issuer : Option CertInfo → List x.Cert → Bool
  knows_issuer none certs = false
  knows_issuer (some i) certs =
      elim (find (λ c. str_eq (x.rfc4514_string (x.subject c)) i.subject) certs) [
        | none ↦ false
        | some c ↦ true
      ]

  -- `_chain_and_revocation`
  unfoldable pub chain_and_revocation :
      x.Cert → List x.Cert → List x.Cert → ℕ → ChainResult × RevocationResult × List CryptoFinding
  chain_and_revocation leaf extra anchors at_time =
      let (chain, findings) = build_and_validate x leaf extra anchors at_time in
      let done =
        check_revocation net (knows_issuer (second chain.certs) (extra ++ anchors)) (ocsp_urls leaf)
          (crl_urls leaf) in
      (chain, done.result, findings ++ done.findings)

  -- What `verify_raw_signature` makes of the outcome of the check: for a bare public key, or for a
  -- certificate with the others that came with it.
  abbrev pub start : RawVerifyOutcome → List CryptoFinding
  start outcome =
      when (not outcome.verified) (not_verified outcome.failure)
      ++ signature_findings net.decimal outcome.params none

  unfoldable pub raw_result :
      RawVerifyOutcome
      → Option (x.Cert × List x.Cert)
      → List x.Cert
      → String
      → ℕ
      → ℕ
      → List Certificate
      → VerificationResult × List Certificate
  raw_result outcome none anchors digest at_time now rows =
      let verdict = decide outcome.verified none none in
      (
        result_of verdict raw (some outcome.params) none none none none false (start outcome)
            (some digest)
            (summarize net.decimal verdict (some outcome.params) none none (start outcome)),
        rows,
      )
  raw_result outcome (some (leaf, extra)) anchors digest at_time now rows =
      let (reused, rows') = persist_certificate x now leaf rows in
      let (chain, revocation, path) = chain_and_revocation leaf extra anchors at_time in
      let verdict = decide outcome.verified (some chain) (some revocation) in
      let findings =
        start outcome
        ++ certificate_findings net.decimal repr (cert_info x leaf) none
        ++ reused
        ++ path in
      (
        result_of verdict raw (some outcome.params) (some (cert_info x leaf)) (some chain)
            (some revocation) none false findings (some digest)
            (summarize net.decimal verdict (some outcome.params) (some chain) (some revocation)
              findings),
        rows',
      )

  -- `validate_certificate`
  unfoldable pub validate_certificate :
      x.Cert
      → List x.Cert
      → Option String
      → List x.Cert
      → List CaAllowlistEntry
      → ℕ
      → ℕ
      → List Certificate
      → VerificationResult × List Certificate
  validate_certificate leaf extra expected_eku anchors allowed at_time now rows =
      let (reused, rows') = persist_certificate x now leaf rows in
      let (chain, revocation, path) = chain_and_revocation leaf extra anchors at_time in
      let findings =
        (certificate_findings net.decimal repr (cert_info x leaf) expected_eku ++ reused)
        ++ path
        ++ allowlist_findings allowed (cert_info x leaf) (key_of (second chain.certs)) in
      let verdict = certificate_verdict chain (some revocation) findings in
      (
        result_of verdict raw none (some (cert_info x leaf)) (some chain) (some revocation) none
            false findings none
            (summarize net.decimal verdict none (some chain) (some revocation) findings),
        rows',
      )
