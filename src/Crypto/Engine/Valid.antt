-- ===== src/Crypto/Engine/Valid.antt =====
-- What the verdict "valid" of the two entry points means.
use mathlib.Core.List.{append_assoc}
use egreen_quanta_tes.Base.{
  ℕ, String, ◌≡◌, sym, ap, ◌∙◌, true, false, Option, none, some, List, ◌∷◌, ◌++◌, map, arith,
}
use egreen_quanta_tes.Crypto.Types.{X509, valid, CryptoFinding, RevocationResult}
use egreen_quanta_tes.Crypto.Path.{spki_sha256, build_and_validate}
use egreen_quanta_tes.Crypto.Path.Linked.{IsPath, build_and_validate-IsTrusted}
use egreen_quanta_tes.Crypto.Path.Sound.{AllInWindow}
use egreen_quanta_tes.Crypto.Verdict.{says_revoked, certificate_verdict}
use egreen_quanta_tes.Crypto.Verdict.Laws.{
  decide-valid_iff, certificate_verdict-AllInWindow, is_trusted-trusted,
}
use egreen_quanta_tes.Crypto.Revocation.{Network}
use egreen_quanta_tes.Crypto.Observed.{Certificate}
use egreen_quanta_tes.Crypto.TrustStore.{CaAllowlistEntry}
use egreen_quanta_tes.Crypto.Raw.{RawVerifyOutcome}
use egreen_quanta_tes.Crypto.Engine.{chain_and_revocation, raw_result, validate_certificate}

regroup : (b f d a : List CryptoFinding) → b ++ f ++ (d ++ a) ≡ b ++ (f ++ d) ++ a
regroup b f d a = sym (append_assoc (b ++ f) d a) ∙ ap (λ l. l ++ a) (append_assoc b f d)

regrouped :
    (x : X509) (leaf : x.Cert) (extra anchors : List x.Cert) (at_time : ℕ)
    → (revocation : Option RevocationResult) (before later after : List CryptoFinding)
    → let (chain, findings) = build_and_validate x leaf extra anchors at_time in
      certificate_verdict chain revocation (before ++ (findings ++ later) ++ after) ≡ valid
      → (says_revoked revocation ≡ false)
        × (rest : List x.Cert) × IsPath x (map (spki_sha256 x) anchors) (extra ++ anchors) leaf rest
        × AllInWindow x at_time (leaf ∷ rest)
regrouped x leaf extra anchors at_time revocation before later after h =
    let (chain, findings) = build_and_validate x leaf extra anchors at_time in
    certificate_verdict-AllInWindow x leaf extra anchors at_time revocation before (later ++ after)
      (ap (certificate_verdict chain revocation) (regroup before findings later after) ∙ h)

module _ (x : X509) (net : Network) (ocsp_urls crl_urls : x.Cert → List String)
    (repr : List String → String) where
  -- When the result on an outcome with a certificate is valid, the outcome says verified, no
  -- revocation was found for the certificate, and there is a path from it to an anchor.
  pub raw_result-IsPath :
      (outcome : RawVerifyOutcome) (leaf : x.Cert) (extra anchors : List x.Cert) (digest : String)
      (at_time now : ℕ) (rows : List Certificate)
      → let result =
          (raw_result x net ocsp_urls crl_urls repr outcome
            (some (leaf, extra))
            anchors
            digest
            at_time
            now
            rows).0 in
        result.verdict ≡ valid
        → (outcome.verified ≡ true)
          × (says_revoked result.revocation ≡ false)
          × (rest : List x.Cert) × IsPath x
              (map (spki_sha256 x) anchors)
              (extra ++ anchors)
              leaf
              rest
  unfolding raw_result chain_and_revocation
  raw_result-IsPath outcome leaf extra anchors digest at_time now rows h =
      let (chain, revocation, path) =
        chain_and_revocation x net ocsp_urls crl_urls repr leaf extra anchors at_time in
      let (verified, fresh, status) =
        (decide-valid_iff outcome.verified (some chain) (some revocation)).0.0 h in
      let t =
        build_and_validate-IsTrusted x leaf extra anchors at_time
          (is_trusted-trusted chain.status (ground arith)) in
      (verified, fresh, t.rest, t.path)

  -- When the result on an outcome is valid, the outcome says verified.
  pub raw_result-verified :
      (outcome : RawVerifyOutcome) (cert : Option (x.Cert × List x.Cert)) (anchors : List x.Cert)
      (digest : String) (at_time now : ℕ) (rows : List Certificate)
      → (raw_result x net ocsp_urls crl_urls repr outcome cert anchors digest at_time now
          rows).0.verdict
        ≡ valid
      → outcome.verified ≡ true
  unfolding raw_result
  raw_result-verified outcome none anchors digest at_time now rows h =
      ((decide-valid_iff outcome.verified none none).0.0 h).0
  raw_result-verified outcome (some (leaf, extra)) anchors digest at_time now rows h =
      (raw_result-IsPath outcome leaf extra anchors digest at_time now rows h).0

  -- When `validate_certificate` calls a certificate valid, no revocation was found for it, and there is
  -- a path from it to an anchor on which every certificate is in its window of validity at the given
  -- time.
  pub validate_certificate-AllInWindow :
      (leaf : x.Cert) (extra : List x.Cert) (expected_eku : Option String) (anchors : List x.Cert)
      (allowed : List CaAllowlistEntry) (at_time now : ℕ) (rows : List Certificate)
      → let result =
          (validate_certificate x net ocsp_urls crl_urls repr leaf extra expected_eku anchors
            allowed at_time now rows).0 in
        result.verdict ≡ valid
        → (says_revoked result.revocation ≡ false)
          × (rest : List x.Cert) × IsPath x
              (map (spki_sha256 x) anchors)
              (extra ++ anchors)
              leaf
              rest
          × AllInWindow x at_time (leaf ∷ rest)
  unfolding validate_certificate chain_and_revocation
  validate_certificate-AllInWindow leaf extra expected_eku anchors allowed at_time now rows h =
      regrouped x leaf extra anchors at_time _ _ _ _ h
