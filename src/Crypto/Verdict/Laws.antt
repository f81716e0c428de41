-- ===== src/Crypto/Verdict/Laws.antt =====
-- What a verdict says, and what `validate_certificate` promises of a certificate it calls valid.
use mathlib.Core.List.{append_assoc}
use egreen_quanta_tes.Base.{
  ℕ, ◌≡◌, refl, sym, ap, ◌∙◌, ◌↔◌, Bool, true, false, not, ◌||◌, Option, List, [], ◌∷◌, ◌++◌, map,
  any, arith, str_eq, Bool-cases, inl, inr,
}
use egreen_quanta_tes.Crypto.Types.{
  X509, valid, invalid, CryptoFinding, ChainResult, ChainStatus, trusted, untrusted, incomplete,
  error, RevocationResult,
}
use egreen_quanta_tes.Crypto.Path.{spki_sha256, outside, window_findings, build_and_validate}
use egreen_quanta_tes.Crypto.Path.Linked.{IsPath, path_findings, build_and_validate-IsTrusted}
use egreen_quanta_tes.Crypto.Path.Sound.{AllInWindow}
use egreen_quanta_tes.Crypto.Verdict.{
  is_trusted, says_revoked, says_untrusted, decide, certificate_verdict,
}

-- `_decide` says valid exactly when the signature verified, no revocation was found, and the chain,
-- where there is one, is trusted; it says invalid exactly when the signature did not verify or a
-- revocation was found. No other finding has an influence.
pub decide-valid_iff :
    (sig_ok : Bool) (chain : Option ChainResult) (revocation : Option RevocationResult)
    → (decide sig_ok chain revocation ≡ valid
        ↔ ((sig_ok ≡ true) × (says_revoked revocation ≡ false) × (says_untrusted chain ≡ false)))
      × (decide sig_ok chain revocation ≡ invalid ↔ (not sig_ok || says_revoked revocation ≡ true))
unfolding decide
decide-valid_iff sig_ok chain revocation = (
  ((λ e. ground arith), λ (a, b, c). rw a (rw b (rw c refl))),
  ((λ e. ground arith), λ e. ground arith),
)

any-append :
    (xs ys : List CryptoFinding)
    → any (λ f. str_eq f.code "T08") (xs ++ ys) ≡ false
    → (any (λ f. str_eq f.code "T08") xs ≡ false) × (any (λ f. str_eq f.code "T08") ys ≡ false)
any-append [] ys e = (refl, e)
any-append (x ∷ xs) ys e = ground (arith, any-append xs ys)

pub is_trusted-trusted : (s : ChainStatus) → is_trusted s ≡ true → s ≡ trusted
is_trusted-trusted trusted e = refl
is_trusted-trusted untrusted e = cc
is_trusted-trusted incomplete e = cc
is_trusted-trusted error e = cc

verdict-parts :
    (chain : ChainResult) (revocation : Option RevocationResult) (findings : List CryptoFinding)
    → certificate_verdict chain revocation findings ≡ valid
    → (says_revoked revocation ≡ false)
      × (is_trusted chain.status ≡ true)
      × (any (λ f. str_eq f.code "T08") findings ≡ false)
unfolding certificate_verdict
verdict-parts chain revocation findings h = (ground arith, ground arith, ground arith)

module _ (x : X509) where
  no_window_finding :
      (at_time : ℕ) (cs : List x.Cert)
      → any (λ f. str_eq f.code "T08") (window_findings x at_time cs) ≡ false
      → AllInWindow x at_time cs
  unfolding window_findings
  no_window_finding at_time [] e = tt
  no_window_finding at_time (c ∷ cs) e = elim (Bool-cases (outside x at_time c)) [
    | inl out ↦ ground arith
    | inr within ↦ (within, no_window_finding at_time cs (ground arith))
  ]

  -- When `validate_certificate` says valid, no revocation was found, and there is a path from the
  -- certificate to an anchor on which every certificate is in its window of validity; whatever
  -- findings stand before and after those of the path.
  pub certificate_verdict-AllInWindow :
      (leaf : x.Cert) (extra anchors : List x.Cert) (at_time : ℕ)
      → (revocation : Option RevocationResult) (before after : List CryptoFinding)
      → let (chain, findings) = build_and_validate x leaf extra anchors at_time in
        certificate_verdict chain revocation (before ++ findings ++ after) ≡ valid
        → (says_revoked revocation ≡ false)
          × (rest : List x.Cert) × IsPath x
              (map (spki_sha256 x) anchors)
              (extra ++ anchors)
              leaf
              rest
          × AllInWindow x at_time (leaf ∷ rest)
  certificate_verdict-AllInWindow leaf extra anchors at_time revocation before after h =
      let (chain, findings) = build_and_validate x leaf extra anchors at_time in
      let (fresh, status, unexpired) =
        verdict-parts chain revocation (before ++ findings ++ after) h in
      let t =
        build_and_validate-IsTrusted x leaf extra anchors at_time
          (is_trusted-trusted chain.status status) in
      let keys = map (spki_sha256 x) anchors in
      let in_findings =
        (any-append findings after
          (any-append before (findings ++ after) (
            ap (any (λ f. str_eq f.code "T08")) (sym (append_assoc before findings after))
            ∙ unexpired)).1).0 in
      (
        fresh,
        t.rest,
        t.path,
        no_window_finding at_time (leaf ∷ t.rest)
            (any-append (path_findings x keys (extra ++ anchors) 0 t.rest)
              (window_findings x at_time (leaf ∷ t.rest))
              (ap (any (λ f. str_eq f.code "T08")) (sym t.findings) ∙ in_findings)).1,
      )
