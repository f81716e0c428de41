-- ===== src/Crypto/Path/Sound.antt =====
-- What a report without findings says of a trusted chain.
use egreen_quanta_tes.Base.{
  ℕ, suc, String, ◌≡◌, refl, ◌∙◌, sym, ◌↔◌, Bool, true, false, List, [], ◌∷◌, ◌++◌, map, arith, All,
  Bool-cases, inl, inr,
}
use egreen_quanta_tes.Crypto.Types.{X509, CryptoFinding, trusted, when}
use egreen_quanta_tes.Crypto.Path.{
  spki_sha256, is_ca, path_length, can_sign_certs, exceeds, outside, issuer_findings,
  window_findings, build_and_validate,
}
use egreen_quanta_tes.Crypto.Path.Linked.{IsPath, path_findings, build_and_validate-IsTrusted}

append-empty {ℓ} : {A : Type ℓ} → (xs ys : List A) → xs ++ ys ≡ [] → (xs ≡ []) × (ys ≡ [])
append-empty [] ys e = (refl, e)
append-empty (x ∷ xs) ys e = cc

module _ (x : X509) where
  when-empty : (b : Bool) (f : CryptoFinding) → when b f ≡ [] → b ≡ false
  when-empty true f e = cc
  when-empty false f e = refl

  -- An issuer that is a CA, may sign certificates, and allows the CAs that are below it.
  pub record MayIssue (depth : ℕ) (i : x.Cert) : Type 0 where
    pub ca : is_ca x i ≡ true
    pub may_sign : can_sign_certs x i ≡ true
    pub within : exceeds x (path_length x i) depth ≡ false

  -- Every issuer of a path may issue at its depth.
  abbrev pub AllMayIssue : ℕ → List x.Cert → Type 0
  AllMayIssue depth [] = Unit
  AllMayIssue depth (i ∷ rest) = MayIssue depth i × AllMayIssue (suc depth) rest

  abbrev pub AllInWindow : ℕ → List x.Cert → Type 0
  AllInWindow at_time = All (λ c. outside x at_time c ≡ false)

  issuer_findings-MayIssue :
      (depth : ℕ) (i : x.Cert) → issuer_findings x depth i ≡ [] → MayIssue depth i
  unfolding issuer_findings
  issuer_findings-MayIssue depth i e = elim (Bool-cases (is_ca x i)) [
    | inr a ↦ ground arith
    | inl a ↦ elim (Bool-cases (can_sign_certs x i)) [
      | inr b ↦ ground arith
      | inl b ↦ elim (Bool-cases (exceeds x (path_length x i) depth)) [
        | inl c ↦ ground arith
        | inr c ↦ record { ca = a; may_sign = b; within = c }
      ]
    ]
  ]

  MayIssue-issuer_findings :
      (depth : ℕ) (i : x.Cert) → MayIssue depth i → issuer_findings x depth i ≡ []
  unfolding issuer_findings
  MayIssue-issuer_findings depth i m = ground arith

  pub path_findings-AllMayIssue :
      (anchors : List String) (pool : List x.Cert) (depth : ℕ) (rest : List x.Cert)
      → path_findings x anchors pool depth rest ≡ []
      → AllMayIssue depth rest
  unfolding path_findings
  path_findings-AllMayIssue anchors pool depth [] e = tt
  path_findings-AllMayIssue anchors pool depth (i ∷ rest) e =
      let (here, below) =
        append-empty (issuer_findings x depth i) (path_findings x anchors pool (suc depth) rest)
          e in
      (
        issuer_findings-MayIssue depth i here,
        path_findings-AllMayIssue anchors pool (suc depth) rest below,
      )

  AllMayIssue-path_findings :
      (anchors : List String) (pool : List x.Cert) (depth : ℕ) (rest : List x.Cert)
      → AllMayIssue depth rest
      → path_findings x anchors pool depth rest ≡ []
  unfolding path_findings
  AllMayIssue-path_findings anchors pool depth [] a = refl
  AllMayIssue-path_findings anchors pool depth (i ∷ rest) a =
      rw (MayIssue-issuer_findings depth i a.0)
        (AllMayIssue-path_findings anchors pool (suc depth) rest a.1)

  pub window_findings-AllInWindow :
      (at_time : ℕ) (cs : List x.Cert) → window_findings x at_time cs ≡ [] → AllInWindow at_time cs
  unfolding window_findings
  window_findings-AllInWindow at_time [] e = tt
  window_findings-AllInWindow at_time (c ∷ cs) e = elim (Bool-cases (outside x at_time c)) [
    | inl out ↦ ground arith
    | inr within ↦ (within, window_findings-AllInWindow at_time cs (ground arith))
  ]

  AllInWindow-window_findings :
      (at_time : ℕ) (cs : List x.Cert) → AllInWindow at_time cs → window_findings x at_time cs ≡ []
  unfolding window_findings
  AllInWindow-window_findings at_time [] a = refl
  AllInWindow-window_findings at_time (c ∷ cs) a =
      rw a.0 (AllInWindow-window_findings at_time cs a.1)

  -- A chain that is reported as trusted is a path to an anchor, and its report has no finding exactly
  -- when every issuer on the path is a CA that may sign certificates and whose path length is kept,
  -- and every certificate of the path is in its window of validity at the given time.
  pub build_and_validate-AllMayIssue :
      (leaf : x.Cert) (extra anchors : List x.Cert) (at_time : ℕ)
      → (build_and_validate x leaf extra anchors at_time).0.status ≡ trusted
      → (rest : List x.Cert) × IsPath x (map (spki_sha256 x) anchors) (extra ++ anchors) leaf rest
        × ((build_and_validate x leaf extra anchors at_time).1 ≡ []
            ↔ (AllMayIssue 0 rest × AllInWindow at_time (leaf ∷ rest)))
  build_and_validate-AllMayIssue leaf extra anchors at_time h =
      let keys = map (spki_sha256 x) anchors in
      let t = build_and_validate-IsTrusted x leaf extra anchors at_time h in
      (
        t.rest,
        t.path,
        (
          (λ e.
              let (checks, window) =
                append-empty (path_findings x keys (extra ++ anchors) 0 t.rest)
                  (window_findings x at_time (leaf ∷ t.rest)) (sym t.findings ∙ e) in
              (
                path_findings-AllMayIssue keys (extra ++ anchors) 0 t.rest checks,
                window_findings-AllInWindow at_time (leaf ∷ t.rest) window,
              )),
          λ (checks, window).
              t.findings
              ∙ rw (AllMayIssue-path_findings keys (extra ++ anchors) 0 t.rest checks)
                  (AllInWindow-window_findings at_time (leaf ∷ t.rest) window),
        ),
      )
