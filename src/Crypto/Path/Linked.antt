-- ===== src/Crypto/Path/Linked.antt =====
-- The chains that are reported as trusted: paths from the leaf to an anchor.
use egreen_quanta_tes.Base.{
  str_eq, ℕ, zero, suc, ◌+◌, ◌≤◌, String, Bool, true, false, ◌≡◌, refl, ap, ◌∙◌, some, List, [],
  ◌∷◌, ◌++◌, map, arith, find, length, Bool-cases, Option-cases, inl, inr,
}
use mathlib.Core.Path.{ap₂}
use mathlib.Core.List.{append_assoc, append-nil}
use egreen_quanta_tes.Base.Text.{is_in}
use egreen_quanta_tes.Crypto.Types.{X509, CryptoFinding, ChainResult, trusted}
use egreen_quanta_tes.Crypto.Path.{
  Walk, anchored, untrusted_root, no_issuer, too_long, max_depth, spki_sha256, self_signed, issues,
  next_issuer, issuer_findings, walk, window_findings, conclude, cert_info, build_and_validate,
}

find-passes {ℓ} :
    {A : Type ℓ} → (p : A → Bool) (xs : List A) (a : A) → find p xs ≡ some a → p a ≡ true
find-passes p [] a e = cc
find-passes p (y ∷ ys) a e = ground (arith, find-passes p ys a)

module _ (x : X509) (anchors : List String) (pool : List x.Cert) where
  -- One link: the issuer is a certificate at hand, bears the name that the certificate gives for its
  -- issuer and another key, and its signature was verified; the certificate is not self-signed.
  pub record IsLink (c i : x.Cert) : Type 0 where
    pub not_anchor : is_in (spki_sha256 x c) anchors ≡ false
    pub not_root : self_signed x c ≡ false
    pub named : x.same_name (x.subject i) (x.issuer c) ≡ true
    pub other_key : str_eq (spki_sha256 x i) (spki_sha256 x c) ≡ false
    pub verified : x.is_directly_issued_by c i ≡ true
    pub at_hand : find (λ cand. issues x c cand) pool ≡ some i

  -- A path: from the certificate over the rest, link by link, to the first one whose key is trusted.
  abbrev pub IsPath : x.Cert → List x.Cert → Type 0
  IsPath c [] = is_in (spki_sha256 x c) anchors ≡ true
  IsPath c (i ∷ rest) = IsLink c i × IsPath i rest

  abbrev pub last_of : x.Cert → List x.Cert → x.Cert
  last_of c [] = c
  last_of c (i ∷ rest) = last_of i rest

  -- What the checks report on the issuers of a path, from the given depth on.
  unfoldable pub path_findings : ℕ → List x.Cert → List CryptoFinding
  path_findings depth [] = []
  path_findings depth (i ∷ rest) = issuer_findings x depth i ++ path_findings (suc depth) rest

  issues-parts :
      (c i : x.Cert)
      → issues x c i ≡ true
      → (x.same_name (x.subject i) (x.issuer c) ≡ true)
        × (str_eq (spki_sha256 x i) (spki_sha256 x c) ≡ false)
        × (x.is_directly_issued_by c i ≡ true)
  unfolding issues
  issues-parts c i e = (ground arith, ground arith, ground arith)

  next_issuer-IsLink :
      (c i : x.Cert)
      → is_in (spki_sha256 x c) anchors ≡ false
      → next_issuer x pool c ≡ some i
      → IsLink c i
  unfolding next_issuer
  next_issuer-IsLink c i not_anchor e = elim (Bool-cases (self_signed x c)) [
    | inl root ↦ ground arith
    | inr other ↦
        let passes = find-passes (λ cand. issues x c cand) pool i (ground arith) in
        let (named, other_key, verified) = issues-parts c i passes in
        record {
          not_anchor = not_anchor;
          not_root = other;
          named = named;
          other_key = other_key;
          verified = verified;
          at_hand = ground arith;
        }
  ]

  pub walk-anchored :
      (n depth : ℕ) (certs : List x.Cert) (c : x.Cert) (fs : List CryptoFinding) (spki : String)
      (certs' : List x.Cert) (fs' : List CryptoFinding)
      → walk x anchors pool n depth certs c fs ≡ anchored spki certs' fs'
      → (rest : List x.Cert) × IsPath c rest
        × (certs' ≡ certs ++ rest)
        × (length rest + 1 ≤ n)
        × (spki ≡ spki_sha256 x (last_of c rest))
        × (fs' ≡ fs ++ path_findings depth rest)
  unfolding walk path_findings
  walk-anchored zero depth certs c fs spki certs' fs' h = ground arith
  walk-anchored (suc n) depth certs c fs spki certs' fs' h =
      elim (Bool-cases (is_in (spki_sha256 x c) anchors)) [
        | inl a ↦ (
          [],
          a,
          rw append-nil (ground arith),
          omega arith,
          ground arith,
          rw append-nil (ground arith),
        )
        | inr a ↦ elim (Option-cases (next_issuer x pool c)) [
          | inl e ↦ ground arith
          | inr (i, e) ↦
              let (rest, path, same, short, key, found) =
                walk-anchored n (suc depth) (certs ++ i ∷ []) i (fs ++ issuer_findings x depth i)
                  spki certs' fs' (ground arith) in
              (
                i ∷ rest,
                (next_issuer-IsLink c i a e, path),
                same ∙ append_assoc certs (i ∷ []) rest,
                omega (arith, short),
                key,
                found
                    ∙ append_assoc fs (issuer_findings x depth i) (path_findings (suc depth) rest),
              )
        ]
      ]

  -- What the result says of the chain it reports as trusted.
  pub record IsTrusted (at_time : ℕ) (leaf : x.Cert) (out : ChainResult × List CryptoFinding)
      : Type 0 where
    pub rest : List x.Cert
    pub path : IsPath leaf rest
    pub certs : out.0.certs ≡ map (cert_info x) (leaf ∷ rest)
    pub short : length (leaf ∷ rest) ≤ max_depth
    pub key : out.0.trust_anchor_spki ≡ some (spki_sha256 x (last_of leaf rest))
    pub findings : out.1 ≡ path_findings 0 rest ++ window_findings x at_time (leaf ∷ rest)

  conclude-IsTrusted :
      (at_time : ℕ) (leaf : x.Cert) (w : Walk x.Cert)
      → walk x anchors pool max_depth 0 (leaf ∷ []) leaf [] ≡ w
      → (conclude x at_time w).0.status ≡ trusted
      → IsTrusted at_time leaf (conclude x at_time w)
  unfolding conclude
  conclude-IsTrusted at_time leaf (anchored spki certs fs) e h =
      let (rest, path, same, short, key, found) =
        walk-anchored max_depth 0 (leaf ∷ []) leaf [] spki certs fs e in
      record {
        rest = rest;
        path = path;
        certs = ap (map (cert_info x)) same;
        short = omega (arith, short);
        key = ap some key;
        findings = ap₂ (λ a b. a ++ window_findings x at_time b) found same;
      }
  conclude-IsTrusted at_time leaf (untrusted_root d certs fs) e h = cc
  conclude-IsTrusted at_time leaf (no_issuer d certs fs) e h = cc
  conclude-IsTrusted at_time leaf (too_long certs fs) e h = cc

-- A chain that is reported as trusted is a path: it starts with the leaf, each certificate was
-- directly issued by the next one, which was at hand, the last one (and no other) has the key of an
-- anchor, which is the key that is reported, and at most twelve certificates are in it. The
-- findings are those of the checks on its issuers, by depth, and on the windows of all of it.
pub build_and_validate-IsTrusted :
    (x : X509) (leaf : x.Cert) (extra anchors : List x.Cert) (at_time : ℕ)
    → (build_and_validate x leaf extra anchors at_time).0.status ≡ trusted
    → IsTrusted x
        (map (spki_sha256 x) anchors)
        (extra ++ anchors)
        at_time
        leaf
        (build_and_validate x leaf extra anchors at_time)
unfolding build_and_validate
build_and_validate-IsTrusted x leaf extra anchors at_time h =
    conclude-IsTrusted x (map (spki_sha256 x) anchors) (extra ++ anchors) at_time leaf
      (walk x (map (spki_sha256 x) anchors) (extra ++ anchors) max_depth 0 (leaf ∷ []) leaf []) refl
      h
