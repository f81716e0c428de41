-- ===== src/Crypto/Revocation/Guard.antt =====
-- Which hosts may be asked, and when a revocation is reported.
use egreen_quanta_tes.Base.{
  String, ◌≡◌, refl, Bool, true, false, Option, none, some, List, [], ◌∷◌, ◌++◌, arith, str_eq, any,
  All, All-append, Bool-cases, Option-cases, inl, inr, if◌then◌else◌,
}
use egreen_quanta_tes.Base.Text.{is_in}
use egreen_quanta_tes.Crypto.Types.{
  RevocationResult, RevocationStatus, revoked, good, not_checked, unknown, failed,
}
use egreen_quanta_tes.Crypto.Verdict.{is_revoked}
use egreen_quanta_tes.Crypto.Revocation.{
  Network, Address, Checked, is_internal, is_final, host_is_public, safe_url, try_urls, check_ocsp,
  check_crl, check_revocation, maybe_finding, conclude, then_crl, if_allowed,
}

module _ (net : Network) where
  -- A URL of the web whose host resolves, and to no internal address.
  pub record IsPublic (url : String) : Type 0 where
    pub web : is_in (net.urlparse url).0 ("http" ∷ "https" ∷ []) ≡ true
    pub host : String
    pub named : (net.urlparse url).1 ≡ some host
    pub addresses : List Address
    pub resolves : net.getaddrinfo host ≡ some addresses
    pub external : any is_internal addresses ≡ false

  safe_url-IsPublic : (url : String) → safe_url net url ≡ true → IsPublic url
  unfolding safe_url host_is_public
  safe_url-IsPublic url safe = elim (Option-cases (net.urlparse url).1) [
    | inl none_given ↦ ground arith
    | inr (host, named) ↦ elim (Option-cases (net.getaddrinfo host)) [
      | inl unresolved ↦ ground arith
      | inr (addresses, resolves) ↦ record {
        web = ground arith;
        host = host;
        named = named;
        addresses = addresses;
        resolves = resolves;
        external = ground arith;
      }
    ]
  ]

  try_urls-IsPublic :
      (check : String → RevocationResult) (urls : List String)
      → All IsPublic (try_urls net check urls).1
  unfolding try_urls
  try_urls-IsPublic check [] = tt
  try_urls-IsPublic check (url ∷ urls) = elim (Bool-cases (safe_url net url)) [
    | inr unsafe ↦ rw unsafe (try_urls-IsPublic check urls)
    | inl safe ↦ rw safe (elim (Bool-cases (is_final (check url).status)) [
      | inl final ↦ rw final (safe_url-IsPublic url safe, tt)
      | inr more ↦ rw more (safe_url-IsPublic url safe, try_urls-IsPublic check urls)
    ])
  ]

  maybe_finding-T09 :
      (r : RevocationResult)
      → any (λ f. str_eq f.code "T09") (maybe_finding net r) ≡ is_revoked r.status
  maybe_finding-T09 r = go r.status refl
    where
      go :
          (s : RevocationStatus)
          → r.status ≡ s
          → any (λ f. str_eq f.code "T09") (maybe_finding net r) ≡ is_revoked r.status
      go good e = rw e refl
      go revoked e = rw e refl
      go unknown e = rw e refl
      go not_checked e = rw e refl
      go failed e = rw e refl

  conclude-IsPublic :
      (answered : Option RevocationResult) (asked : List String)
      → All IsPublic asked
      → All IsPublic (conclude net answered asked).asked
        × (any (λ f. str_eq f.code "T09") (conclude net answered asked).findings
            ≡ is_revoked (conclude net answered asked).result.status)
  conclude-IsPublic none asked a = (a, refl)
  conclude-IsPublic (some r) asked a = (a, maybe_finding-T09 r)

  then_crl-IsPublic :
      (ocsp crl : Option RevocationResult × List String)
      → All IsPublic ocsp.1
      → All IsPublic crl.1
      → All IsPublic (then_crl net ocsp crl).asked
        × (any (λ f. str_eq f.code "T09") (then_crl net ocsp crl).findings
            ≡ is_revoked (then_crl net ocsp crl).result.status)
  then_crl-IsPublic (some r, asked) crl a b = conclude-IsPublic (some r) asked a
  then_crl-IsPublic (none, asked) (answered, asked') a b =
      conclude-IsPublic answered (asked ++ asked') (All-append IsPublic asked asked' a b)

  if_allowed-IsPublic :
      (allowed : Bool) (done : Checked net)
      → All IsPublic done.asked
      → any (λ f. str_eq f.code "T09") done.findings ≡ is_revoked done.result.status
      → All IsPublic (if_allowed net allowed done).asked
        × (allowed ≡ false → (if_allowed net allowed done).asked ≡ [])
        × (any (λ f. str_eq f.code "T09") (if_allowed net allowed done).findings
            ≡ is_revoked (if_allowed net allowed done).result.status)
  if_allowed-IsPublic true done public reported = (public, (λ off. cc), reported)
  if_allowed-IsPublic false done public reported = (tt, (λ off. refl), refl)

  -- Every URL that `check_revocation` sends a request to is one of the web, whose host resolved, at
  -- the test, to addresses none of which is internal; and with outbound lookups off none is asked.
  -- A finding T09 is returned exactly when the result is "revoked".
  pub check_revocation-IsPublic :
      (has_issuer : Bool) (ocsp_urls crl_urls : List String)
      → let done = check_revocation net has_issuer ocsp_urls crl_urls in
        All IsPublic done.asked
        × (net.outbound_revocation ≡ false → done.asked ≡ [])
        × (any (λ f. str_eq f.code "T09") done.findings ≡ is_revoked done.result.status)
  unfolding check_revocation
  check_revocation-IsPublic has_issuer ocsp_urls crl_urls =
      let ocsp = if has_issuer then ocsp_urls else [] in
      let (public, reported) =
        then_crl-IsPublic (try_urls net (check_ocsp net) ocsp)
          (try_urls net (check_crl net) crl_urls) (try_urls-IsPublic (check_ocsp net) ocsp)
          (try_urls-IsPublic (check_crl net) crl_urls) in
      if_allowed-IsPublic net.outbound_revocation _ public reported
