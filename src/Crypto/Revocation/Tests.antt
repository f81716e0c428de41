-- ===== src/Crypto/Revocation/Tests.antt =====
-- A responder in the local network and one outside: the theorem about lookups at this certificate.
use egreen_quanta_tes.Base.{◌≡◌, true, false, some, none, [], ◌∷◌, any, All, str_eq, if◌then◌else◌}
use egreen_quanta_tes.Crypto.Verdict.{is_revoked}
use egreen_quanta_tes.Crypto.Revocation.{Network, Address, successful, ocsp_good, check_revocation}
use egreen_quanta_tes.Crypto.Revocation.Guard.{IsPublic, check_revocation-IsPublic}

abbrev outside : Address
outside = record {
  is_private = false;
  is_loopback = false;
  is_link_local = false;
  is_multicast = false;
  is_reserved = false;
  is_unspecified = false;
}

abbrev net : Network
net = record {
  outbound_revocation = true;
  revocation_max_response_kb = 64;
  urlparse = λ url. ("http", some url);
  getaddrinfo = λ host.
      some
        ((if str_eq host "intranet" then record outside { is_private = true } else outside) ∷ []);
  post = λ url. some (record { status_code = 200; size = 10; body = "ok" });
  get = λ url. none;
  load_ocsp = λ body. some (successful ocsp_good);
  load_der_crl = λ body. none;
  load_pem_crl = λ body. none;
  decimal = λ n. "n";
}

check_revocation-IsPublic_example :
    let done = check_revocation net true ("intranet" ∷ "ocsp.example" ∷ []) [] in
    All (IsPublic net) done.asked
    × (true ≡ false → done.asked ≡ [])
    × (any (λ f. str_eq f.code "T09") done.findings ≡ is_revoked done.result.status)
check_revocation-IsPublic_example =
    check_revocation-IsPublic net true ("intranet" ∷ "ocsp.example" ∷ []) []
