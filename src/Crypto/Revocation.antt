-- ===== src/Crypto/Revocation.antt =====
-- backend/app/services/crypto/revocation.py: which responders are asked, and what their answers mean.
-- Sockets, HTTP and the parsing of answers are the record `Network`; the URLs that a certificate
-- names are arguments.
pub mod Guard
mod Tests
use egreen_quanta_tes.Base.{
  ℕ, ◌*◌, String, Bool, true, false, not, ◌&&◌, ◌||◌, Option, none, some, List, [], ◌∷◌, ◌++◌, ◌==◌,
  ltb, str_eq, any, if◌then◌else◌,
}
use egreen_quanta_tes.Base.Text.{is_given, is_in, is_set}
use egreen_quanta_tes.Crypto.Types.{
  CryptoFinding, RevocationResult, RevocationStatus, good, revoked, unknown, not_checked, failed,
  critical, revocation, text,
}

-- What `ipaddress` says of an address.
pub record Address : Type 0 where
  pub is_private : Bool
  pub is_loopback : Bool
  pub is_link_local : Bool
  pub is_multicast : Bool
  pub is_reserved : Bool
  pub is_unspecified : Bool

pub record Response : Type 0 where
  pub status_code : ℕ
  pub size : ℕ
  pub body : String

-- The certificate status of an OCSP response.
pub data OcspStatus : Type 0 where
  ocsp_good ocsp_unknown : OcspStatus
  ocsp_revoked : Option ℕ → OcspStatus

pub data OcspResponse : Type 0 where
  unsuccessful : String → OcspResponse
  successful : OcspStatus → OcspResponse

pub record Network : Type 0 where
  pub outbound_revocation : Bool
  pub revocation_max_response_kb : ℕ
  -- `urlparse`: the scheme and the host.
  pub urlparse : String → String × Option String
  -- `none` where `getaddrinfo` raises.
  pub getaddrinfo : String → Option (List Address)
  -- `none` where `httpx` raises.
  pub post : String → Option Response
  pub get : String → Option Response
  -- `none` where the parser raises `ValueError`.
  pub load_ocsp : String → Option OcspResponse
  -- The revocation date that a CRL in DER, or in PEM, lists for the certificate.
  pub load_der_crl : String → Option (Option (Option ℕ))
  pub load_pem_crl : String → Option (Option (Option ℕ))
  pub decimal : ℕ → String

-- The test of `_host_is_public` on one address.
abbrev pub is_internal : Address → Bool
is_internal a =
    a.is_private || a.is_loopback || a.is_link_local || a.is_multicast || a.is_reserved
    || a.is_unspecified

abbrev answer : RevocationStatus → String → String → Option ℕ → RevocationResult
answer status method detail at = record {
  status = status;
  method = some method;
  detail = detail;
  revoked_at = at;
}

-- `result.status in {"good", "revoked"}`
abbrev pub is_final : RevocationStatus → Bool
is_final good = true
is_final revoked = true
is_final unknown = false
is_final not_checked = false
is_final failed = false

module _ (net : Network) where
  -- `_host_is_public`
  abbrev all_public : Option (List Address) → Bool
  all_public none = false
  all_public (some infos) = not (any is_internal infos)

  unfoldable pub host_is_public : String → Bool
  host_is_public host = all_public (net.getaddrinfo host)

  -- `_safe_url`
  abbrev safe_host : Option String → Bool
  safe_host none = false
  safe_host (some host) = is_set host && host_is_public host

  unfoldable pub safe_url : String → Bool
  safe_url url =
      let (scheme, hostname) = net.urlparse url in
      is_in scheme ("http" ∷ "https" ∷ []) && safe_host hostname

  -- `resp.status_code != 200 or len(resp.content) > _max_bytes()`
  abbrev is_refused : Response → Bool
  is_refused r = not (r.status_code == 200) || ltb (net.revocation_max_response_kb * 1024) r.size

  abbrev http_text : Response → String
  http_text r = text ("HTTP " ∷ net.decimal r.status_code ∷ [])

  -- `_check_ocsp`, with the errors that `check_revocation` catches.
  abbrev read_status : OcspStatus → RevocationResult
  read_status ocsp_good = answer good "ocsp" "" none
  read_status (ocsp_revoked at) = answer revoked "ocsp" "OCSP responder reports REVOKED" at
  read_status ocsp_unknown = answer unknown "ocsp" "OCSP status UNKNOWN" none

  abbrev read_ocsp : Option OcspResponse → RevocationResult
  read_ocsp none = answer failed "ocsp" "" none
  read_ocsp (some (unsuccessful status)) = answer unknown "ocsp" status none
  read_ocsp (some (successful status)) = read_status status

  abbrev ocsp_answer : Option Response → RevocationResult
  ocsp_answer none = answer failed "ocsp" "" none
  ocsp_answer (some r) =
      if is_refused r
      then answer unknown "ocsp" (http_text r) none
      else read_ocsp (net.load_ocsp r.body)

  pub check_ocsp : String → RevocationResult
  check_ocsp url = ocsp_answer (net.post url)

  -- `_check_crl`
  abbrev listed : Option (Option ℕ) → RevocationResult
  listed none = answer good "crl" "" none
  listed (some at) = answer revoked "crl" "listed in CRL" at

  abbrev read_pem : Option (Option (Option ℕ)) → RevocationResult
  read_pem none = answer unknown "crl" "unparseable CRL" none
  read_pem (some entry) = listed entry

  abbrev read_crl : String → Option (Option (Option ℕ)) → RevocationResult
  read_crl body none = read_pem (net.load_pem_crl body)
  read_crl body (some entry) = listed entry

  abbrev crl_answer : Option Response → RevocationResult
  crl_answer none = answer failed "crl" "" none
  crl_answer (some r) =
      if is_refused r
      then answer unknown "crl" (http_text r) none
      else read_crl r.body (net.load_der_crl r.body)

  pub check_crl : String → RevocationResult
  check_crl url = crl_answer (net.get url)

  -- One of the two loops over URLs: the first final answer, and the URLs that were asked.
  unfoldable pub try_urls :
      (String → RevocationResult) → List String → Option RevocationResult × List String
  try_urls check [] = (none, [])
  try_urls check (url ∷ urls) =
      let (later, asked) = try_urls check urls in
      if not (safe_url url)
      then (later, asked)
      else if is_final (check url).status
      then (some (check url), url ∷ [])
      else (later, url ∷ asked)

  -- `_maybe_finding`
  abbrev reason_of : String → Option String → String
  reason_of detail method =
      if is_set detail
      then detail
      else text ("revoked via " ∷ (elim method [ none ↦ "None" | some s ↦ s ]) ∷ [])

  abbrev pub maybe_finding : RevocationResult → List CryptoFinding
  maybe_finding r = elim r.status [
    | revoked ↦
        record {
          code = "T09";
          title = "Certificate is revoked";
          severity = critical;
          category = revocation;
          detail = reason_of r.detail r.method;
        }
        ∷ []
    | good ↦ []
    | unknown ↦ []
    | not_checked ↦ []
    | failed ↦ []
  ]

  -- What `check_revocation` returns, with the URLs that it asked.
  pub record Checked : Type 0 where
    pub result : RevocationResult
    pub findings : List CryptoFinding
    pub asked : List String

  abbrev pub conclude : Option RevocationResult → List String → Checked
  conclude none asked = record {
    result = record {
      status = unknown;
      method = none;
      detail = "no usable OCSP/CRL endpoint";
      revoked_at = none;
    };
    findings = [];
    asked = asked;
  }
  conclude (some r) asked = record { result = r; findings = maybe_finding r; asked = asked }

  abbrev pub then_crl :
      Option RevocationResult × List String → Option RevocationResult × List String → Checked
  then_crl (some r, asked) crl = conclude (some r) asked
  then_crl (none, asked) (answered, asked') = conclude answered (asked ++ asked')

  -- `if not settings.outbound_revocation`
  abbrev pub if_allowed : Bool → Checked → Checked
  if_allowed false done = record {
    result = record {
      status = not_checked;
      method = none;
      detail = "outbound revocation disabled";
      revoked_at = none;
    };
    findings = [];
    asked = [];
  }
  if_allowed true done = done

  -- `check_revocation`; the flag tells whether an issuer is known.
  unfoldable pub check_revocation : Bool → List String → List String → Checked
  check_revocation has_issuer ocsp_urls crl_urls = if_allowed net.outbound_revocation (
      then_crl (try_urls check_ocsp (if has_issuer then ocsp_urls else []))
        (try_urls check_crl crl_urls))
