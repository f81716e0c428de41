-- ===== src/Crypto/Verdict.antt =====
-- The verdicts of backend/app/services/crypto/engine.py: `_decide`, which the three signature paths
-- share, and the last part of `validate_certificate`.
pub mod Laws
mod Tests
use egreen_quanta_tes.Base.{
  Bool, true, false, not, ◌&&◌, ◌||◌, Option, none, some, List, any, str_eq, if◌then◌else◌,
}
use egreen_quanta_tes.Crypto.Types.{
  Verdict, valid, invalid, indeterminate, CryptoFinding, ChainResult, ChainStatus, trusted,
  untrusted, incomplete, error, RevocationResult, RevocationStatus, good, revoked, unknown,
  not_checked, failed,
}

abbrev pub is_revoked : RevocationStatus → Bool
is_revoked good = false
is_revoked revoked = true
is_revoked unknown = false
is_revoked not_checked = false
is_revoked failed = false

abbrev pub is_trusted : ChainStatus → Bool
is_trusted trusted = true
is_trusted untrusted = false
is_trusted incomplete = false
is_trusted error = false

-- `revocation is not None and revocation.status == "revoked"`
abbrev pub says_revoked : Option RevocationResult → Bool
says_revoked none = false
says_revoked (some r) = is_revoked r.status

-- `chain is not None and chain.status not in {"trusted", None}`
abbrev pub says_untrusted : Option ChainResult → Bool
says_untrusted none = false
says_untrusted (some c) = not (is_trusted c.status)

-- `_decide`
unfoldable pub decide : Bool → Option ChainResult → Option RevocationResult → Verdict
decide sig_ok chain revocation =
    if not sig_ok
    then invalid
    else if says_revoked revocation
    then invalid
    else if says_untrusted chain
    then indeterminate
    else valid

-- The verdict of `validate_certificate`, from the chain, the revocation status and all findings.
unfoldable pub certificate_verdict :
    ChainResult → Option RevocationResult → List CryptoFinding → Verdict
certificate_verdict chain revocation findings =
    let expired = any (λ f. str_eq f.code "T08") findings in
    if says_revoked revocation || expired
    then invalid
    else if is_trusted chain.status
    then valid
    else indeterminate
