-- ===== src/Crypto.antt =====
-- Certificates and verdicts (backend/app/services/crypto).
pub mod Types
pub mod Errors
pub mod Path
pub mod Verdict
pub mod WeakAlgo
pub mod Revocation
pub mod Observed
pub mod Raw
pub mod Cms
pub mod Jws
pub mod Pdf
pub mod Result
pub mod Signed
pub mod Document
pub mod TrustStore
pub mod Engine
pub mod Material
pub mod RawSignature
