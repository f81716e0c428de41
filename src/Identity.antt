-- ===== src/Identity.antt =====
-- Identity and access: accounts, logins, refresh tokens, API keys and roles
-- (backend/app/services, backend/app/core/security.py, backend/app/api/deps.py).
pub mod Models
pub mod Auth
pub mod Tokens
pub mod Users
pub mod ApiKeys
pub mod RateLimit
pub mod Access
