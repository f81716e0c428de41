-- ===== src/Audit.antt =====
-- The tamper-evident audit log (backend/app/services/audit).
pub mod Value
pub mod Sanitise
pub mod Chain
