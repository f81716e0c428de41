-- ===== src/Ml.antt =====
-- The local anomaly models (backend/app/services/ml).
pub mod Registry
