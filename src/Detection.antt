-- ===== src/Detection.antt =====
-- The detection of threats (backend/app/services/detection) with its tables.
pub mod Number
pub mod Catalog
pub mod Score
pub mod Models
pub mod History
pub mod Correlate
pub mod Engine
pub mod Triage
mod Tests
