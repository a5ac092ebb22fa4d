-- ===== src/Services.antt =====
-- The application services (src/ghg_tool/application/services).
pub mod Sbti
pub mod YoyStats
pub mod Hotspot
pub mod Idempotency
pub mod Reconciliation
pub mod Intensity
pub mod Recalculation
pub mod FactorPublish
