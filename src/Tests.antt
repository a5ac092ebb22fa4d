-- ===== src/Tests.antt =====
-- Concrete inputs, and the theorems applied to them.
pub mod Inputs
pub mod Runs
pub mod Targets
pub mod Keys
pub mod Publication
pub mod Hotspots
pub mod Limits
pub mod Logins
pub mod Disclosures
pub mod Ratios
pub mod Codes
