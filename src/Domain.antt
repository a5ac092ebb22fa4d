-- ===== src/Domain.antt =====
-- The domain layer: emission records, factors, GWP sets and SBTi targets
-- (src/ghg_tool/domain).
pub mod Emission
pub mod Factor
pub mod Gwp
pub mod SbtiTarget
