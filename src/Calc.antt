-- ===== src/Calc.antt =====
-- The calculation layer (src/ghg_tool/application/calc and
-- application/services/calc_orchestrator.py).
pub mod Helpers
pub mod Scope1
pub mod Scope2
pub mod Scope3
pub mod Orchestrator
pub mod Returns
