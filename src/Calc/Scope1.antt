-- ===== src/Calc/Scope1.antt =====
-- The Scope 1 calculations: combustion, process and the fugitive zero-lines.
pub mod Combustion
pub mod Process
pub mod Fugitive
