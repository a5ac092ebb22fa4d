-- ===== src/Calc/Scope2.antt =====
-- The Scope 2 calculations, on the location and on the market basis.
pub mod LocationBased
pub mod MarketBased
