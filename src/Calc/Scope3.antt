-- ===== src/Calc/Scope3.antt =====
-- The Scope 3 calculations, one module to a category.
pub mod PurchasedGoods
pub mod CapitalGoods
pub mod UpstreamTransport
pub mod Waste
pub mod Commuting
pub mod DownstreamTransport
pub mod EndOfLife
pub mod BusinessTravel
pub mod FuelEnergy
pub mod ZeroLines
