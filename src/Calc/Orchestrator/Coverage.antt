-- ===== src/Calc/Orchestrator/Coverage.antt =====
-- Coverage of the inputs: the rows of a run are those that the inputs ask for, none missing and none
-- more.
use ghg_tool.Prelude.{ℕ, List, [], ◌∷◌, none}
use ghg_tool.Decimal.{Decimal}
use ghg_tool.Domain.Factor.{FactorCatalogPort}
use ghg_tool.Domain.Gwp.{GwpTablePort}
use ghg_tool.Result.Trace.{spread, KeysMatch}
use ghg_tool.Calc.Helpers.Keys.{RowKey, row_key}
use ghg_tool.Calc.Scope1.Combustion
use ghg_tool.Calc.Scope1.Process
use ghg_tool.Calc.Scope1.Fugitive
use ghg_tool.Calc.Scope2.LocationBased
use ghg_tool.Calc.Scope2.MarketBased
use ghg_tool.Calc.Scope3.PurchasedGoods
use ghg_tool.Calc.Scope3.CapitalGoods
use ghg_tool.Calc.Scope3.FuelEnergy
use ghg_tool.Calc.Scope3.UpstreamTransport
use ghg_tool.Calc.Scope3.Waste
use ghg_tool.Calc.Scope3.BusinessTravel
use ghg_tool.Calc.Scope3.Commuting
use ghg_tool.Calc.Scope3.DownstreamTransport
use ghg_tool.Calc.Scope3.EndOfLife
use ghg_tool.Calc.Scope3.ZeroLines
use ghg_tool.Calc.Orchestrator.{
  CalcRunInputs, calls, sigma_scope1_from_rows, sigma_scope2_from_rows,
}

-- What a run owes its inputs, calculation by calculation: for each selected row of input, or each
-- site, year or omitted category, the key of the emission record.
unfoldable pub run_keys : CalcRunInputs → List (List RowKey)
run_keys inputs =
    let sigma_s1 = sigma_scope1_from_rows inputs.scope1_rows in
    let sigma_s2 = sigma_scope2_from_rows inputs.scope2_rows in
    spread (Fugitive.keys inputs.anno) inputs.sites
    ∷ spread Combustion.keys inputs.scope1_rows
    ∷ spread Process.keys inputs.scope1_rows
    ∷ spread LocationBased.keys inputs.scope2_rows
    ∷ spread MarketBased.keys inputs.scope2_rows
    ∷ spread PurchasedGoods.keys inputs.scope3_rows
    ∷ spread CapitalGoods.keys inputs.scope3_rows
    ∷ spread (λ ks. ks) (FuelEnergy.keys_of sigma_s1 sigma_s2)
    ∷ spread UpstreamTransport.keys inputs.scope3_rows
    ∷ spread Waste.keys inputs.scope3_rows
    ∷ spread BusinessTravel.keys inputs.scope3_rows
    ∷ spread Commuting.keys inputs.scope3_rows
    ∷ spread DownstreamTransport.keys inputs.scope3_rows
    ∷ spread EndOfLife.keys inputs.scope3_rows
    ∷ ((none, none, "Cat11_ZERO", inputs.anno) ∷ [])
    ∷ spread (ZeroLines.omitted_keys inputs.anno) ZeroLines.omitted_categories
    ∷ []

ruleset coverage_rules = (
  Fugitive.calculate-HasKeys, Combustion.calculate-HasKeys, Process.calculate-HasKeys,
  LocationBased.calculate-HasKeys, MarketBased.calculate-HasKeys, PurchasedGoods.calculate-HasKeys,
  CapitalGoods.calculate-HasKeys, FuelEnergy.calculate-HasKeys, UpstreamTransport.calculate-HasKeys,
  Waste.calculate-HasKeys, BusinessTravel.calculate-HasKeys, Commuting.calculate-HasKeys,
  DownstreamTransport.calculate-HasKeys, EndOfLife.calculate-HasKeys,
  ZeroLines.calculate_cat11-HasKeys, ZeroLines.calculate_omitted-HasKeys,
)

module _ (resample : Decimal → List Decimal) (clock : ℕ) (catalog : FactorCatalogPort)
    (gwp : GwpTablePort) (inputs : CalcRunInputs) where
  pub calls-KeysMatch :
      KeysMatch row_key (run_keys inputs) (calls resample clock catalog gwp inputs)
  unfolding calls run_keys
  calls-KeysMatch = search coverage_rules
