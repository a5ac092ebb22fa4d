-- ===== src/Calc/Orchestrator/OfRun.antt =====
-- Every row of a run is a valid emission record that carries the run's identity.
use ghg_tool.Prelude.{ℕ, List, map, All, ◌≡◌}
use ghg_tool.Decimal.{Decimal}
use ghg_tool.Domain.Emission.{EmissionRecord}
use ghg_tool.Domain.Factor.{FactorCatalogPort}
use ghg_tool.Domain.Gwp.{GwpTablePort, assert_single_gwp_set}
use ghg_tool.Result.{ok, extend_all, ◌>>=◌}
use ghg_tool.Result.Ensures.{Ensures, Ensures-ok, Ensures-bind, Ensures-extend_all}
use ghg_tool.Calc.Helpers.Stamp.{IsOfRun}
use ghg_tool.Calc.Scope1.Combustion
use ghg_tool.Calc.Scope1.Process
use ghg_tool.Calc.Scope1.Fugitive
use ghg_tool.Calc.Scope2.LocationBased
use ghg_tool.Calc.Scope2.MarketBased
use ghg_tool.Calc.Scope3.PurchasedGoods
use ghg_tool.Calc.Scope3.CapitalGoods
use ghg_tool.Calc.Scope3.FuelEnergy
use ghg_tool.Calc.Scope3.UpstreamTransport
use ghg_tool.Calc.Scope3.Waste
use ghg_tool.Calc.Scope3.BusinessTravel
use ghg_tool.Calc.Scope3.Commuting
use ghg_tool.Calc.Scope3.DownstreamTransport
use ghg_tool.Calc.Scope3.EndOfLife
use ghg_tool.Calc.Scope3.ZeroLines
use ghg_tool.Calc.Orchestrator.{CalcRunInputs, common_ctx, calls, run}

ruleset calculate_rules = (
  Fugitive.calculate-IsOfRun, Combustion.calculate-IsOfRun, Process.calculate-IsOfRun,
  LocationBased.calculate-IsOfRun, MarketBased.calculate-IsOfRun, PurchasedGoods.calculate-IsOfRun,
  CapitalGoods.calculate-IsOfRun, FuelEnergy.calculate-IsOfRun, UpstreamTransport.calculate-IsOfRun,
  Waste.calculate-IsOfRun, BusinessTravel.calculate-IsOfRun, Commuting.calculate-IsOfRun,
  DownstreamTransport.calculate-IsOfRun, EndOfLife.calculate-IsOfRun,
  ZeroLines.calculate_cat11-IsOfRun, ZeroLines.calculate_omitted-IsOfRun,
)

module _ (resample : Decimal → List Decimal) (clock : ℕ) (catalog : FactorCatalogPort)
    (gwp : GwpTablePort) (inputs : CalcRunInputs) where
  pub calls-IsOfRun :
      All
        (Ensures (All (IsOfRun (common_ctx clock inputs) gwp.code)))
        (calls resample clock catalog gwp inputs)
  unfolding calls
  calls-IsOfRun = search calculate_rules

  pub run-IsOfRun :
      Ensures
        (All (IsOfRun (common_ctx clock inputs) gwp.code))
        (run resample clock catalog gwp inputs)
  unfolding run
  run-IsOfRun =
      let ms = calls resample clock catalog gwp inputs in
      Ensures-bind (extend_all ms)
        (λ rows. assert_single_gwp_set (map (λ r. r.gwp_set) rows) >>= λ _. ok rows)
        λ rows h.
          Ensures-bind (assert_single_gwp_set (map (λ r. r.gwp_set) rows)) (λ _. ok rows)
            λ _ _. Ensures-ok rows (
              (Ensures-extend_all (IsOfRun (common_ctx clock inputs) gwp.code) ms calls-IsOfRun).at
                rows h)

  -- If a run returns records, each of them is valid (it satisfies every check of the constructor)
  -- and carries the run's identifier, regulatory stream and author, and the GWP table's set.
  pub run-AllOfRun :
      (rows : List EmissionRecord)
      → run resample clock catalog gwp inputs ≡ ok rows
      → All (IsOfRun (common_ctx clock inputs) gwp.code) rows
  run-AllOfRun rows h = run-IsOfRun.at rows h
