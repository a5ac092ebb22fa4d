-- ===== src/Calc/Orchestrator.antt =====
-- application/services/calc_orchestrator.py: one run of the sixteen calculations, in order.
pub mod Sigma
pub mod OfRun
pub mod Coverage
use ghg_tool.Prelude.{
  ℕ, Bool, String, Option, none, some, List, [], ◌∷◌, map, str_eq, if◌then◌else◌,
}
use ghg_tool.Prelude.Dict.{Dict, Eq, string_eq, nat_eq, pair_eq, update}
use ghg_tool.Decimal.{Decimal, nought, ◌+ᵈ◌}
use ghg_tool.Domain.Emission.{EmissionRecord}
use ghg_tool.Domain.Factor.{Uuid, FactorCatalogPort}
use ghg_tool.Domain.Gwp.{GwpTablePort, assert_single_gwp_set}
use ghg_tool.Result.{Result, ok, extend_all, ◌>>=◌}
use ghg_tool.Calc.Helpers.{Ctx, Scope1Row, Scope2Row, Scope3Row, or_zero}
use ghg_tool.Calc.Scope1.Combustion
use ghg_tool.Calc.Scope1.Process
use ghg_tool.Calc.Scope1.Fugitive
use ghg_tool.Calc.Scope2.LocationBased
use ghg_tool.Calc.Scope2.MarketBased
use ghg_tool.Calc.Scope2.MarketBased.{GoEvidenceCheck}
use ghg_tool.Calc.Scope3.PurchasedGoods
use ghg_tool.Calc.Scope3.CapitalGoods
use ghg_tool.Calc.Scope3.FuelEnergy
use ghg_tool.Calc.Scope3.FuelEnergy.{SigmaScope1, SigmaScope2}
use ghg_tool.Calc.Scope3.UpstreamTransport
use ghg_tool.Calc.Scope3.Waste
use ghg_tool.Calc.Scope3.BusinessTravel
use ghg_tool.Calc.Scope3.Commuting
use ghg_tool.Calc.Scope3.DownstreamTransport
use ghg_tool.Calc.Scope3.EndOfLife
use ghg_tool.Calc.Scope3.ZeroLines

pub record CalcRunInputs : Type 0 where
  pub correlation_id : Uuid
  pub anno : ℕ
  pub sites : List String
  pub scope1_rows : List Scope1Row
  pub scope2_rows : List Scope2Row
  pub scope3_rows : List Scope3Row
  pub created_by : String
  pub regulatory_stream : String
  pub go_evidence : Option GoEvidenceCheck

-- sigma[key] = sigma.get(key, Decimal("0")) + qty
abbrev pub plus_quantity : Decimal → Option Decimal → Decimal
plus_quantity q o = or_zero o +ᵈ q

sigma1_from : SigmaScope1 → List Scope1Row → SigmaScope1
sigma1_from sigma [] = sigma
sigma1_from sigma (row ∷ rows) =
    sigma1_from
      (if str_eq row.categoria_s1 "Processo_Decarb"
        then sigma
        else update (row.combustibile, row.anno) (plus_quantity row.quantita) sigma)
      rows

-- `_sigma_scope1_from_rows`
unfoldable pub sigma_scope1_from_rows : List Scope1Row → SigmaScope1
unfolding sigma1_from
sigma_scope1_from_rows = sigma1_from []

sigma2_from : SigmaScope2 → List Scope2Row → SigmaScope2
sigma2_from sigma [] = sigma
sigma2_from sigma (row ∷ rows) =
    sigma2_from (update row.anno (plus_quantity row.quantita) sigma) rows

-- `_sigma_scope2_from_rows`
unfoldable pub sigma_scope2_from_rows : List Scope2Row → SigmaScope2
unfolding sigma2_from
sigma_scope2_from_rows = sigma2_from []

-- `_common_ctx`, with the clock of the run
abbrev pub common_ctx : ℕ → CalcRunInputs → Ctx
common_ctx clock inputs = record {
  correlation_id = inputs.correlation_id;
  created_by = inputs.created_by;
  regulatory_stream = inputs.regulatory_stream;
  clock = clock;
}

-- An orchestrator binds a catalog and a GWP table; the draws of Category 6 and the clock are the
-- environment's.
module _ (resample : Decimal → List Decimal) (clock : ℕ) (catalog : FactorCatalogPort)
    (gwp : GwpTablePort) where
  -- The calls of `run`, in its order.
  unfoldable pub calls : CalcRunInputs → List (Result (List EmissionRecord))
  calls inputs =
      let ctx = common_ctx clock inputs in
      let sigma_s1 = sigma_scope1_from_rows inputs.scope1_rows in
      let sigma_s2 = sigma_scope2_from_rows inputs.scope2_rows in
      Fugitive.calculate gwp inputs.anno ctx inputs.sites
      ∷ Combustion.calculate catalog gwp ctx inputs.scope1_rows
      ∷ Process.calculate catalog gwp ctx inputs.scope1_rows
      ∷ LocationBased.calculate catalog gwp ctx inputs.scope2_rows
      ∷ MarketBased.calculate catalog gwp inputs.go_evidence ctx inputs.scope2_rows
      ∷ PurchasedGoods.calculate catalog gwp ctx inputs.scope3_rows
      ∷ CapitalGoods.calculate catalog gwp ctx inputs.scope3_rows
      ∷ FuelEnergy.calculate catalog gwp ctx sigma_s1 sigma_s2
      ∷ UpstreamTransport.calculate catalog gwp ctx inputs.scope3_rows
      ∷ Waste.calculate catalog gwp ctx inputs.scope3_rows
      ∷ BusinessTravel.calculate resample catalog gwp ctx inputs.scope3_rows
      ∷ Commuting.calculate catalog gwp ctx inputs.scope3_rows
      ∷ DownstreamTransport.calculate catalog gwp ctx inputs.scope3_rows
      ∷ EndOfLife.calculate catalog gwp ctx inputs.scope3_rows
      ∷ ZeroLines.calculate_cat11 gwp inputs.anno ctx
      ∷ ZeroLines.calculate_omitted gwp inputs.anno ctx
      ∷ []

  -- `run`: all rows, after the check that they share one GWP set.
  unfoldable pub run : CalcRunInputs → Result (List EmissionRecord)
  run inputs = do
    rows ← extend_all (calls inputs)
    gwp_set ← assert_single_gwp_set (map (λ r. r.gwp_set) rows)
    ok rows
