-- ===== src/Calc/Scope1/Combustion.antt =====
-- application/calc/scope1_combustion.py
use ghg_tool.Prelude.{String, Option, none, some, List, [], ◌∷◌, str_eq, if◌then◌else◌, All}
use ghg_tool.Decimal.{◌+ᵈ◌, ◌*ᵈ◌}
use ghg_tool.Domain.Emission.{EmissionRecord, text}
use ghg_tool.Domain.Factor.{FactorCatalogPort, require_factor}
use ghg_tool.Domain.Gwp.{GwpTablePort}
use ghg_tool.Result.{Result, gather, ◌>>=◌}
use ghg_tool.Result.Trace.{spread, map-gather}
use ghg_tool.Result.Ensures.{Ensures, Ensures-gather}
use ghg_tool.Calc.Helpers.{Ctx, Scope1Row, kg_to_tonne, or_zero, draft, make_emission, one, if_some}
use ghg_tool.Calc.Helpers.Keys.{RowKey, row_key, HasKeys, keys_some, key_rules}
use ghg_tool.Calc.Helpers.Stamp.{IsOfRun, of_run_rules}

-- The factor of each gas for one fuel.
pub record FuelFactorIds : Type 0 where
  pub co2 : String
  pub ch4 : String
  pub n2o : String

-- _FUEL_FACTOR_IDS
unfoldable pub fuel_factor_ids : String → Option FuelFactorIds
fuel_factor_ids fuel =
    if str_eq fuel "GAS_NAT"
    then some (record {
      co2 = "COMB_GAS_NAT_CO2_DEFRA_2025";
      ch4 = "COMB_GAS_NAT_CH4_DEFRA_2025";
      n2o = "COMB_GAS_NAT_N2O_DEFRA_2025";
    })
    else if str_eq fuel "GASOLIO"
    then some (record {
      co2 = "COMB_GASOLIO_CO2_DEFRA_2025";
      ch4 = "COMB_GASOLIO_CH4_DEFRA_2025";
      n2o = "COMB_GASOLIO_N2O_DEFRA_2025";
    })
    else if str_eq fuel "BENZINA"
    then some (record {
      co2 = "COMB_BENZINA_CO2_DEFRA_2025";
      ch4 = "COMB_BENZINA_CH4_DEFRA_2025";
      n2o = "COMB_BENZINA_N2O_DEFRA_2025";
    })
    else none

abbrev pub keys : Scope1Row → List RowKey
keys row =
    keys_some (fuel_factor_ids row.combustibile)
      ((some row.id, some row.codice_sito, "combustion", row.anno) ∷ [])

module _ (factors : FactorCatalogPort) (gwp : GwpTablePort) (ctx : Ctx) where
  -- `_build_record`
  unfoldable pub build_record : FuelFactorIds → Scope1Row → Result EmissionRecord
  build_record ids row = do
    co2_factor ← require_factor factors ids.co2 gwp.code none
    ch4_factor ← require_factor factors ids.ch4 gwp.code none
    n2o_factor ← require_factor factors ids.n2o gwp.code none
    let co2_kg = or_zero co2_factor.value *ᵈ row.quantita
    let ch4_kg = or_zero ch4_factor.value *ᵈ row.quantita
    let n2o_kg = or_zero n2o_factor.value *ᵈ row.quantita
    gwp_ch4 ← gwp.get "CH4"
    gwp_n2o ← gwp.get "N2O"
    let co2_tonne = co2_kg *ᵈ kg_to_tonne
    let ch4_tco2e = ch4_kg *ᵈ kg_to_tonne *ᵈ gwp_ch4
    let n2o_tco2e = n2o_kg *ᵈ kg_to_tonne *ᵈ gwp_n2o
    let tco2e = co2_tonne +ᵈ ch4_tco2e +ᵈ n2o_tco2e
    let note =
        text "Combustion "
        ∷ text row.combustibile
        ∷ text ": CO2 factor="
        ∷ text co2_factor.factor_id
        ∷ text ", CH4 factor="
        ∷ text ch4_factor.factor_id
        ∷ text ", N2O factor="
        ∷ text n2o_factor.factor_id
        ∷ text "."
        ∷ []
    let base =
        draft 1 "combustion" "activity-based" gwp.code (some row.id) (some row.codice_sito) row.anno
          tco2e co2_factor note
    make_emission ctx (record base {
      co2_tonne = some co2_tonne;
      co2_fossil_tonne = some co2_tonne;
      ch4_tco2e = some ch4_tco2e;
      n2o_tco2e = some n2o_tco2e;
    })

  unfoldable pub row_records : Scope1Row → Result (List EmissionRecord)
  row_records row = if_some (fuel_factor_ids row.combustibile) λ ids. one (build_record ids row)

  unfoldable pub calculate : List Scope1Row → Result (List EmissionRecord)
  calculate = gather row_records

  row-IsOfRun : (row : Scope1Row) → Ensures (All (IsOfRun ctx gwp.code)) (row_records row)
  unfolding row_records build_record
  row-IsOfRun row = search of_run_rules depth 12

  pub calculate-IsOfRun :
      (rows : List Scope1Row) → Ensures (All (IsOfRun ctx gwp.code)) (calculate rows)
  unfolding calculate
  calculate-IsOfRun rows = Ensures-gather row_records row-IsOfRun rows

  row-HasKeys : (row : Scope1Row) → HasKeys (keys row) (row_records row)
  unfolding row_records build_record
  row-HasKeys row = search key_rules depth 12

  pub calculate-HasKeys : (rows : List Scope1Row) → HasKeys (spread keys rows) (calculate rows)
  unfolding calculate
  calculate-HasKeys = map-gather row_key row_records keys row-HasKeys
