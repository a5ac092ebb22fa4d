-- ===== src/Calc/Scope2/LocationBased.antt =====
-- application/calc/scope2_lb.py
use ghg_tool.Prelude.{String, none, some, List, [], ◌∷◌, All}
use ghg_tool.Decimal.{◌*ᵈ◌}
use ghg_tool.Domain.Emission.{EmissionRecord, text, shown}
use ghg_tool.Domain.Factor.{FactorRecord, FactorCatalogPort, require_factor}
use ghg_tool.Domain.Gwp.{GwpTablePort}
use ghg_tool.Result.{Result, gather, ◌>>=◌}
use ghg_tool.Result.Trace.{spread}
use ghg_tool.Result.Ensures.{Ensures}
use ghg_tool.Calc.Helpers.{Ctx, Scope2Row, kg_to_tonne, or_zero, draft, make_emission, one}
use ghg_tool.Calc.Helpers.Keys.{RowKey, HasKeys, key_rules}
use ghg_tool.Calc.Helpers.Stamp.{IsOfRun, of_run_rules}

abbrev pub lb_factor_id : String
lb_factor_id = "LB_IT_GRID_ISPRA_2024"

abbrev pub keys : Scope2Row → List RowKey
keys row = (some row.id, some row.codice_sito, "LB", row.anno) ∷ []

unfoldable pub row_records :
    GwpTablePort → Ctx → FactorRecord → Scope2Row → Result (List EmissionRecord)
row_records gwp ctx factor row =
    let tco2e = or_zero factor.value *ᵈ row.quantita *ᵈ kg_to_tonne in
    one (
      make_emission ctx (
        draft 2 "LB" "location-based" gwp.code (some row.id) (some row.codice_sito) row.anno tco2e
          factor
          (text "Scope 2 LB: ISPRA factor applied to "
            ∷ shown row.quantita
            ∷ text " kWh (voce_s2="
            ∷ text row.voce_s2
            ∷ text ")."
            ∷ [])))

unfoldable pub calculate :
    FactorCatalogPort → GwpTablePort → Ctx → List Scope2Row → Result (List EmissionRecord)
calculate factors gwp ctx rows = do
  factor ← require_factor factors lb_factor_id gwp.code none
  gather (row_records gwp ctx factor) rows

module _ (factors : FactorCatalogPort) (gwp : GwpTablePort) (ctx : Ctx) where
  row-IsOfRun :
      (factor : FactorRecord) (row : Scope2Row)
      → Ensures (All (IsOfRun ctx gwp.code)) (row_records gwp ctx factor row)
  unfolding row_records
  row-IsOfRun factor row = search of_run_rules depth 12

  row-HasKeys :
      (factor : FactorRecord) (row : Scope2Row)
      → HasKeys (keys row) (row_records gwp ctx factor row)
  unfolding row_records
  row-HasKeys factor row = search key_rules depth 12

  pub calculate-IsOfRun :
      (rows : List Scope2Row)
      → Ensures (All (IsOfRun ctx gwp.code)) (calculate factors gwp ctx rows)
  unfolding calculate
  calculate-IsOfRun rows = search (of_run_rules, row-IsOfRun) depth 12

  pub calculate-HasKeys :
      (rows : List Scope2Row) → HasKeys (spread keys rows) (calculate factors gwp ctx rows)
  unfolding calculate
  calculate-HasKeys rows = search (key_rules, row-HasKeys) depth 12
