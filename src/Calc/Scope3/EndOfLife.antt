-- ===== src/Calc/Scope3/EndOfLife.antt =====
-- application/calc/scope3_cat12_eol.py
use ghg_tool.Prelude.{String, none, some, List, [], ◌∷◌, ◌==◌, All}
use ghg_tool.Decimal.{Decimal, dec, ◌*ᵈ◌}
use ghg_tool.Domain.Emission.{EmissionRecord, text, shown}
use ghg_tool.Domain.Factor.{FactorRecord, FactorCatalogPort, require_factor}
use ghg_tool.Domain.Gwp.{GwpTablePort}
use ghg_tool.Result.{Result, gather, ◌>>=◌}
use ghg_tool.Result.Trace.{spread}
use ghg_tool.Result.Ensures.{Ensures}
use ghg_tool.Calc.Helpers.{Ctx, Scope3Row, kg_to_tonne, or_zero, draft, make_emission, only_if, two}
use ghg_tool.Calc.Helpers.Keys.{RowKey, HasKeys, keys_if, key_rules}
use ghg_tool.Calc.Helpers.Stamp.{IsOfRun, of_run_rules}

abbrev pub landfill_factor_id : String
landfill_factor_id = "ECOINV_LANDFILL_INERT_V3_10"

abbrev pub recycle_factor_id : String
recycle_factor_id = "ECOINV_CDW_RECYCLE_V3_10"

abbrev pub landfill_fraction : Decimal
landfill_fraction = dec 30 2

abbrev pub recycle_fraction : Decimal
recycle_fraction = dec 70 2

abbrev pub keys : Scope3Row → List RowKey
keys row =
    keys_if (row.categoria_s3 == 12)
      ((some row.id, none, "Cat12", row.anno) ∷ (some row.id, none, "Cat12", row.anno) ∷ [])

-- The landfill row and the recycling row of one input row.
unfoldable pub row_records :
    GwpTablePort → Ctx → FactorRecord → FactorRecord → Scope3Row → Result (List EmissionRecord)
row_records gwp ctx landfill_factor recycle_factor row =
    let landfill_mass = row.quantita *ᵈ landfill_fraction in
    let recycle_mass = row.quantita *ᵈ recycle_fraction in
    let landfill_tco2e = or_zero landfill_factor.value *ᵈ landfill_mass *ᵈ kg_to_tonne in
    let recycle_tco2e = or_zero recycle_factor.value *ᵈ recycle_mass *ᵈ kg_to_tonne in
    only_if (row.categoria_s3 == 12) (
      two
        (make_emission ctx (
          draft 3 "Cat12" "mass-based" gwp.code (some row.id) none row.anno landfill_tco2e
            landfill_factor
            (text "Cat 12 landfill (30%) cut-off: "
              ∷ shown landfill_mass
              ∷ text " t via "
              ∷ text landfill_factor.factor_id
              ∷ text "."
              ∷ [])))
        (make_emission ctx (
          draft 3 "Cat12" "mass-based" gwp.code (some row.id) none row.anno recycle_tco2e
            recycle_factor
            (text "Cat 12 recycling (70%) cut-off (no avoided-emissions credit): "
              ∷ shown recycle_mass
              ∷ text " t via "
              ∷ text recycle_factor.factor_id
              ∷ text "."
              ∷ []))))

unfoldable pub calculate :
    FactorCatalogPort → GwpTablePort → Ctx → List Scope3Row → Result (List EmissionRecord)
calculate factors gwp ctx rows = do
  landfill_factor ← require_factor factors landfill_factor_id gwp.code none
  recycle_factor ← require_factor factors recycle_factor_id gwp.code none
  gather (row_records gwp ctx landfill_factor recycle_factor) rows

module _ (factors : FactorCatalogPort) (gwp : GwpTablePort) (ctx : Ctx) where
  row-IsOfRun :
      (lf rf : FactorRecord) (row : Scope3Row)
      → Ensures (All (IsOfRun ctx gwp.code)) (row_records gwp ctx lf rf row)
  unfolding row_records
  row-IsOfRun lf rf row = search of_run_rules depth 12

  row-HasKeys :
      (lf rf : FactorRecord) (row : Scope3Row) → HasKeys (keys row) (row_records gwp ctx lf rf row)
  unfolding row_records
  row-HasKeys lf rf row = search key_rules depth 12

  pub calculate-IsOfRun :
      (rows : List Scope3Row)
      → Ensures (All (IsOfRun ctx gwp.code)) (calculate factors gwp ctx rows)
  unfolding calculate
  calculate-IsOfRun rows = search (of_run_rules, row-IsOfRun) depth 12

  pub calculate-HasKeys :
      (rows : List Scope3Row) → HasKeys (spread keys rows) (calculate factors gwp ctx rows)
  unfolding calculate
  calculate-HasKeys rows = search (key_rules, row-HasKeys) depth 12
