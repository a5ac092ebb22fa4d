-- ===== src/Calc/Scope3/CapitalGoods.antt =====
-- application/calc/scope3_cat2_capital_goods.py
use ghg_tool.Prelude.{String, Option, none, some, List, [], ◌∷◌, ◌==◌, All}
use ghg_tool.Prelude.Text.{codes, lower, strip, find_codes}
use ghg_tool.Decimal.{◌*ᵈ◌}
use ghg_tool.Domain.Emission.{EmissionRecord, text, shown}
use ghg_tool.Domain.Factor.{FactorCatalogPort, require_factor}
use ghg_tool.Domain.Gwp.{GwpTablePort}
use ghg_tool.Result.{Result, gather, ◌>>=◌}
use ghg_tool.Result.Trace.{spread}
use ghg_tool.Result.Ensures.{Ensures}
use ghg_tool.Calc.Helpers.{
  Ctx, Scope3Row, kg_to_tonne, or_zero, draft, make_emission, one, only_if, if_some,
}
use ghg_tool.Calc.Helpers.Keys.{RowKey, HasKeys, keys_if, keys_some, key_rules}
use ghg_tool.Calc.Helpers.Stamp.{IsOfRun, of_run_rules}

-- _FACTOR_MAP.get(sottocategoria.strip().lower())
unfoldable pub factor_for : String → Option String
factor_for sottocategoria = find_codes (lower (strip (codes sottocategoria))) (
    ("impiantistica", "EXIO_MACHINERY_NACE_C28")
    ∷ ("materiali di consumo", "EXIO_CONSUMABLES_NACE_C27")
    ∷ [])

abbrev pub keys : Scope3Row → List RowKey
keys row =
    keys_if (row.categoria_s3 == 2)
      (keys_some (factor_for row.sottocategoria) ((some row.id, none, "Cat2", row.anno) ∷ []))

module _ (factors : FactorCatalogPort) (gwp : GwpTablePort) (ctx : Ctx) where
  unfoldable pub build_record : Scope3Row → String → Result EmissionRecord
  build_record row factor_id = do
    factor ← require_factor factors factor_id gwp.code none
    let spend = row.quantita
    let tco2e = or_zero factor.value *ᵈ spend *ᵈ kg_to_tonne
    make_emission ctx (
        draft 3 "Cat2" "spend-based" gwp.code (some row.id) none row.anno tco2e factor (
          text "Cat 2 spend-based EXIOBASE: "
          ∷ text row.sottocategoria
          ∷ text " ("
          ∷ shown spend
          ∷ text " EUR via "
          ∷ text factor_id
          ∷ text ")."
          ∷ []))

  unfoldable pub row_records : Scope3Row → Result (List EmissionRecord)
  row_records row =
      only_if (row.categoria_s3 == 2)
        (if_some (factor_for row.sottocategoria) λ factor_id. one (build_record row factor_id))

  unfoldable pub calculate : List Scope3Row → Result (List EmissionRecord)
  calculate = gather row_records

module _ (factors : FactorCatalogPort) (gwp : GwpTablePort) (ctx : Ctx) where
  row-IsOfRun :
      (row : Scope3Row) → Ensures (All (IsOfRun ctx gwp.code)) (row_records factors gwp ctx row)
  unfolding row_records build_record
  row-IsOfRun row = search of_run_rules depth 12

  row-HasKeys : (row : Scope3Row) → HasKeys (keys row) (row_records factors gwp ctx row)
  unfolding row_records build_record
  row-HasKeys row = search key_rules depth 12

  pub calculate-IsOfRun :
      (rows : List Scope3Row)
      → Ensures (All (IsOfRun ctx gwp.code)) (calculate factors gwp ctx rows)
  unfolding calculate
  calculate-IsOfRun rows = search (of_run_rules, row-IsOfRun) depth 12

  pub calculate-HasKeys :
      (rows : List Scope3Row) → HasKeys (spread keys rows) (calculate factors gwp ctx rows)
  unfolding calculate
  calculate-HasKeys rows = search (key_rules, row-HasKeys) depth 12
