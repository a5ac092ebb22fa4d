-- ===== src/Calc/Scope3/DownstreamTransport.antt =====
-- application/calc/scope3_cat9_downstream_transport.py
use ghg_tool.Prelude.{String, Option, none, some, List, [], ◌∷◌, ◌==◌, All}
use ghg_tool.Prelude.Text.{codes, lower, first_within}
use ghg_tool.Decimal.{◌*ᵈ◌}
use ghg_tool.Domain.Emission.{EmissionRecord, text, shown}
use ghg_tool.Domain.Factor.{FactorCatalogPort, require_factor}
use ghg_tool.Domain.Gwp.{GwpTablePort}
use ghg_tool.Result.{Result, gather, ◌>>=◌}
use ghg_tool.Result.Trace.{spread}
use ghg_tool.Result.Ensures.{Ensures}
use ghg_tool.Calc.Helpers.{
  Ctx, Scope3Row, kg_to_tonne, or_zero, draft, make_emission, one, only_if, if_some,
}
use ghg_tool.Calc.Helpers.Keys.{RowKey, HasKeys, keys_if, keys_some, key_rules}
use ghg_tool.Calc.Helpers.Stamp.{IsOfRun, of_run_rules}

abbrev pub load_factor_note : String
load_factor_note =
    "FR-16 load factor: 27 t per HGV trip; market share % stored as metadata; tkm derived from proxy sectorial data."

-- `_resolve_mode`: the first key of `_MODE_FACTOR_IDS` that the label contains
unfoldable pub resolve_mode : String → Option String
resolve_mode sottocategoria = first_within (lower (codes sottocategoria)) (
    ("strada", "FREIGHT_HGV_DEFRA_2025")
    ∷ ("hgv", "FREIGHT_HGV_DEFRA_2025")
    ∷ ("nave", "FREIGHT_SEA_DEFRA_2025")
    ∷ ("sea", "FREIGHT_SEA_DEFRA_2025")
    ∷ [])

abbrev pub keys : Scope3Row → List RowKey
keys row =
    keys_if (row.categoria_s3 == 9)
      (keys_some (resolve_mode row.sottocategoria) ((some row.id, none, "Cat9", row.anno) ∷ []))

module _ (factors : FactorCatalogPort) (gwp : GwpTablePort) (ctx : Ctx) where
  unfoldable pub build_record : Scope3Row → String → Result EmissionRecord
  build_record row factor_id = do
    factor ← require_factor factors factor_id gwp.code none
    let tkm = row.quantita
    let tco2e = or_zero factor.value *ᵈ tkm *ᵈ kg_to_tonne
    make_emission ctx (
        draft 3 "Cat9" "distance-based" gwp.code (some row.id) none row.anno tco2e factor (
          text "Cat 9 distance-based: "
          ∷ text row.sottocategoria
          ∷ text " ("
          ∷ shown tkm
          ∷ text " tkm via "
          ∷ text factor.factor_id
          ∷ text "). "
          ∷ text load_factor_note
          ∷ []))

  unfoldable pub row_records : Scope3Row → Result (List EmissionRecord)
  row_records row =
      only_if (row.categoria_s3 == 9)
        (if_some (resolve_mode row.sottocategoria) λ factor_id. one (build_record row factor_id))

  unfoldable pub calculate : List Scope3Row → Result (List EmissionRecord)
  calculate = gather row_records

module _ (factors : FactorCatalogPort) (gwp : GwpTablePort) (ctx : Ctx) where
  row-IsOfRun :
      (row : Scope3Row) → Ensures (All (IsOfRun ctx gwp.code)) (row_records factors gwp ctx row)
  unfolding row_records build_record
  row-IsOfRun row = search of_run_rules depth 12

  row-HasKeys : (row : Scope3Row) → HasKeys (keys row) (row_records factors gwp ctx row)
  unfolding row_records build_record
  row-HasKeys row = search key_rules depth 12

  pub calculate-IsOfRun :
      (rows : List Scope3Row)
      → Ensures (All (IsOfRun ctx gwp.code)) (calculate factors gwp ctx rows)
  unfolding calculate
  calculate-IsOfRun rows = search (of_run_rules, row-IsOfRun) depth 12

  pub calculate-HasKeys :
      (rows : List Scope3Row) → HasKeys (spread keys rows) (calculate factors gwp ctx rows)
  unfolding calculate
  calculate-HasKeys rows = search (key_rules, row-HasKeys) depth 12
