-- ===== src/Calc/Scope3/PurchasedGoods.antt =====
-- application/calc/scope3_cat1_purchased_goods.py
use ghg_tool.Prelude.{
  Bool, ◌||◌, String, Option, none, some, List, [], ◌∷◌, str_eq, ◌==◌, if◌then◌else◌, All,
}
use ghg_tool.Prelude.Text.{codes, lower, strip, starts, find_codes}
use ghg_tool.Decimal.{Decimal, ◌*ᵈ◌}
use ghg_tool.Domain.Emission.{EmissionRecord, Note, text}
use ghg_tool.Domain.Factor.{FactorCatalogPort, require_factor}
use ghg_tool.Domain.Gwp.{GwpTablePort}
use ghg_tool.Result.{Result, gather, ◌>>=◌}
use ghg_tool.Result.Trace.{spread}
use ghg_tool.Result.Ensures.{Ensures}
use ghg_tool.Calc.Helpers.{
  Ctx, Scope3Row, kg_to_tonne, or_zero, draft, make_emission, one, only_if, if_some,
}
use ghg_tool.Calc.Helpers.Keys.{RowKey, HasKeys, keys_if, keys_some, key_rules}
use ghg_tool.Calc.Helpers.Stamp.{IsOfRun, of_run_rules}

-- `_MATERIAL_FACTOR_MAP.get(sub) or _SPEND_FACTOR_MAP.get(sub)`
unfoldable pub factor_for : String → Option String
factor_for sottocategoria = find_codes (lower (strip (codes sottocategoria))) (
    ("argille", "ECOINV_CLAY_V3_10")
    ∷ ("feldspati", "ECOINV_FELDSPAR_V3_10")
    ∷ ("sabbie silicee", "ECOINV_SILICA_V3_10")
    ∷ ("fritte", "ECOINV_FRIT_V3_10")
    ∷ ("smalti", "ECOINV_FRIT_V3_10")
    ∷ ("pigmenti", "ECOINV_PIGMENT_V3_10")
    ∷ ("additivi", "ECOINV_ADDITIVES_V3_10")
    ∷ ("imballaggi cartone", "ECOINV_CARDBOARD_V3_10")
    ∷ ("pallet legno", "ECOINV_PALLET_V3_10")
    ∷ ("film plastico", "ECOINV_LDPE_V3_10")
    ∷ ("reggette pp", "ECOINV_PP_V3_10")
    ∷ ("servizi vari", "EXIO_SERVICES_NACE_M")
    ∷ [])

-- factor_id in _BIOGENIC_FACTOR_IDS
unfoldable pub is_biogenic : String → Bool
is_biogenic factor_id =
    str_eq factor_id "ECOINV_CARDBOARD_V3_10" || str_eq factor_id "ECOINV_PALLET_V3_10"

unfoldable pub methodology_for : String → String
methodology_for factor_id =
    if starts (codes "ECOINV_") (codes factor_id) then "mass-based" else "spend-based"

-- The biogenic share of one unit, where the factor is biogenic and the catalog has a share.
unfoldable pub biogenic_share : FactorCatalogPort → String → String → Option Decimal
biogenic_share factors factor_id code =
    if is_biogenic factor_id then factors.get_biogenic_share factor_id code else none

abbrev pub memo_note : Option Decimal → Note
memo_note none = []
memo_note (some _) = text " Biogenic CO2 memo populated (ADR-007)." ∷ []

unfoldable pub times : Option Decimal → Decimal → Option Decimal
times none q = none
times (some share) q = some (share *ᵈ q *ᵈ kg_to_tonne)

unfoldable pub if_any : Option Decimal → Decimal → Option Decimal
if_any none total = none
if_any (some _) total = some total

abbrev pub keys : Scope3Row → List RowKey
keys row =
    keys_if (row.categoria_s3 == 1)
      (keys_some (factor_for row.sottocategoria) ((some row.id, none, "Cat1", row.anno) ∷ []))

module _ (factors : FactorCatalogPort) (gwp : GwpTablePort) (ctx : Ctx) where
  -- `_build_record`
  unfoldable pub build_record : Scope3Row → String → Result EmissionRecord
  build_record row factor_id = do
    factor ← require_factor factors factor_id gwp.code none
    let tco2e_total = or_zero factor.value *ᵈ row.quantita *ᵈ kg_to_tonne
    let share = biogenic_share factors factor_id gwp.code
    let note =
        text "Cat 1 "
        ∷ text (methodology_for factor_id)
        ∷ text ": "
        ∷ text row.sottocategoria
        ∷ text " via "
        ∷ text factor_id
        ∷ text "."
        ∷ memo_note share
    let base =
        draft 3 "Cat1" (methodology_for factor_id) gwp.code (some row.id) none row.anno tco2e_total
          factor note
    make_emission ctx (record base {
      co2_biogenic_tonne = times share row.quantita;
      co2_fossil_tonne = if_any share tco2e_total;
    })

  unfoldable pub row_records : Scope3Row → Result (List EmissionRecord)
  row_records row =
      only_if (row.categoria_s3 == 1)
        (if_some (factor_for row.sottocategoria) λ factor_id. one (build_record row factor_id))

  unfoldable pub calculate : List Scope3Row → Result (List EmissionRecord)
  calculate = gather row_records

module _ (factors : FactorCatalogPort) (gwp : GwpTablePort) (ctx : Ctx) where
  row-IsOfRun :
      (row : Scope3Row) → Ensures (All (IsOfRun ctx gwp.code)) (row_records factors gwp ctx row)
  unfolding row_records build_record
  row-IsOfRun row = search of_run_rules depth 12

  row-HasKeys : (row : Scope3Row) → HasKeys (keys row) (row_records factors gwp ctx row)
  unfolding row_records build_record
  row-HasKeys row = search key_rules depth 12

  pub calculate-IsOfRun :
      (rows : List Scope3Row)
      → Ensures (All (IsOfRun ctx gwp.code)) (calculate factors gwp ctx rows)
  unfolding calculate
  calculate-IsOfRun rows = search (of_run_rules, row-IsOfRun) depth 12

  pub calculate-HasKeys :
      (rows : List Scope3Row) → HasKeys (spread keys rows) (calculate factors gwp ctx rows)
  unfolding calculate
  calculate-HasKeys rows = search (key_rules, row-HasKeys) depth 12
